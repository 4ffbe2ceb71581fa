-- ===== src/Service.antt =====
-- lib.rs: `PxeBootService`, which ties the parts together.
pub mod Defaults
pub mod Warnings
pub mod Entries
pub mod Render
pub mod Menu
pub mod Collaborators
pub mod Positions
pub mod Detection
pub mod Prepare
pub mod Status
pub mod Tasks
pub mod Interleaving
pub mod Counts
pub mod Separate
pub mod New
pub mod Written
pub mod Files
pub mod Finished
pub mod Reported
pub mod Variants
pub mod Lock
pub mod Completes
pub mod Agreement
