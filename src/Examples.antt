-- ===== src/Examples.antt =====
-- Runs of the program on a small machine, and the theorems applied to them.
pub mod Data
pub mod Checked
pub mod Menus
pub mod Detecting
pub mod Images
pub mod Seeding
pub mod Writing
pub mod Prepared
pub mod Running
pub mod Commanding
pub mod Interleaved
pub mod Linked
pub mod Mounted
pub mod Cleaned
