-- ===== src/Iso.antt =====
-- iso/: finding files on a mounted image.
pub mod FindFile
pub mod Mount
pub mod Mounter
pub mod Fields
pub mod ServeTree
pub mod Discovery
pub mod FirstMatch
pub mod Order
pub mod Served
pub mod MountTable
pub mod TreeDirs
pub mod Links
pub mod Unmounted
