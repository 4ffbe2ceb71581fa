-- ===== src/Grub.antt =====
-- grub/: the entries and the text of a GRUB menu.
pub mod Header
pub mod Entry
pub mod Menu
pub mod Escape
pub mod Rendered
pub mod Decode
pub mod Params
pub mod Total
