-- ===== src/Distro.antt =====
-- distro/: the detectors, their registry and the architecture of an image.
pub mod Arch
pub mod Detector
pub mod NixOs
pub mod Ubuntu
pub mod Rhel
pub mod Unknown
pub mod Priority
pub mod Registry
pub mod BootPaths
