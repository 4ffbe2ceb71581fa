-- ===== src/Distro/Unknown.antt =====
-- distro/unknown.rs, and the registry with the detectors that are built in.
use nixos_router_module.Base.{List, [], none, true}
use nixos_router_module.Distro.Detector.{DistroDetector, register}
use nixos_router_module.Distro.NixOs.{ParseBootSpec, nixos_detector}
use nixos_router_module.Distro.Rhel.{rhel_detector}
use nixos_router_module.Distro.Ubuntu.{ubuntu_detector}
use nixos_router_module.Errors.{detection_failed, err, ok}
use nixos_router_module.Os.{Os}
use nixos_router_module.Text.{text}

module _ (os : Os) where
  abbrev pub unknown_detector : DistroDetector os.State
  unknown_detector = record {
    id = text "unknown";
    priority = 0;
    can_handle = λ s mount. ok true;
    extract_boot_info =
        λ s iso. err (detection_failed iso.file_name (text "Unknown distribution type"));
    generate_boot_params = λ iso_url mounted_url boot autoinstall. [];
    grub_template = none;
  }

  -- `DetectorRegistry::new`
  unfoldable pub new_registry : ParseBootSpec → List (DistroDetector os.State)
  new_registry from_str =
      register
        (register (register (register [] (nixos_detector os from_str)) (ubuntu_detector os))
          (rhel_detector os))
        unknown_detector
