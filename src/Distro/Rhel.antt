-- ===== src/Distro/Rhel.antt =====
-- distro/rhel.rs
use nixos_router_module.Base.{List, Option, [], none, some, ◌++◌, ◌∷◌}
use nixos_router_module.Config.{AutoinstallScript, BootInfo, IsoInfo, red_hat}
use nixos_router_module.Distro.Arch.{detect_architecture_from_file_name}
use nixos_router_module.Distro.Detector.{DistroDetector, autoinstall_url_placeholder}
use nixos_router_module.Errors.{Result, ok, ◌>>=◌}
use nixos_router_module.Iso.FindFile.{find_file}
use nixos_router_module.Os.{Os}
use nixos_router_module.Paths.{join_text_path}
use nixos_router_module.Text.{Text, text}

unfoldable pub rhel_extract_boot_info : (os : Os) → os.State → IsoInfo → Result BootInfo
rhel_extract_boot_info os s iso = do
  kernel ← find_file os s iso.mount_path (text "images/pxeboot/vmlinuz" ∷ [])
  initrd ← find_file os s iso.mount_path (text "images/pxeboot/initrd.img" ∷ [])
  ok (record {
    kernel_path = kernel;
    initrd_path = initrd;
    distro_type = red_hat;
    version = none;
    architecture = detect_architecture_from_file_name iso.file_name;
    init_path = none;
  })

abbrev pub kickstart_params : Option AutoinstallScript → List Text
kickstart_params none = []
kickstart_params (some script) = (text "inst.ks=" ++ autoinstall_url_placeholder) ∷ []

unfoldable pub rhel_boot_params : Text → Text → BootInfo → Option AutoinstallScript → List Text
rhel_boot_params iso_url mounted_url boot autoinstall =
    (text "initrd=initrd.img" ∷ (text "inst.repo=" ++ mounted_url) ∷ [])
    ++ kickstart_params autoinstall

module _ (os : Os) where
  abbrev pub rhel_detector : DistroDetector os.State
  rhel_detector = record {
    id = text "rhel";
    priority = 50;
    can_handle =
        λ s mount. ok (os.exists s (join_text_path mount (text "RPM-GPG-KEY-redhat-release")));
    extract_boot_info = rhel_extract_boot_info os;
    generate_boot_params = rhel_boot_params;
    grub_template = none;
  }
