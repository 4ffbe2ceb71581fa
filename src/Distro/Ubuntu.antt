-- ===== src/Distro/Ubuntu.antt =====
-- distro/ubuntu.rs
use nixos_router_module.Base.{List, Option, [], none, some, ◌++◌, ◌∷◌}
use nixos_router_module.Config.{AutoinstallScript, BootInfo, IsoInfo, ubuntu}
use nixos_router_module.Distro.Arch.{detect_architecture_from_file_name}
use nixos_router_module.Distro.Detector.{DistroDetector, autoinstall_dir_url_placeholder}
use nixos_router_module.Errors.{Result, ok, ◌>>=◌}
use nixos_router_module.Iso.FindFile.{find_file}
use nixos_router_module.Os.{Os}
use nixos_router_module.Paths.{join_text_path}
use nixos_router_module.Text.{Text, text}

unfoldable pub ubuntu_extract_boot_info : (os : Os) → os.State → IsoInfo → Result BootInfo
ubuntu_extract_boot_info os s iso = do
  kernel ← find_file os s iso.mount_path (text "casper/vmlinuz" ∷ [])
  initrd ← find_file os s iso.mount_path (text "casper/initrd" ∷ [])
  ok (record {
    kernel_path = kernel;
    initrd_path = initrd;
    distro_type = ubuntu;
    version = none;
    architecture = detect_architecture_from_file_name iso.file_name;
    init_path = none;
  })

abbrev pub ubuntu_seed_params : Option AutoinstallScript → List Text
ubuntu_seed_params none = []
ubuntu_seed_params (some script) =
    text "autoinstall" ∷ (text "ds=nocloud-net\\;s=" ++ autoinstall_dir_url_placeholder) ∷ []

unfoldable pub ubuntu_boot_params : Text → Text → BootInfo → Option AutoinstallScript → List Text
ubuntu_boot_params iso_url mounted_url boot autoinstall =
    (text "BOOTIF=${net_default_mac}" ∷ text "ip=dhcp" ∷ (text "url=" ++ iso_url) ∷ [])
    ++ ubuntu_seed_params autoinstall

module _ (os : Os) where
  abbrev pub ubuntu_detector : DistroDetector os.State
  ubuntu_detector = record {
    id = text "ubuntu";
    priority = 55;
    can_handle = λ s mount.
        ok (os.exists s (join_text_path mount (text "casper/ubuntu-server-minimal.squashfs")));
    extract_boot_info = ubuntu_extract_boot_info os;
    generate_boot_params = ubuntu_boot_params;
    grub_template = none;
  }
