-- ===== src/Distro/NixOs.antt =====
-- distro/nixos.rs. `serde_json::from_str` at the document type is a parameter: it gives the
-- fields of a bootspec, or the message of its error.
use nixos_router_module.Base.{List, Option, [], if◌then◌else◌, none, not, some, ◌++◌, ◌∷◌}
use nixos_router_module.Config.{AutoinstallScript, BootInfo, IsoInfo, nix_os}
use nixos_router_module.Distro.Detector.{DistroDetector}
use nixos_router_module.Errors.{Result, StdResult, detection_failed, err, map_err, ok, ◌>>=◌}
use nixos_router_module.Os.{Os}
use nixos_router_module.Paths.{FilePath, display_path, join_text_path}
use nixos_router_module.Text.{Text, split_once, text, trim_start_matches}

pub record BootSpecV1 : Type 0 where
  pub init : Text
  pub initrd : Text
  pub kernel : Text
  pub system : Text

abbrev pub ParseBootSpec : Type 0
ParseBootSpec = Text → StdResult Text BootSpecV1

pub architecture_from_system : Text → Option Text
architecture_from_system system = elim (split_once b'-' system) [ none ↦ none | some p ↦ some p.0 ]

unfoldable pub resolve_on_iso : FilePath → Text → FilePath
resolve_on_iso mount store_path =
    join_text_path (join_text_path mount (text "boot")) (trim_start_matches b'/' store_path)

module _ (os : Os) (from_str : ParseBootSpec) where
  unfoldable pub read_bootspec : os.State → FilePath → Result BootSpecV1
  read_bootspec s mount =
      let path = join_text_path mount (text "boot.json") in
      do
        contents ←
            map_err
              (λ e. detection_failed (display_path mount) (
                text "boot.json not readable at "
                ++ (display_path path ++ (text ": " ++ e.message))))
              (os.read_to_string s path)
        map_err
            (λ e.
              detection_failed (display_path mount)
                (text "boot.json did not parse as bootspec v1: " ++ e))
            (from_str contents)

  -- The two checks, and the result.
  unfoldable pub checked_boot_info :
      os.State → FilePath → BootSpecV1 → FilePath → FilePath → Result BootInfo
  checked_boot_info s mount bootspec kernel initrd =
      if not (os.is_file s kernel)
      then err (
          detection_failed (display_path mount)
            (text "boot.json referenced kernel not found on ISO: " ++ display_path kernel))
      else if not (os.is_file s initrd)
      then err (
          detection_failed (display_path mount)
            (text "boot.json referenced initrd not found on ISO: " ++ display_path initrd))
      else ok (record {
        kernel_path = kernel;
        initrd_path = initrd;
        distro_type = nix_os;
        version = none;
        architecture = architecture_from_system bootspec.system;
        init_path = some bootspec.init;
      })

  unfoldable pub nixos_extract_boot_info : os.State → IsoInfo → Result BootInfo
  unfolding checked_boot_info
  nixos_extract_boot_info s iso = do
    bootspec ← read_bootspec s iso.mount_path
    checked_boot_info s iso.mount_path bootspec (resolve_on_iso iso.mount_path bootspec.kernel)
        (resolve_on_iso iso.mount_path bootspec.initrd)

abbrev pub init_param : Option Text → List Text
init_param none = []
init_param (some init) = (text "init=" ++ init) ∷ []

pub nixos_boot_params : Text → Text → BootInfo → Option AutoinstallScript → List Text
nixos_boot_params iso_url mounted_url boot autoinstall =
    ((text "findiso=" ++ iso_url)
      ∷ text "boot.shell_on_fail"
      ∷ text "nohibernate"
      ∷ text "loglevel=7"
      ∷ text "lsm=landlock,yama,bpf"
      ∷ text "console=ttyS0,115200"
      ∷ [])
    ++ init_param boot.init_path

module _ (os : Os) (from_str : ParseBootSpec) where
  abbrev pub nixos_detector : DistroDetector os.State
  nixos_detector = record {
    id = text "nixos";
    priority = 60;
    can_handle = λ s mount. ok (os.exists s (join_text_path mount (text "nix-store.squashfs")));
    extract_boot_info = nixos_extract_boot_info os from_str;
    generate_boot_params = nixos_boot_params;
    grub_template = none;
  }
