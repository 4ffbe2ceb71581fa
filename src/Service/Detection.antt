-- ===== src/Service/Detection.antt =====
-- lib.rs: the third step of `prepare`, which detects the distributions of mounted images.
use nixos_router_module.Base.{List, Option, [], none, some, ◌∷◌}
use nixos_router_module.Config.{DistroType, apply_boot_info, placeholder}
use nixos_router_module.Distro.Detector.{DistroDetector, detect}
use nixos_router_module.Errors.{Result, err, error_text, ok, ◌>>=◌}
use nixos_router_module.Paths.{FilePath, file_name}
use nixos_router_module.Service.Entries.{Bootable}
use nixos_router_module.Text.{Text}

-- The images that can be booted, and the names of those that cannot with the reasons.
pub record Detected (S : Type 0) : Type 0 where
  pub iso_infos : List (Bootable S)
  pub failed_isos : List (Text × Text)

module _ {S : Type 0} where
  -- Detection and boot information for one mounted image.
  unfoldable pub boot_of :
      List (DistroDetector S) → S → Text → FilePath → FilePath → Result (Bootable S)
  boot_of registry s name iso_path mount_path = do
    detector ← detect registry s mount_path
    boot ← detector.extract_boot_info s (placeholder name iso_path mount_path)
    ok (apply_boot_info (placeholder name iso_path mount_path) boot, boot, detector)

  abbrev pub add_detected : Text → Result (Bootable S) → Detected S → Detected S
  add_detected name (ok b) d = record d { iso_infos = b ∷ d.iso_infos }
  add_detected name (err e) d = record d { failed_isos = (name, error_text e) ∷ d.failed_isos }

  -- A path that has no file name is passed over.
  abbrev pub add_named : (Text → Result (Bootable S)) → Option Text → Detected S → Detected S
  add_named boot none d = d
  add_named boot (some name) d = add_detected name (boot name) d

  unfoldable pub detect_all : List (DistroDetector S) → S → List (FilePath × FilePath) → Detected S
  unfolding boot_of
  detect_all registry s [] = record { iso_infos = []; failed_isos = [] }
  detect_all registry s ((iso_path, mount_path) ∷ rest) =
      add_named (λ name. boot_of registry s name iso_path mount_path) (file_name iso_path)
        (detect_all registry s rest)

  -- The map from file names to distributions: of two entries for a name the last one counts.
  abbrev pub distro_by_iso : List (Text × DistroType) → List (Bootable S) → List (Text × DistroType)
  distro_by_iso known [] = known
  distro_by_iso known ((iso, _, _) ∷ rest) =
      distro_by_iso ((iso.file_name, iso.distro_type) ∷ known) rest
