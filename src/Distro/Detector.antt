-- ===== src/Distro/Detector.antt =====
-- distro/detector.rs: the trait as a record of its methods, and the registry.
use nixos_router_module.Base.{Bool, List, Option, [], if◌then◌else◌, ltb, ℕ, ◌++◌, ◌∷◌}
use nixos_router_module.Config.{AutoinstallScript, BootInfo, IsoInfo}
use nixos_router_module.Errors.{PxeBootError, Result, detection_failed, err, ok, ◌>>=◌}
use nixos_router_module.Paths.{FilePath, display_path}
use nixos_router_module.Text.{Text, text}

abbrev pub autoinstall_url_placeholder : Text
autoinstall_url_placeholder = text "{autoinstall_url}"

abbrev pub autoinstall_dir_url_placeholder : Text
autoinstall_dir_url_placeholder = text "{autoinstall_dir_url}"

-- `DistroDetector`, over the states of the machine
pub record DistroDetector (S : Type 0) : Type 0 where
  pub id : Text
  pub priority : ℕ
  pub can_handle : S → FilePath → Result Bool
  pub extract_boot_info : S → IsoInfo → Result BootInfo
  -- the URL of the image, that of its mount, and the script
  pub generate_boot_params : Text → Text → BootInfo → Option AutoinstallScript → List Text
  pub grub_template : Option Text

abbrev pub no_detector : FilePath → PxeBootError
no_detector mount_path = detection_failed (display_path mount_path) (text "No detector matched")

module _ {S : Type 0} where
  -- The stable sort by descending priority.
  unfoldable pub insert_by_priority :
      DistroDetector S → List (DistroDetector S) → List (DistroDetector S)
  insert_by_priority d [] = d ∷ []
  insert_by_priority d (e ∷ rest) =
      let later = insert_by_priority d rest in
      if ltb d.priority e.priority then e ∷ later else d ∷ e ∷ rest

  unfoldable pub sort_by_priority : List (DistroDetector S) → List (DistroDetector S)
  unfolding insert_by_priority
  sort_by_priority [] = []
  sort_by_priority (d ∷ rest) = insert_by_priority d (sort_by_priority rest)

  unfoldable pub register : List (DistroDetector S) → DistroDetector S → List (DistroDetector S)
  unfolding sort_by_priority
  register detectors d = sort_by_priority (detectors ++ d ∷ [])

  unfoldable pub detect : List (DistroDetector S) → S → FilePath → Result (DistroDetector S)
  detect [] s mount_path = err (no_detector mount_path)
  detect (d ∷ rest) s mount_path =
      let later = detect rest s mount_path in
      do handles ← d.can_handle s mount_path; if handles then ok d else later
