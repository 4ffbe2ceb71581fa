-- ===== src/Service/Status.antt =====
-- lib.rs: `status`. A distribution is kept as the value that the report formats.
use nixos_router_module.Base.{List, Option, [], length, none, some, ℕ, ◌++◌, ◌+◌, ◌∷◌}
use nixos_router_module.Actions.{Action, ◌>>=◌}
use nixos_router_module.Config.{Autoinstall, BootInfo, DistroType, placeholder, scripts_of}
use nixos_router_module.Distro.Detector.{DistroDetector, detect}
use nixos_router_module.Errors.{Result, err, error_text, ok}
use nixos_router_module.Paths.{FilePath, file_name}
use nixos_router_module.Service.Collaborators.{PxeBootService}
use nixos_router_module.Service.Entries.{scripts_or_none}
use nixos_router_module.Text.{Text, text}

pub data DistroLabel : Type 0 where
  -- the `{:?}` of a distribution
  debug : DistroType → DistroLabel
  detector_id : Text → DistroLabel

pub record IsoStatus : Type 0 where
  pub file_name : Text
  pub distro : Option DistroLabel
  pub menu_entries : ℕ
  pub error : Option Text

abbrev pub failed_status : Text → Option DistroLabel → Text → IsoStatus
failed_status name distro message = record {
  file_name = name;
  distro = distro;
  menu_entries = 0;
  error = some message;
}

abbrev pub script_count : Autoinstall → Text → ℕ
script_count autoinstall name = length (scripts_or_none (scripts_of autoinstall name))

module _ {S : Type 0} (service : PxeBootService S) where
  open service use {settings, detector_registry, collaborators}

  pub extracted_status : Text → DistroDetector S → Result BootInfo → IsoStatus
  extracted_status name detector (ok boot) = record {
    file_name = name;
    distro = some (debug boot.distro_type);
    menu_entries = 1 + script_count settings.autoinstall name;
    error = none;
  }
  extracted_status name detector (err e) =
      failed_status name (some (detector_id detector.id))
        (text "detected but failed to extract boot info: " ++ error_text e)

  unfoldable pub detected_status : Text → FilePath → FilePath → S → IsoStatus
  unfolding extracted_status
  detected_status name iso_path mount_path s = elim (detect detector_registry s mount_path) [
    | err e ↦ failed_status name none (text "failed to detect distribution: " ++ error_text e)
    | ok detector ↦
        extracted_status name detector
          (detector.extract_boot_info s (placeholder name iso_path mount_path))
  ]

  -- The report on one image, with the machine after its mount.
  pub iso_status : Text → FilePath → S → IsoStatus × S
  unfolding detected_status
  iso_status name iso_path s =
      let (r, t) = collaborators.mount iso_path s in
      elim r [
        | err e ↦ (failed_status name none (text "failed to mount: " ++ error_text e), t)
        | ok mount_path ↦ (detected_status name iso_path mount_path t, t)
      ]

  -- The loop over the images; a path with no file name is passed over.
  pub status_loop : List FilePath → S → List IsoStatus × S
  unfolding iso_status
  status_loop [] s = ([], s)
  status_loop (iso_path ∷ rest) s = elim (file_name iso_path) [
    | none ↦ status_loop rest s
    | some name ↦
        let (first, t) = iso_status name iso_path s in
        let (later, u) = status_loop rest t in (first ∷ later, u)
  ]

  pub status : Action S (List IsoStatus)
  unfolding status_loop
  status = do
    iso_paths ← collaborators.discover
    λ s. let (report, t) = status_loop iso_paths s in (ok report, t)
