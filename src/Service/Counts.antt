-- ===== src/Service/Counts.antt =====
-- lib.rs: the number of menu entries that `status` reports against the menu that is generated.
use nixos_router_module.Base.{
  List, [], ap, arith, inl, inr, length, none, refl, some, subst, suc, sym, ℕ, ◌+◌, ◌∷◌, ◌≡◌,
}
use nixos_router_module.Config.{
  Autoinstall, AutoinstallScript, BootInfo, IsoInfo, apply_boot_info, placeholder, scripts_of,
}
use nixos_router_module.Distro.BootPaths.{BootsBelow, WalksBelow, extract_boot_info-BootsBelow}
use nixos_router_module.Distro.Detector.{DistroDetector, detect}
use nixos_router_module.Distro.NixOs.{ParseBootSpec}
use nixos_router_module.Distro.Unknown.{new_registry}
use nixos_router_module.Errors.{Result, StdResult-cases, err, ok}
use nixos_router_module.Grub.Entry.{MenuEntryFactory}
use nixos_router_module.Grub.Total.{create_entry_total}
use nixos_router_module.Os.{Os}
use nixos_router_module.Paths.{FilePath}
use nixos_router_module.Service.Collaborators.{PxeBootService}
use nixos_router_module.Service.Detection.{boot_of}
use nixos_router_module.Service.Entries.{Bootable, iso_entries, script_entries, scripts_or_none}
use nixos_router_module.Service.Status.{detected_status, script_count}
use nixos_router_module.Text.{Text}

module _ {S : Type 0} (f : MenuEntryFactory) where
  length-script_entries :
      (iso : IsoInfo) (boot : BootInfo) (d : DistroDetector S) (scripts : List AutoinstallScript)
      (n : ℕ)
      → BootsBelow iso.mount_path boot
      → length (script_entries f (iso, boot, d) scripts n).0 ≡ length scripts
  unfolding script_entries
  length-script_entries iso boot d [] n below = refl
  length-script_entries iso boot d (script ∷ rest) n below =
      let (e, h) = create_entry_total f iso boot d below (some script) n in
      rw (h, script_entries) (ap suc (length-script_entries iso boot d rest (n + 1) below))

  -- An image whose kernel and initrd lie below its mount has its base entry and one for each of
  -- its scripts.
  pub length-iso_entries :
      (a : Autoinstall) (iso : IsoInfo) (boot : BootInfo) (d : DistroDetector S) (n : ℕ)
      → BootsBelow iso.mount_path boot
      → length (iso_entries f a (iso, boot, d) n).0 ≡ 1 + script_count a iso.file_name
  unfolding iso_entries
  length-iso_entries a iso boot d n below =
      let (e, h) = create_entry_total f iso boot d below none n in
      rw (h, iso_entries)
        (omega (
          arith,
          length-script_entries iso boot d (scripts_or_none (scripts_of a iso.file_name)) (n + 1)
              below,
        ))

-- The entries of an image in a menu, none if it cannot be booted.
abbrev pub entry_count : {S : Type 0} → MenuEntryFactory → Autoinstall → ℕ → Result (Bootable S) → ℕ
entry_count f a n (ok b) = length (iso_entries f a b n).0
entry_count f a n (err e) = 0

module _ (os : Os) (from_str : ParseBootSpec) (laws : WalksBelow os) where
  -- With the built-in detectors, `status` reports for a mounted image exactly as many entries as
  -- the image has in the menu of any interface, 0 if it cannot be booted, if walks of a directory
  -- stay below it.
  pub menu_entries-detected_status :
      (service : PxeBootService os.State)
      → service.detector_registry ≡ new_registry os from_str
      → (name : Text) (iso_path mount_path : FilePath) (s : os.State) (f : MenuEntryFactory) (n : ℕ)
      → (detected_status service name iso_path mount_path s).menu_entries
        ≡ entry_count f service.settings.autoinstall n
            (boot_of service.detector_registry s name iso_path mount_path)
  unfolding detected_status boot_of placeholder apply_boot_info
  menu_entries-detected_status service built_in name iso_path mount_path s f n =
      elim (StdResult-cases (detect service.detector_registry s mount_path)) [
        | inl (e, h) ↦ rw (h, detected_status, boot_of)
        | inr (d, h) ↦
            elim (StdResult-cases (d.extract_boot_info s (placeholder name iso_path mount_path))) [
              | inl (e, k) ↦ rw (h, k, detected_status, boot_of)
              | inr (boot, k) ↦
                  rw (h, k, detected_status, boot_of)
                    (sym (
                      length-iso_entries f service.settings.autoinstall
                        (apply_boot_info (placeholder name iso_path mount_path) boot) boot d n
                        (extract_boot_info-BootsBelow os from_str s laws
                          (placeholder name iso_path mount_path) d boot
                          (subst (λ r. detect r s mount_path ≡ ok d) built_in h) k)))
            ]
      ]
