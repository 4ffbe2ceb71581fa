-- ===== src/Service/Entries.antt =====
-- lib.rs: the loop of `generate_grub_menu` that builds the entries of a menu.
use nixos_router_module.Base.{List, Option, [], none, some, ℕ, ◌++◌, ◌+◌, ◌∷◌}
use nixos_router_module.Config.{Autoinstall, AutoinstallScript, BootInfo, IsoInfo, scripts_of}
use nixos_router_module.Distro.Detector.{DistroDetector}
use nixos_router_module.Errors.{err, ok}
use nixos_router_module.Grub.Entry.{MenuEntryFactory, create_entry}
use nixos_router_module.Service.Defaults.{NamedEntry}

abbrev pub scripts_or_none : Option (List AutoinstallScript) → List AutoinstallScript
scripts_or_none none = []
scripts_or_none (some scripts) = scripts

-- An image that can be booted: what is known of it, and the detector that took it.
abbrev pub Bootable : Type 0 → Type 0
Bootable S = IsoInfo × BootInfo × DistroDetector S

module _ {S : Type 0} (factory : MenuEntryFactory) where
  -- The loop over the scripts of an image; an entry that cannot be made is left out.
  unfoldable pub script_entries : Bootable S → List AutoinstallScript → ℕ → List NamedEntry × ℕ
  script_entries b [] position = ([], position)
  script_entries (iso, boot, detector) (script ∷ rest) position =
      elim (create_entry factory iso boot detector (some script) position) [
        | err e ↦ script_entries (iso, boot, detector) rest position
        | ok entry ↦
            let (later, end) = script_entries (iso, boot, detector) rest (position + 1) in
            ((entry, iso.file_name, some script.name) ∷ later, end)
      ]

  -- The entries of one image: the base entry, and one for each script if that could be made.
  unfoldable pub iso_entries : Autoinstall → Bootable S → ℕ → List NamedEntry × ℕ
  unfolding script_entries
  iso_entries autoinstall (iso, boot, detector) position =
      elim (create_entry factory iso boot detector none position) [
        | err e ↦ ([], position)
        | ok entry ↦
            let (scripted, end) =
              script_entries (iso, boot, detector)
                (scripts_or_none (scripts_of autoinstall iso.file_name)) (position + 1) in
            ((entry, iso.file_name, none) ∷ scripted, end)
      ]

  unfoldable pub menu_entries : Autoinstall → List (Bootable S) → ℕ → List NamedEntry
  unfolding iso_entries
  menu_entries autoinstall [] position = []
  menu_entries autoinstall (b ∷ rest) position =
      let (first, end) = iso_entries autoinstall b position in
      first ++ menu_entries autoinstall rest end
