-- ===== src/Service/Finished.antt =====
-- lib.rs: the menus that stand in the files when `prepare` has ended.
use nixos_router_module.Base.{
  All, All-imply, Bool, List, ap, get_elem?, inl, inr, some, subst, sym, true, ℕ, ◌∙◌, ◌∷◌, ◌≡◌,
}
use nixos_router_module.Actions.{◌>>=◌}
use nixos_router_module.Autoinstall.Seeds.{CopiesFiles}
use nixos_router_module.Config.{DhcpInterface}
use nixos_router_module.Config.Validation.{validate}
use nixos_router_module.Errors.{Result, is_ok, ok}
use nixos_router_module.Grub.Menu.{Handlebars}
use nixos_router_module.Os.{Os}
use nixos_router_module.Paths.{FilePath}
use nixos_router_module.Service.Collaborators.{PxeBootService}
use nixos_router_module.Service.Entries.{Bootable}
use nixos_router_module.Service.Interleaving.Menus.{generate_all-HasMenus}
use nixos_router_module.Service.Interleaving.Outcome.{HasMenus}
use nixos_router_module.Service.Interleaving.Places.{HasPlainMacs}
use nixos_router_module.Service.Prepare.{
  acquire_prepare_lock, detected_isos, generate_all, lock_path, prepare, prepare_discovered,
  prepare_isos, prepare_locked, run_locked,
}
use nixos_router_module.Service.Written.{Holds, StoresFiles}
use nixos_router_module.Text.{Text}

-- Dropping the handle of a lock changes no file.
pub record ReleaseKeepsFiles (os : Os) (lock : FilePath) : Type 0 where
  pub release_keeps :
      (s : os.State) (p : FilePath)
      → os.read_to_string (os.release lock s) p ≡ os.read_to_string s p

module _ (os : Os) (hb : Handlebars) (service : PxeBootService os.State) where
  abbrev lock : FilePath
  lock = lock_path service.settings.runtime_root

  -- A run that takes the lock and finds images.
  prepare_lem :
      (p : FilePath) (rest : List FilePath) (s t u : os.State)
      → acquire_prepare_lock os hb service s ≡ (ok tt, t)
      → service.collaborators.discover t ≡ (ok (p ∷ rest), u)
      → prepare os hb service s ≡ (ok tt, os.release lock (prepare_isos os hb service (p ∷ rest) u))
  unfolding prepare prepare_locked prepare_discovered
  prepare_lem p rest s t u locked found =
      ap (run_locked os hb service) locked
      ∙ ap (λ r. let (done, v) = after r in (done, os.release lock v)) found
    where
      after : Result (List FilePath) × os.State → Result (Unit {0}) × os.State
      after r = ◌>>=◌ (λ v. r) (prepare_discovered os hb service) t

  module _ (stores : StoresFiles os) (keeps : ReleaseKeepsFiles os lock) where
    Holds-release :
        (s : os.State) (p : FilePath) (rendered : Result Text)
        → Holds os hb stores s p rendered
        → Holds os hb stores (os.release lock s) p rendered
    Holds-release s p rendered (contents, e, read) = (contents, e, keeps.release_keeps s p ∙ read)

    -- The menus stay when the lock is dropped.
    HasMenus-release :
        (infos : List (Bootable os.State)) (failed : List (Text × Text)) (s : os.State)
        (i : DhcpInterface)
        → HasMenus os hb stores service.settings infos failed s i
        → HasMenus os hb stores service.settings infos failed (os.release lock s) i
    HasMenus-release infos failed s i (main, overrides) = (
      Holds-release s _ _ main,
      All-imply _ _ i.reservations
          (λ r h. elim h [ inl none' ↦ inl none' | inr held ↦ inr (Holds-release s _ _ held) ])
          overrides,
    )

-- A run of `prepare` that takes the lock and finds images succeeds, and when it has ended the files
-- of every interface whose menu could be written hold its menu and those of its reservations, for
-- the images that were detected and those that were not. Neither the menus written later nor
-- dropping the lock disturbs them. The configuration passes `validate`, files and the lock behave as
-- `CopiesFiles`, `StoresFiles` and `ReleaseKeepsFiles` say, and in each interface the addresses of
-- the reservations differ, in lower case, and have no separator.
pub prepare-HasMenus :
    (os : Os) (hb : Handlebars) (copies : CopiesFiles os) (stores : StoresFiles os)
    (exists : FilePath → Bool) (service : PxeBootService os.State)
    (keeps : ReleaseKeepsFiles os (lock_path service.settings.runtime_root)) (p : FilePath)
    (rest : List FilePath) (s t u : os.State) (k : ℕ) (i : DhcpInterface)
    → is_ok (validate exists service.settings) ≡ true
    → All HasPlainMacs service.settings.dhcp_interfaces
    → acquire_prepare_lock os hb service s ≡ (ok tt, t)
    → service.collaborators.discover t ≡ (ok (p ∷ rest), u)
    → let (d, v) = detected_isos os hb service (p ∷ rest) u in
      let interfaces = service.settings.dhcp_interfaces in
      let ended = prepare os hb service s in
      get_elem? interfaces k ≡ some i
      → get_elem? (generate_all os hb service interfaces d.iso_infos d.failed_isos v).0 k
        ≡ some (ok tt)
      → (ended.0 ≡ ok tt)
        × HasMenus os hb stores service.settings d.iso_infos d.failed_isos ended.1 i
unfolding prepare_isos
prepare-HasMenus os hb copies stores exists service keeps p rest s t u k i valid plain locked found
      at written =
    let (d, v) = detected_isos os hb service (p ∷ rest) u in
    let ended = prepare_lem os hb service p rest s t u locked found in
    (
      ap (λ r. r.0) ended,
      subst (λ r. HasMenus os hb stores service.settings d.iso_infos d.failed_isos r.1 i)
          (sym ended)
          (HasMenus-release os hb service stores keeps d.iso_infos d.failed_isos _ i (
            generate_all-HasMenus os hb copies stores exists service d.iso_infos d.failed_isos v k i
              valid plain at written)),
    )
