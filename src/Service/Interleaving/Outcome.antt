-- ===== src/Service/Interleaving/Outcome.antt =====
-- lib.rs: the files of an interface once its menu task has ended, whatever the other tasks do.
use nixos_router_module.Base.{
  All, Bool, Bool-cases, Distinct, List, [], ap, append-nil, false, get_elem?, inl, inr, map, none,
  refl, some, subst, suc, sym, true, zero, ℕ, ◌++◌, ◌∙◌, ◌∷◌, ◌≡◌, ◌⊎◌,
}
use nixos_router_module.Autoinstall.Seeds.{CopiesFiles}
use nixos_router_module.Config.{DhcpInterface, PxeBootConfig, ReservationOverride}
use nixos_router_module.Config.Validation.{validate}
use nixos_router_module.Errors.{is_ok}
use nixos_router_module.Grub.Menu.{Handlebars}
use nixos_router_module.Os.{Os}
use nixos_router_module.Paths.{FilePath, join_text_path}
use nixos_router_module.Service.Defaults.{effective_iso, effective_script, has_override}
use nixos_router_module.Service.Entries.{Bootable}
use nixos_router_module.Service.Interleaving.{Run, Running, menu_tasks, start, steps_at}
use nixos_router_module.Service.Interleaving.Apart.{AllApart-nil, Kept}
use nixos_router_module.Service.Interleaving.Invariant.{Inv, Run-Inv}
use nixos_router_module.Service.Interleaving.Places.{HasPlainMacs, plans-AllApart, plans-SelfApart}
use nixos_router_module.Service.Menu.{grub_dir, interface_entries, override_name}
use nixos_router_module.Service.Render.{render_grub_cfg}
use nixos_router_module.Service.Separate.{grub_dirs-Distinct}
use nixos_router_module.Service.Tasks.{MenuStep, menu_steps, override_steps}
use nixos_router_module.Service.Written.{Holds, StoresFiles}
use nixos_router_module.Text.{Text, text}

module _ (os : Os) (hb : Handlebars) (stores : StoresFiles os) (c : PxeBootConfig)
    (infos : List (Bootable os.State)) (failed : List (Text × Text)) where
  -- Every menu of an interface is in its file.
  abbrev pub HasMenus : os.State → DhcpInterface → Type 0
  HasMenus s i =
      let entries = interface_entries os hb c i infos in
      Holds os hb stores s (join_text_path (grub_dir c i) (text "grub.cfg"))
        (render_grub_cfg hb entries failed i.default_iso i.default_script)
      × All
          (λ r.
            (has_override r ≡ false)
            ⊎ Holds os hb stores s (join_text_path (grub_dir c i) (override_name r.mac))
                (render_grub_cfg hb entries failed (effective_iso i r) (effective_script i r)))
          i.reservations

  module _ (copies : CopiesFiles os) where
    overrides_written :
        (i : DhcpInterface) (s : os.State) (rs : List ReservationOverride)
        → let entries = interface_entries os hb c i infos in
          All (Kept os copies stores s) (override_steps os hb c i entries failed rs)
          → All
              (λ r.
                (has_override r ≡ false)
                ⊎ Holds os hb stores s
                    (join_text_path (grub_dir c i) (override_name r.mac))
                    (render_grub_cfg hb entries failed (effective_iso i r) (effective_script i r)))
              rs
    unfolding override_steps
    overrides_written i s [] h = tt
    overrides_written i s (r ∷ rs) h = elim (Bool-cases (has_override r)) [
      | inl has ↦ let (a, g) = rw has at h in (inr a, overrides_written i s rs g)
      | inr none' ↦ (inl none', overrides_written i s rs (rw none' at h))
    ]

    HasMenus-of_Kept :
        (i : DhcpInterface) (s : os.State)
        → All (Kept os copies stores s) (menu_steps os hb c i infos failed)
        → HasMenus s i
    unfolding menu_steps
    HasMenus-of_Kept i s (made, (main, rest)) = (main, overrides_written i s i.reservations rest)

    start-Inv :
        (s : os.State)
        → All HasPlainMacs c.dhcp_interfaces
        → Distinct (map (grub_dir c) c.dhcp_interfaces)
        → Inv os copies stores
            (steps_at (menu_tasks os hb c infos failed))
            (start (menu_tasks os hb c infos failed) s)
    start-Inv s plain apart = record {
      held = λ k. tt;
      left_self = λ k. plans-SelfApart os hb stores c infos failed c.dhcp_interfaces k plain;
      left_done = λ j k. AllApart-nil (steps_at (menu_tasks os hb c infos failed) j);
      left_left =
          λ j k ne. plans-AllApart os hb stores c infos failed c.dhcp_interfaces j k plain apart ne;
      complete = λ k whole. refl;
    }

steps_at-map :
    (f : DhcpInterface → List MenuStep) (is : List DhcpInterface) (k : ℕ) (i : DhcpInterface)
    → get_elem? is k ≡ some i
    → steps_at (map f is) k ≡ f i
steps_at-map f [] k i h = cc
steps_at-map f (j ∷ is) zero i h = cc
steps_at-map f (j ∷ is) (suc k) i h = steps_at-map f is k i h

-- The menu tasks of a configuration that passes `validate` run concurrently, in any order. At every
-- moment, the files of an interface whose task has ended with no error hold its menu and those of
-- its reservations, whatever the other tasks have done since. Files behave as `CopiesFiles` and
-- `StoresFiles` say, and in each interface the addresses of the reservations differ, in lower case,
-- and have no separator.
pub Run-HasMenus :
    (os : Os) (hb : Handlebars) (copies : CopiesFiles os) (stores : StoresFiles os)
    (exists : FilePath → Bool) (c : PxeBootConfig) (infos : List (Bootable os.State))
    (failed : List (Text × Text)) (s : os.State) (steps : ℕ) (m : Running os.State) (k : ℕ)
    (i : DhcpInterface)
    → is_ok (validate exists c) ≡ true
    → All HasPlainMacs c.dhcp_interfaces
    → Run os (start (menu_tasks os hb c infos failed) s) steps m
    → get_elem? c.dhcp_interfaces k ≡ some i
    → (m.tasks k).left ≡ []
    → (m.tasks k).failure ≡ none
    → HasMenus os hb stores c infos failed m.machine i
Run-HasMenus os hb copies stores exists c infos failed s steps m k i valid plain run at ended
      whole =
    let inv : Inv os copies stores (steps_at (menu_tasks os hb c infos failed)) m =
      Run-Inv os copies stores (steps_at (menu_tasks os hb c infos failed))
        (start-Inv os hb stores c infos failed copies s plain (grub_dirs-Distinct exists c valid))
        run in
    let done : (m.tasks k).done ≡ menu_steps os hb c i infos failed =
      sym (append-nil (m.tasks k).done)
      ∙ (ap (λ left. (m.tasks k).done ++ left) (sym ended)
          ∙ (inv.complete k whole ∙ steps_at-map _ c.dhcp_interfaces k i at)) in
    HasMenus-of_Kept os hb stores c infos failed copies i m.machine
      (subst (All (Kept os copies stores m.machine)) done (inv.held k))
