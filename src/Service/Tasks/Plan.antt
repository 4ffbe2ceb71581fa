-- ===== src/Service/Tasks/Plan.antt =====
-- lib.rs: the steps of a menu task against `generate_grub_menu`.
use nixos_router_module.Base.{Bool-cases, List, [], ap, inl, inr, refl, ◌∙◌, ◌∷◌, ◌≡◌}
use nixos_router_module.Actions.{Action, ◌>>◌}
use nixos_router_module.Config.{DhcpInterface, PxeBootConfig, ReservationOverride}
use nixos_router_module.Errors.{Result, StdResult-cases, err, ok}
use nixos_router_module.Grub.Menu.{Handlebars}
use nixos_router_module.Os.{Os}
use nixos_router_module.Paths.{FilePath, join_text_path}
use nixos_router_module.Service.Defaults.{NamedEntry, has_override}
use nixos_router_module.Service.Entries.{Bootable}
use nixos_router_module.Service.Menu.{
  generate_grub_menu, grub_dir, interface_entries, write_grub_cfg, write_overrides,
}
use nixos_router_module.Service.Render.{render_grub_cfg}
use nixos_router_module.Service.Tasks.{
  make_dir, menu_steps, override_steps, perform, perform_all, write_menu,
}
use nixos_router_module.Text.{Text, text}

-- Two chains agree if their steps do, whatever the first leaves.
bind_ext :
    {S : Type 0} (p q : Result (Unit {0}) × S) (k l : Action S (Unit {0})) (s : S)
    → p ≡ q
    → ((t : S) → k t ≡ l t)
    → ◌>>◌ (λ t. p) k s ≡ ◌>>◌ (λ t. q) l s
bind_ext p (ok a, t) k l s e h = ap (λ r. ◌>>◌ (λ v. r) k s) e ∙ h t
bind_ext p (err x, t) k l s e h = ap (λ r. ◌>>◌ (λ v. r) k s) e

module _ (os : Os) (hb : Handlebars) (c : PxeBootConfig) where
  perform-write_menu :
      (path : FilePath) (entries : List NamedEntry) (failed : List (Text × Text)) (iso script : _)
      (s : os.State)
      → perform os (write_menu path (render_grub_cfg hb entries failed iso script)) s
        ≡ write_grub_cfg os hb c path entries failed iso script s
  unfolding write_grub_cfg
  perform-write_menu path entries failed iso script s =
      elim (StdResult-cases (render_grub_cfg hb entries failed iso script)) [
        | inl (e, k) ↦ unfold perform in rw (k, write_grub_cfg) refl
        | inr (contents, k) ↦ unfold perform in rw (k, write_grub_cfg) refl
      ]

  perform_all-override_steps :
      (i : DhcpInterface) (entries : List NamedEntry) (failed : List (Text × Text))
      (rs : List ReservationOverride) (s : os.State)
      → perform_all os (override_steps os hb c i entries failed rs) s
        ≡ write_overrides os hb c i entries failed rs s
  unfolding perform_all override_steps write_overrides
  perform_all-override_steps i entries failed [] s = refl
  perform_all-override_steps i entries failed (r ∷ rest) s = elim (Bool-cases (has_override r)) [
    | inl has ↦ rw has (
        bind_ext _ _ _ _ s (perform-write_menu _ entries failed _ _ s)
          (perform_all-override_steps i entries failed rest))
    | inr none' ↦ rw none' (perform_all-override_steps i entries failed rest s)
  ]

  -- The steps of a menu task, performed one after the other, are `generate_grub_menu`: the same
  -- result, the first error included, and the same machine.
  pub perform_all-menu_steps :
      (i : DhcpInterface) (infos : List (Bootable os.State)) (failed : List (Text × Text))
      (s : os.State)
      → perform_all os (menu_steps os hb c i infos failed) s
        ≡ generate_grub_menu os hb c i infos failed s
  unfolding perform_all menu_steps generate_grub_menu perform
  perform_all-menu_steps i infos failed s =
      let entries : List NamedEntry = interface_entries os hb c i infos in
      bind_ext (perform os (make_dir (grub_dir c i)) s) (perform os (make_dir (grub_dir c i)) s) _ _
        s refl
        (λ t.
          bind_ext _ _ _ _ t
            (perform-write_menu (join_text_path (grub_dir c i) (text "grub.cfg")) entries failed
              i.default_iso i.default_script t)
            (perform_all-override_steps i entries failed i.reservations))
