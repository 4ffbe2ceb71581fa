-- ===== src/Service/Written.antt =====
-- lib.rs: what stands in the files after `generate_grub_menu`.
use nixos_router_module.Base.{
  All, Bool-cases, Distinct, List, Option, [], ap, if◌then◌else◌, inl, inr, map, refl, subst, sym,
  true, ◌∙◌, ◌∷◌, ◌≡◌, ◌≢◌,
}
use nixos_router_module.Actions.{>>-eq-ok, Action, attempt, pure}
use nixos_router_module.Config.{DhcpInterface, PxeBootConfig, ReservationOverride}
use nixos_router_module.Errors.{Result, StdResult-cases, grub_write, is_ok, is_ok_of_map_err, ok}
use nixos_router_module.Grub.Menu.{Handlebars}
use nixos_router_module.Os.{Os}
use nixos_router_module.Paths.{FilePath, join_text_path}
use nixos_router_module.Service.Defaults.{NamedEntry, effective_iso, effective_script, has_override}
use nixos_router_module.Service.Menu.{grub_dir, override_name, write_grub_cfg, write_overrides}
use nixos_router_module.Service.Render.{render_grub_cfg}
use nixos_router_module.Text.{Text}

-- How the system keeps files, where different paths are different files: a write that succeeds is
-- read back, and a write changes no other file.
pub record StoresFiles (os : Os) : Type 0 where
  pub read_written :
      (p : FilePath) (contents : Text) (s : os.State)
      → is_ok (os.write p contents s).0 ≡ true
      → os.read_to_string (os.write p contents s).1 p ≡ ok contents
  pub write_keeps :
      (p q : FilePath) (contents : Text) (s : os.State)
      → p ≢ q
      → os.read_to_string (os.write p contents s).1 q ≡ os.read_to_string s q

All-map-ne :
    {A : Type 0} (p : FilePath) (f : A → FilePath) (xs : List A)
    → All (λ q. p ≢ q) (map f xs)
    → All (λ x. f x ≢ p) xs
All-map-ne p f [] h = tt
All-map-ne p f (x ∷ xs) (a, h) = ((λ e. a (sym e)), All-map-ne p f xs h)

module _ (os : Os) (hb : Handlebars) (stores : StoresFiles os) where
  -- A file holds the text that was rendered.
  abbrev pub Holds : os.State → FilePath → Result Text → Type 0
  Holds s p rendered =
      (contents : Text) × (rendered ≡ ok contents) × (os.read_to_string s p ≡ ok contents)

  module _ (c : PxeBootConfig) (entries : List NamedEntry) (failed : List (Text × Text)) where
    pub write_grub_cfg-Holds :
        (p : FilePath) (iso script : Option Text) (s t : os.State)
        → write_grub_cfg os hb c p entries failed iso script s ≡ (ok tt, t)
        → Holds t p (render_grub_cfg hb entries failed iso script)
    unfolding write_grub_cfg
    write_grub_cfg-Holds p iso script s t h =
        elim (StdResult-cases (render_grub_cfg hb entries failed iso script)) [
          | inl (e, k) ↦ let g = rw (k, write_grub_cfg) at h in cc
          | inr (contents, k) ↦
              let g : ◌≡◌ {A = Result (Unit {0}) × os.State}
                  (attempt (grub_write p) (os.write p contents) s) (ok tt, t) =
                rw (k, write_grub_cfg) at h in
              (
                contents,
                k,
                subst (λ u. os.read_to_string u p ≡ ok contents) (ap (λ m. m.1) g)
                    (stores.read_written p contents s
                      (is_ok_of_map_err (grub_write p) _ tt (ap (λ m. m.0) g))),
              )
        ]

    write_grub_cfg_keeps :
        (p q : FilePath) (iso script : Option Text) (s : os.State)
        → p ≢ q
        → os.read_to_string (write_grub_cfg os hb c p entries failed iso script s).1 q
          ≡ os.read_to_string s q
    unfolding write_grub_cfg
    write_grub_cfg_keeps p q iso script s h =
        elim (StdResult-cases (render_grub_cfg hb entries failed iso script)) [
          | inl (e, k) ↦ rw (k, write_grub_cfg) refl
          | inr (contents, k) ↦ rw (k, write_grub_cfg) (stores.write_keeps p q contents s h)
        ]

    module _ (i : DhcpInterface) where
      abbrev pub override_path : ReservationOverride → FilePath
      override_path r = join_text_path (grub_dir c i) (override_name r.mac)

      -- The text for one reservation.
      abbrev pub override_text : ReservationOverride → Result Text
      override_text r = render_grub_cfg hb entries failed (effective_iso i r) (effective_script i r)

      abbrev write_override : ReservationOverride → Action os.State (Unit {0})
      write_override r =
          if has_override r
          then write_grub_cfg os hb c (override_path r) entries failed (effective_iso i r)
              (effective_script i r)
          else pure tt

      write_override_keeps :
          (r : ReservationOverride) (q : FilePath) (s : os.State)
          → override_path r ≢ q
          → os.read_to_string (write_override r s).1 q ≡ os.read_to_string s q
      write_override_keeps r q s h = elim (Bool-cases (has_override r)) [
        | inl yes' ↦ rw yes' (write_grub_cfg_keeps (override_path r) q _ _ s h)
        | inr no' ↦ rw no' refl
      ]

      pub write_overrides_keeps :
          (rs : List ReservationOverride) (q : FilePath) (s t : os.State)
          → All (λ r. override_path r ≢ q) rs
          → write_overrides os hb c i entries failed rs s ≡ (ok tt, t)
          → os.read_to_string t q ≡ os.read_to_string s q
      unfolding write_overrides
      write_overrides_keeps [] q s t h done = ap (λ m. os.read_to_string m.1 q) (sym done)
      write_overrides_keeps (r ∷ rest) q s t (a, h) done =
          let (u, first, later) =
            >>-eq-ok (write_override r) (write_overrides os hb c i entries failed rest) s t done in
          write_overrides_keeps rest q u t h later
          ∙ (ap (λ m. os.read_to_string m.1 q) (sym first) ∙ write_override_keeps r q s a)

      pub write_overrides-Holds :
          (rs : List ReservationOverride) (s t : os.State)
          → Distinct (map override_path rs)
          → write_overrides os hb c i entries failed rs s ≡ (ok tt, t)
          → All (λ r. has_override r ≡ true → Holds t (override_path r) (override_text r)) rs
      unfolding write_overrides
      write_overrides-Holds [] s t apart done = tt
      write_overrides-Holds (r ∷ rest) s t (fresh, apart) done =
          let (u, first, later) =
            >>-eq-ok (write_override r) (write_overrides os hb c i entries failed rest) s t done in
          (
            (λ has.
                let (contents, rendered, held) =
                  write_grub_cfg-Holds (override_path r) _ _ s u (rw has at first) in
                (
                  contents,
                  rendered,
                  write_overrides_keeps rest (override_path r) u t
                        (All-map-ne (override_path r) override_path rest fresh) later
                      ∙ held,
                )),
            write_overrides-Holds rest u t apart later,
          )
