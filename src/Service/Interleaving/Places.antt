-- ===== src/Service/Interleaving/Places.antt =====
-- lib.rs: the places to which the menu tasks of a configuration write.
use nixos_router_module.Base.{
  All, Bool-cases, Distinct, List, [], ap, inl, inr, map, refl, suc, sym, zero, ℕ, ◌∙◌, ◌∷◌, ◌≡◌,
  ◌≢◌,
}
use nixos_router_module.Config.{DhcpInterface, PxeBootConfig, ReservationOverride}
use nixos_router_module.Errors.{Result}
use nixos_router_module.Grub.Menu.{Handlebars}
use nixos_router_module.Iso.ServeTree.{drop_last}
use nixos_router_module.Iso.TreeDirs.{drop_last-append}
use nixos_router_module.Os.{Os}
use nixos_router_module.Paths.{FilePath, join_text_path, normal}
use nixos_router_module.Paths.Names.{IsName, join_text_path_name}
use nixos_router_module.Service.Defaults.{NamedEntry, has_override}
use nixos_router_module.Service.Entries.{Bootable}
use nixos_router_module.Service.Files.{
  Distinct-map, HasPlainMac, grub_cfg-IsName, main_apart, override_name-IsName,
  override_path-injective,
}
use nixos_router_module.Service.Interleaving.{steps_at}
use nixos_router_module.Service.Interleaving.Apart.{AllApart, AllApart-nil, Apart, SelfApart}
use nixos_router_module.Service.Menu.{grub_dir, interface_entries, override_name}
use nixos_router_module.Service.Render.{render_grub_cfg}
use nixos_router_module.Service.Tasks.{MenuStep, make_dir, menu_steps, override_steps, write_menu}
use nixos_router_module.Service.Written.{StoresFiles, override_path, override_text}
use nixos_router_module.Text.{Text, text, to_lowercase}

-- A step writes, if it does, to a name in a directory.
abbrev IsWithin : FilePath → MenuStep → Type 0
IsWithin dir (make_dir p) = Unit
IsWithin dir (write_menu p rendered) = (name : Text) × IsName name × (p ≡ join_text_path dir name)

Apart-of_IsWithin :
    (d e : FilePath) (x y : MenuStep) → d ≢ e → IsWithin d x → IsWithin e y → Apart x y
Apart-of_IsWithin d e (make_dir p) y ne h g = tt
Apart-of_IsWithin d e (write_menu p a) (make_dir q) ne h g = tt
Apart-of_IsWithin d e (write_menu p a) (write_menu q b) ne (n, h, k) (l, g, j) = λ same. ne (
    sym (drop_last-append d (normal n))
    ∙ (ap drop_last
          (sym (join_text_path_name d n h) ∙ (sym k ∙ (same ∙ (j ∙ join_text_path_name e l g))))
        ∙ drop_last-append e (normal l)))

AllApart-of_IsWithin :
    (d e : FilePath) (xs ys : List MenuStep)
    → d ≢ e
    → All (IsWithin d) xs
    → All (IsWithin e) ys
    → AllApart xs ys
AllApart-of_IsWithin d e [] ys ne h g = tt
AllApart-of_IsWithin d e (x ∷ xs) ys ne (a, h) g = (row ys g, AllApart-of_IsWithin d e xs ys ne h g)
  where
    row : (zs : List MenuStep) → All (IsWithin e) zs → All (Apart x) zs
    row [] k = tt
    row (z ∷ zs) (b, k) = (Apart-of_IsWithin d e x z ne a b, row zs k)

-- The addresses of an interface's reservations differ and have no separator.
abbrev pub HasPlainMacs : DhcpInterface → Type 0
HasPlainMacs i =
    All HasPlainMac i.reservations
    × Distinct (map (λ (r : ReservationOverride). to_lowercase r.mac) i.reservations)

module _ (os : Os) (hb : Handlebars) (stores : StoresFiles os) (c : PxeBootConfig)
    (infos : List (Bootable os.State)) (failed : List (Text × Text)) where
  module _ (i : DhcpInterface) where
    abbrev entries : List NamedEntry
    entries = interface_entries os hb c i infos

    override_steps-IsWithin :
        (rs : List ReservationOverride)
        → All HasPlainMac rs
        → All (IsWithin (grub_dir c i)) (override_steps os hb c i entries failed rs)
    unfolding override_steps
    override_steps-IsWithin [] h = tt
    override_steps-IsWithin (r ∷ rs) (a, h) = elim (Bool-cases (has_override r)) [
      | inl has ↦
          rw has (
            (override_name r.mac, override_name-IsName r.mac a, refl),
            override_steps-IsWithin rs h,
          )
      | inr none' ↦ rw none' (override_steps-IsWithin rs h)
    ]

    menu_steps-IsWithin :
        HasPlainMacs i → All (IsWithin (grub_dir c i)) (menu_steps os hb c i infos failed)
    unfolding menu_steps
    menu_steps-IsWithin (plain, apart) = (
      tt,
      ((text "grub.cfg", grub_cfg-IsName, refl), override_steps-IsWithin i.reservations plain),
    )

    override_steps-Apart :
        (p : FilePath) (rendered : Result Text) (rs : List ReservationOverride)
        → All (λ r. override_path os hb stores c entries failed i r ≢ p) rs
        → All (Apart (write_menu p rendered)) (override_steps os hb c i entries failed rs)
    unfolding override_steps
    override_steps-Apart p rendered [] h = tt
    override_steps-Apart p rendered (r ∷ rs) (a, h) = elim (Bool-cases (has_override r)) [
      | inl has ↦ rw has ((λ same. a (sym same)), override_steps-Apart p rendered rs h)
      | inr none' ↦ rw none' (override_steps-Apart p rendered rs h)
    ]

    All-map-ne :
        (p : FilePath) (rs : List ReservationOverride)
        → All (λ q. p ≢ q) (map (override_path os hb stores c entries failed i) rs)
        → All (λ r. override_path os hb stores c entries failed i r ≢ p) rs
    All-map-ne p [] h = tt
    All-map-ne p (r ∷ rs) (a, h) = ((λ e. a (sym e)), All-map-ne p rs h)

    override_steps-SelfApart :
        (rs : List ReservationOverride)
        → Distinct (map (override_path os hb stores c entries failed i) rs)
        → SelfApart (override_steps os hb c i entries failed rs)
    unfolding override_steps
    override_steps-SelfApart [] h = tt
    override_steps-SelfApart (r ∷ rs) (fresh, h) = elim (Bool-cases (has_override r)) [
      | inl has ↦ rw has (
        override_steps-Apart (override_path os hb stores c entries failed i r)
            (override_text os hb stores c entries failed i r) rs (All-map-ne _ rs fresh),
        override_steps-SelfApart rs h,
      )
      | inr none' ↦ rw none' (override_steps-SelfApart rs h)
    ]

    abbrev overrides : List MenuStep
    overrides = override_steps os hb c i entries failed i.reservations

    abbrev main_path : FilePath
    main_path = join_text_path (grub_dir c i) (text "grub.cfg")

    abbrev main_text : Result Text
    main_text = render_grub_cfg hb entries failed i.default_iso i.default_script

    menu_steps-SelfApart : HasPlainMacs i → SelfApart (menu_steps os hb c i infos failed)
    unfolding menu_steps
    menu_steps-SelfApart (plain, apart) = (
      make_dir-Apart (write_menu main_path main_text ∷ overrides),
      (
        override_steps-Apart main_path main_text i.reservations
            (main_apart os hb stores c entries failed i i.reservations plain),
        override_steps-SelfApart i.reservations (
            Distinct-map HasPlainMac (override_path os hb stores c entries failed i)
              (λ r. to_lowercase r.mac) i.reservations
              (override_path-injective os hb stores c entries failed i) plain apart),
      ),
    )
      where
        make_dir-Apart : (ys : List MenuStep) → All (Apart (make_dir (grub_dir c i))) ys
        make_dir-Apart [] = tt
        make_dir-Apart (y ∷ ys) = (tt, make_dir-Apart ys)

  abbrev pub steps_of : DhcpInterface → List MenuStep
  steps_of i = menu_steps os hb c i infos failed

  pub plans-SelfApart :
      (is : List DhcpInterface) (k : ℕ)
      → All HasPlainMacs is
      → SelfApart (steps_at (map steps_of is) k)
  plans-SelfApart [] k h = tt
  plans-SelfApart (i ∷ is) zero (a, h) = menu_steps-SelfApart i a
  plans-SelfApart (i ∷ is) (suc k) (a, h) = plans-SelfApart is k h

  -- The task of one interface against that of a later one.
  later-AllApart :
      (i : DhcpInterface) (is : List DhcpInterface) (k : ℕ)
      → HasPlainMacs i
      → All HasPlainMacs is
      → All (λ p. grub_dir c i ≢ p) (map (grub_dir c) is)
      → AllApart (steps_of i) (steps_at (map steps_of is) k)
        × AllApart (steps_at (map steps_of is) k) (steps_of i)
  later-AllApart i [] k a h fresh = (AllApart-nil (steps_of i), tt)
  later-AllApart i (j ∷ is) zero a (b, h) (ne, fresh) = (
    AllApart-of_IsWithin (grub_dir c i) (grub_dir c j) (steps_of i) (steps_of j) ne
        (menu_steps-IsWithin i a) (menu_steps-IsWithin j b),
    AllApart-of_IsWithin (grub_dir c j) (grub_dir c i) (steps_of j) (steps_of i) (λ e. ne (sym e))
        (menu_steps-IsWithin j b) (menu_steps-IsWithin i a),
  )
  later-AllApart i (j ∷ is) (suc k) a (b, h) (ne, fresh) = later-AllApart i is k a h fresh

  pub plans-AllApart :
      (is : List DhcpInterface) (j k : ℕ)
      → All HasPlainMacs is
      → Distinct (map (grub_dir c) is)
      → j ≢ k
      → AllApart (steps_at (map steps_of is) j) (steps_at (map steps_of is) k)
  plans-AllApart [] j k h apart ne = tt
  plans-AllApart (i ∷ is) zero zero h apart ne = absurd (ne refl)
  plans-AllApart (i ∷ is) zero (suc k) (a, h) (fresh, apart) ne =
      (later-AllApart i is k a h fresh).0
  plans-AllApart (i ∷ is) (suc j) zero (a, h) (fresh, apart) ne =
      (later-AllApart i is j a h fresh).1
  plans-AllApart (i ∷ is) (suc j) (suc k) (a, h) (fresh, apart) ne =
      plans-AllApart is j k h apart (λ e. ne (ap suc e))
