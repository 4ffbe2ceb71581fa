-- ===== src/Service/Files.antt =====
-- lib.rs: the files of one interface after `generate_grub_menu` has succeeded.
use nixos_router_module.Base.{
  All, Bool, Distinct, List, [], false, inl, inr, map, refl, true, ◌∙◌, ◌∷◌, ◌≡◌, ◌≢◌, ◌⊎◌,
}
use nixos_router_module.Actions.{>>-eq-ok, attempt, ◌>>◌}
use nixos_router_module.Config.{DhcpInterface, PxeBootConfig, ReservationOverride}
use nixos_router_module.Errors.{grub_write, ok}
use nixos_router_module.Grub.Menu.{Handlebars}
use nixos_router_module.Os.{Os}
use nixos_router_module.Paths.{join_text_path}
use nixos_router_module.Paths.Names.{IsName, IsName-of_is_name, file_name-join_text_path}
use nixos_router_module.Service.Defaults.{NamedEntry, effective_iso, effective_script, has_override}
use nixos_router_module.Service.Entries.{Bootable}
use nixos_router_module.Service.Menu.{
  generate_grub_menu, grub_dir, interface_entries, override_name, write_grub_cfg, write_overrides,
}
use nixos_router_module.Service.Render.{render_grub_cfg}
use nixos_router_module.Service.Written.{
  Holds, StoresFiles, override_path, write_grub_cfg-Holds, write_overrides-Holds,
  write_overrides_keeps,
}
use nixos_router_module.Text.{Text, text, to_lowercase}
use nixos_router_module.Text.Replace.{lacks, lacks-append}

-- The address of a reservation has no separator.
abbrev pub HasPlainMac : ReservationOverride → Type 0
HasPlainMac r = lacks b'/' (to_lowercase r.mac) ≡ true

pub override_name-IsName :
    (mac : Text) → lacks b'/' (to_lowercase mac) ≡ true → IsName (override_name mac)
override_name-IsName mac h = record {
  no_slash = lacks-append b'/' (text "grub.cfg-override-") (to_lowercase mac) refl h;
  nonempty = λ k. cc;
  not_dot = λ k. cc;
  not_dots = λ k. cc;
}

pub grub_cfg-IsName : IsName (text "grub.cfg")
grub_cfg-IsName = IsName-of_is_name (text "grub.cfg") refl

pub Distinct-map {ℓ} :
    {A : Type 0} {B : Type ℓ} {C : Type 0} (P : A → Type 0) (f : A → C) (g : A → B) (xs : List A)
    → ((x y : A) → P x → P y → f x ≡ f y → g x ≡ g y)
    → All P xs
    → Distinct (map g xs)
    → Distinct (map f xs)
Distinct-map P f g [] inj h d = tt
Distinct-map P f g (x ∷ xs) inj (a, h) (fresh, d) = (go xs h fresh, Distinct-map P f g xs inj h d)
  where
    go : (ys : List _) → All P ys → All (λ b. g x ≢ b) (map g ys) → All (λ c. f x ≢ c) (map f ys)
    go [] k n = tt
    go (y ∷ ys) (b, k) (ne, n) = ((λ e. ne (inj x y a b e)), go ys k n)

pub override_path-injective :
    (os : Os) (hb : Handlebars) (stores : StoresFiles os) (c : PxeBootConfig)
    (entries : List NamedEntry) (failed : List (Text × Text)) (i : DhcpInterface)
    (x y : ReservationOverride)
    → HasPlainMac x
    → HasPlainMac y
    → override_path os hb stores c entries failed i x
      ≡ override_path os hb stores c entries failed i y
    → to_lowercase x.mac ≡ to_lowercase y.mac
override_path-injective os hb stores c entries failed i x y h k same = cc (
  same,
  file_name-join_text_path (grub_dir c i) (override_name x.mac) (override_name-IsName x.mac h),
  file_name-join_text_path (grub_dir c i) (override_name y.mac) (override_name-IsName y.mac k),
)

pub main_apart :
    (os : Os) (hb : Handlebars) (stores : StoresFiles os) (c : PxeBootConfig)
    (entries : List NamedEntry) (failed : List (Text × Text)) (i : DhcpInterface)
    (rs : List ReservationOverride)
    → All HasPlainMac rs
    → All
        (λ r.
          override_path os hb stores c entries failed i r
          ≢ join_text_path (grub_dir c i) (text "grub.cfg"))
        rs
main_apart os hb stores c entries failed i [] h = tt
main_apart os hb stores c entries failed i (r ∷ rs) (a, h) = (
  (λ same. cc (
    same,
    file_name-join_text_path (grub_dir c i) (override_name r.mac) (override_name-IsName r.mac a),
    file_name-join_text_path (grub_dir c i) (text "grub.cfg") grub_cfg-IsName,
  )),
  main_apart os hb stores c entries failed i rs h,
)

either {κ} :
    {A : Type 0} (b : A → Bool) (P : A → Type κ) (xs : List A)
    → All (λ x. b x ≡ true → P x) xs
    → All (λ x. (b x ≡ false) ⊎ P x) xs
either b P [] h = tt
either b P (x ∷ xs) (a, h) = (go (b x) refl, either b P xs h)
  where
    go : (c : Bool) → b x ≡ c → (b x ≡ false) ⊎ P x
    go true e = inr (a e)
    go false e = inl e

-- When `generate_grub_menu` succeeds for an interface, its `grub.cfg` holds the menu with the
-- default of the interface, and each reservation has no override, or its file holds the menu with
-- the default of the reservation, whose missing half is that of the interface. Files behave as
-- `StoresFiles` says, and the addresses of the reservations differ, in lower case, and have no
-- separator.
pub generate_grub_menu-Holds :
    (os : Os) (hb : Handlebars) (stores : StoresFiles os) (c : PxeBootConfig) (i : DhcpInterface)
    (infos : List (Bootable os.State)) (failed : List (Text × Text)) (s t : os.State)
    → All HasPlainMac i.reservations
    → Distinct (map (λ (r : ReservationOverride). to_lowercase r.mac) i.reservations)
    → generate_grub_menu os hb c i infos failed s ≡ (ok tt, t)
    → let entries = interface_entries os hb c i infos in
      Holds os hb stores t
        (join_text_path (grub_dir c i) (text "grub.cfg"))
        (render_grub_cfg hb entries failed i.default_iso i.default_script)
      × All
          (λ r.
            (has_override r ≡ false)
            ⊎ Holds os hb stores t
                (join_text_path (grub_dir c i) (override_name r.mac))
                (render_grub_cfg hb entries failed (effective_iso i r) (effective_script i r)))
          i.reservations
unfolding generate_grub_menu
generate_grub_menu-Holds os hb stores c i infos failed s t plain apart done =
    let entries : List NamedEntry = interface_entries os hb c i infos in
    let main = join_text_path (grub_dir c i) (text "grub.cfg") in
    let write_main = write_grub_cfg os hb c main entries failed i.default_iso i.default_script in
    let write_rest = write_overrides os hb c i entries failed i.reservations in
    let make_dir = attempt (grub_write (grub_dir c i)) (os.create_dir_all (grub_dir c i)) in
    let (u, made, later) = >>-eq-ok make_dir (write_main >> write_rest) s t done in
    let (v, first, rest) = >>-eq-ok write_main write_rest u t later in
    let (contents, rendered, held) =
      write_grub_cfg-Holds os hb stores c entries failed main i.default_iso i.default_script u v
        first in
    (
      (
        contents,
        rendered,
        write_overrides_keeps os hb stores c entries failed i i.reservations main v t
              (main_apart os hb stores c entries failed i i.reservations plain) rest
            ∙ held,
      ),
      either has_override _ i.reservations (
          write_overrides-Holds os hb stores c entries failed i i.reservations v t
            (Distinct-map HasPlainMac (override_path os hb stores c entries failed i)
              (λ r. to_lowercase r.mac) i.reservations
              (override_path-injective os hb stores c entries failed i) plain apart)
            rest),
    )
