-- ===== src/Service/Variants.antt =====
-- lib.rs, grub/menu.rs: the menus of an interface and of its reservations.
use nixos_router_module.Base.{
  List, Option, [], ap, append-nil, append_assoc, arith, inl, inr, map, none, refl, some, true, ℕ,
  ◌++◌, ◌∙◌, ◌∷◌, ◌≡◌, sym,
}
use nixos_router_module.Errors.{Result, StdResult-cases, is_ok, ok, ◌>>=◌}
use nixos_router_module.Grub.Menu.{
  GrubMenuBuilder, Handlebars, add_entry, add_placeholder_entry, build, default_line,
  menuentry_template, new_builder, override_check, preamble, reload_entry, render_entries,
  render_placeholders, set_default, timeout_lines,
}
use nixos_router_module.Grub.Header.{find_default, find_default-header}
use nixos_router_module.Service.Defaults.{NamedEntry, resolve_default_position}
use nixos_router_module.Service.Render.{
  add_entries, add_placeholders, render_grub_cfg, set_default_if,
}
use nixos_router_module.Text.{Text}

-- The timeout that goes with a default.
abbrev pub timeout_of : Option ℕ → Option ℕ
timeout_of none = none
timeout_of (some position) = some 5

-- The text of a menu whose entries and placeholders make up `body`.
abbrev pub menu_text : Option ℕ → Text → Text
menu_text position body =
    preamble
    ++ (override_check ++ (timeout_lines (timeout_of position) ++ (default_line position ++ body)))

add_entries-fields :
    (b : GrubMenuBuilder) (es : List NamedEntry)
    → add_entries b es ≡ record b { entries = b.entries ++ map (λ e. e.0) es }
unfolding add_entry
add_entries-fields b [] = rw append-nil refl
add_entries-fields b ((e, n, s) ∷ rest) =
    rw (add_entries-fields (add_entry b e) rest, append_assoc) refl

add_placeholders-fields :
    (b : GrubMenuBuilder) (ps : List (Text × Text))
    → add_placeholders b ps ≡ record b { placeholders = b.placeholders ++ ps }
unfolding add_placeholder_entry
add_placeholders-fields b [] = rw append-nil refl
add_placeholders-fields b ((n, r) ∷ rest) =
    rw (add_placeholders-fields (add_placeholder_entry b n r) rest, append_assoc) refl

-- Entries, placeholders and the entry that reads the menu again.
pub menu_body : Handlebars → List NamedEntry → List (Text × Text) → Result Text
unfolding render_entries render_placeholders
menu_body hb entries failed = do
  rendered ← render_entries hb (map (λ e. e.0) entries)
  ok (rendered ++ (render_placeholders failed ++ reload_entry))

empty_builder : GrubMenuBuilder
empty_builder = record { entries = []; placeholders = []; default_entry = none; timeout = none }

filled_builder : List NamedEntry → List (Text × Text) → Option ℕ → GrubMenuBuilder
filled_builder entries failed position = record {
  entries = map (λ e. e.0) entries;
  placeholders = failed;
  default_entry = position;
  timeout = timeout_of position;
}

set_default_if-filled :
    (entries : List NamedEntry) (failed : List (Text × Text)) (position : Option ℕ)
    → add_placeholders (set_default_if (add_entries empty_builder entries) position) failed
      ≡ filled_builder entries failed position
unfolding set_default empty_builder filled_builder
set_default_if-filled entries failed none =
    add_placeholders-fields _ failed
    ∙ ap (λ (b : GrubMenuBuilder). record b { placeholders = b.placeholders ++ failed })
        (add_entries-fields empty_builder entries)
set_default_if-filled entries failed (some n) =
    add_placeholders-fields _ failed
    ∙ ap
        (λ (b : GrubMenuBuilder). record (set_default b n) {
          placeholders = b.placeholders ++ failed;
        })
        (add_entries-fields empty_builder entries)

new_builder-ok :
    (hb : Handlebars) → is_ok (new_builder hb) ≡ true → new_builder hb ≡ ok empty_builder
unfolding new_builder empty_builder
new_builder-ok hb h = elim (StdResult-cases (hb.register_template_string menuentry_template)) [
  | inl (e, k) ↦ absurd (ground arith)
  | inr (a, k) ↦ rw k refl
]

build-filled :
    (hb : Handlebars) (entries : List NamedEntry) (failed : List (Text × Text))
    (position : Option ℕ)
    → build hb (filled_builder entries failed position)
      ≡ (menu_body hb entries failed >>= λ body. ok (menu_text position body))
unfolding build menu_body filled_builder
build-filled hb entries failed position =
    elim (StdResult-cases (render_entries hb (map (λ e. e.0) entries))) [
      | inl (e, k) ↦ rw k refl
      | inr (a, k) ↦ rw k refl
    ]

-- A menu is its body behind a header that goes by the position of its default.
render_grub_cfg-menu_body :
    (hb : Handlebars) (entries : List NamedEntry) (failed : List (Text × Text))
    (default_iso default_script : Option Text)
    → is_ok (new_builder hb) ≡ true
    → render_grub_cfg hb entries failed default_iso default_script ≡ (
        menu_body hb entries failed >>= λ body.
        ok (menu_text (resolve_default_position entries default_iso default_script) body))
unfolding render_grub_cfg
render_grub_cfg-menu_body hb entries failed default_iso default_script registered =
    rw (new_builder-ok hb registered, render_grub_cfg)
      (ap (build hb) (set_default_if-filled entries failed _) ∙ build-filled hb entries failed _)

render_grub_cfg-registered :
    (hb : Handlebars) (entries : List NamedEntry) (failed : List (Text × Text))
    (default_iso default_script : Option Text) (menu : Text)
    → render_grub_cfg hb entries failed default_iso default_script ≡ ok menu
    → is_ok (new_builder hb) ≡ true
unfolding render_grub_cfg
render_grub_cfg-registered hb entries failed default_iso default_script menu h =
    elim (StdResult-cases (new_builder hb)) [
      | inl (e, k) ↦ let g = rw (k, render_grub_cfg) at h in cc
      | inr (b, k) ↦ ap is_ok k
    ]

render_grub_cfg-parts :
    (hb : Handlebars) (entries : List NamedEntry) (failed : List (Text × Text))
    (default_iso default_script : Option Text) (menu : Text)
    → render_grub_cfg hb entries failed default_iso default_script ≡ ok menu
    → (body : Text) × (menu_body hb entries failed ≡ ok body)
      × (menu ≡ menu_text (resolve_default_position entries default_iso default_script) body)
render_grub_cfg-parts hb entries failed default_iso default_script menu h =
    let parts =
      sym (
        render_grub_cfg-menu_body hb entries failed default_iso default_script
          (render_grub_cfg-registered hb entries failed default_iso default_script menu h))
      ∙ h in
    elim (StdResult-cases (menu_body hb entries failed)) [
      | inl (e, k) ↦ let g = rw k at parts in cc
      | inr (body, k) ↦ let g = rw k at parts in (body, k, cc)
    ]

-- Of two menus with the same entries and placeholders, such as that of an interface and that of a
-- reservation, the line that sets the default sets in each the position of its own default, or is
-- only a comment if that has no entry, and what follows the line is the same text in both.
pub find_default-render_grub_cfg :
    (hb : Handlebars) (entries : List NamedEntry) (failed : List (Text × Text))
    (iso script iso' script' : Option Text) (menu menu' : Text)
    → render_grub_cfg hb entries failed iso script ≡ ok menu
    → render_grub_cfg hb entries failed iso' script' ≡ ok menu'
    → (rest : Text) × (find_default true menu
        ≡ some (resolve_default_position entries iso script, rest))
      × (find_default true menu' ≡ some (resolve_default_position entries iso' script', rest))
find_default-render_grub_cfg hb entries failed iso script iso' script' menu menu' h k =
    let (body, e, at) = render_grub_cfg-parts hb entries failed iso script menu h in
    let (body', e', at') = render_grub_cfg-parts hb entries failed iso' script' menu' k in
    let same : body' ≡ body = cc (e, e') in
    (
      10 ∷ body,
      ap (find_default true) at ∙ find_default-header _ _ body,
      ap (find_default true) at'
          ∙ (find_default-header _ _ body'
              ∙ ap (λ b. some (resolve_default_position entries iso' script', 10 ∷ b)) same),
    )
