-- ===== src/Grub/Rendered.antt =====
-- grub/menu.rs: what GRUB reads of a rendered entry.
use nixos_router_module.Base.{
  Bool, true, List, Option, [], false, if◌then◌else◌, list_eq, nat_eq, none, some, suc, zero, ℕ,
  ◌++◌, ◌==◌, ◌∷◌, ◌≡◌,
}
use nixos_router_module.Config.{MenuEntry}
use nixos_router_module.Distro.Arch.{to_grub_cpu}
use nixos_router_module.Errors.{ok}
use nixos_router_module.Grub.Escape.{read_quoted}
use nixos_router_module.Grub.Menu.{Handlebars, menuentry_template}
use nixos_router_module.Text.{Text, join_text, starts_with, strip_prefix, text}

abbrev field_value : List (Text × Text) → Text → Text
field_value [] name = []
field_value ((key, value) ∷ rest) name = if key == name then value else field_value rest name

-- A template with raw fields `{{{name}}}` filled in, as the template engine documents it: a value is
-- put in as it is, and a field that is missing is empty. With `none` text is copied, with a name a
-- field is read; the number counts braces that are still to be dropped.
pub fill : List (Text × Text) → Option Text → ℕ → Text → Text
fill fields mode k [] = []
fill fields mode (suc k) (c ∷ s) = fill fields mode k s
fill fields none zero (c ∷ s) =
    let field = fill fields (some []) 2 s in
    let plain = c ∷ fill fields none zero s in
    if starts_with (c ∷ s) (text "{{{") then field else plain
fill fields (some name) zero (c ∷ s) =
    let filled = field_value fields name ++ fill fields none 2 s in
    let longer = fill fields (some (name ++ c ∷ [])) zero s in
    if starts_with (c ∷ s) (text "}}}") then filled else longer

-- The engine fills in the template of an entry.
pub record RendersRaw (hb : Handlebars) : Type 0 where
  pub render_raw :
      (fields : List (Text × Text))
      → hb.render menuentry_template fields ≡ ok (fill fields none 0 menuentry_template)

-- What follows the title of an entry.
pub entry_body : MenuEntry → Text
entry_body e =
    text " {\n    set gfxpayload=keep\n    linux  "
    ++ (e.kernel_url
        ++ (text " "
            ++ (join_text (text " ") e.kernel_params
                ++ (text "\n    initrd " ++ (e.initrd_url ++ text "\n}")))))

-- Whether an entry is shown on a machine with that `$grub_cpu`: if GRUB has no name for its
-- architecture, or that name.
unfoldable pub shown_on : Text → Option Text → Bool
shown_on cpu none = true
shown_on cpu (some architecture) = elim (to_grub_cpu architecture) [
  | none ↦ true
  | some name ↦ name == cpu
]

-- What a reader sees of an entry: whether its condition holds, its title, and the text behind it.
pub record SeenEntry : Type 0 where
  pub shown : Bool
  pub title : Text
  pub behind : Text

after_quoted : Bool → Option (Text × Text) → Option SeenEntry
after_quoted shown none = none
after_quoted shown (some (title, behind)) =
    some (record { shown = shown; title = title; behind = behind })

-- The entry itself: the word, a quoted title, and the rest.
read_menuentry : Bool → Text → Option SeenEntry
unfolding after_quoted
read_menuentry shown s = elim (strip_prefix s (text "menuentry \"")) [
  | none ↦ none
  | some quoted ↦ after_quoted shown (read_quoted false quoted)
]

after_test : Text → Option (Text × Text) → Option SeenEntry
unfolding read_menuentry
after_test cpu none = none
after_test cpu (some (name, then_part)) = elim (strip_prefix then_part (text " ]; then\n")) [
  | none ↦ none
  | some entry ↦ read_menuentry (name == cpu) entry
]

-- An entry that may stand in a test of `$grub_cpu` against a quoted name.
pub read_entry : Text → Text → Option SeenEntry
unfolding after_test
read_entry cpu s = elim (strip_prefix s (text "if [ \"$grub_cpu\" = \"")) [
  | none ↦ read_menuentry true s
  | some test ↦ after_test cpu (read_quoted false test)
]

-- The end of the test, where there is one.
pub closing : Option Text → Text
closing none = []
closing (some architecture) = elim (to_grub_cpu architecture) [
  | none ↦ []
  | some name ↦ text "\nfi\n"
]

-- The names that GRUB has for architectures are read whole.
abbrev NameIsRead : Text → Type 0
NameIsRead name = (rest : Text) → read_quoted false (name ++ b'"' ∷ rest) ≡ some (name, rest)
