-- ===== src/Grub/Menu.antt =====
-- grub/menu.rs: the text of a `grub.cfg`. The template engine is a parameter.
use nixos_router_module.Base.{
  List, Option, [], if◌then◌else◌, list_eq, map, nat_eq, none, some, ℕ, ◌++◌, ◌==◌, ◌||◌, ◌∷◌,
}
use nixos_router_module.Config.{MenuEntry}
use nixos_router_module.Distro.Arch.{to_grub_cpu}
use nixos_router_module.Errors.{Result, StdResult, config, map_err, ok, template, ◌>>=◌, ◌>>◌}
use nixos_router_module.Paths.{file_name}
use nixos_router_module.Text.{Text, decimal, join_text, replace_byte, text}

-- `Handlebars`: a template is checked when it is registered, and rendered over named fields.
-- An error is given by its message.
pub record Handlebars : Type 0 where
  pub register_template_string : Text → StdResult Text (Unit {0})
  pub render : Text → List (Text × Text) → StdResult Text Text

pub record GrubMenuBuilder : Type 0 where
  pub entries : List MenuEntry
  pub placeholders : List (Text × Text)
  pub default_entry : Option ℕ
  pub timeout : Option ℕ

abbrev pub menuentry_template : Text
menuentry_template =
    text
      "menuentry \"{{{title}}}\" {\n    set gfxpayload=keep\n    linux  {{{kernel_url}}} {{{kernel_params}}}\n    initrd {{{initrd_url}}}\n}"

unfoldable pub new_builder : Handlebars → Result GrubMenuBuilder
new_builder hb = do
  map_err (λ e. config (text "Failed to register GRUB menuentry template: " ++ e))
      (hb.register_template_string menuentry_template)
  ok (record { entries = []; placeholders = []; default_entry = none; timeout = none })

unfoldable pub add_entry : GrubMenuBuilder → MenuEntry → GrubMenuBuilder
add_entry b entry = record b { entries = b.entries ++ entry ∷ [] }

unfoldable pub add_placeholder_entry : GrubMenuBuilder → Text → Text → GrubMenuBuilder
add_placeholder_entry b file_name reason = record b {
  placeholders = b.placeholders ++ (file_name, reason) ∷ [];
}

unfoldable pub set_default : GrubMenuBuilder → ℕ → GrubMenuBuilder
set_default b index = record b { default_entry = some index; timeout = some 5 }

pub set_timeout : GrubMenuBuilder → ℕ → GrubMenuBuilder
set_timeout b seconds = record b { timeout = some seconds }

abbrev pub blank_newline : ℕ → ℕ
blank_newline c = if c == b'\n' || c == b'\r' then b' ' else c

unfoldable pub escape_grub_string : Text → Text
escape_grub_string s =
    map blank_newline (replace_byte (replace_byte s b'\\' (text "\\\\")) b'"' (text "\\\""))

pub render_placeholder : Text → Text → Text
unfolding escape_grub_string
render_placeholder file_name reason =
    text "menuentry \""
    ++ (escape_grub_string (file_name ++ text " (unsupported)")
        ++ (text
              "\" {\n    echo \"\"\n    echo \"This ISO could not be prepared for PXE boot:\"\n    echo \"  "
            ++ (escape_grub_string reason
                ++ text
                    "\"\n    echo \"\"\n    echo \"Press Enter to return to the menu...\"\n    read dummy\n    configfile /grub/grub.cfg\n}\n")))

abbrev pub entry_fields : MenuEntry → List (Text × Text)
entry_fields e =
    (text "title", escape_grub_string e.title)
    ∷ (text "kernel_url", e.kernel_url)
    ∷ (text "kernel_params", join_text (text " ") e.kernel_params)
    ∷ (text "initrd_url", e.initrd_url)
    ∷ []

abbrev pub grub_cpu_of : Option Text → Option Text
grub_cpu_of none = none
grub_cpu_of (some architecture) = to_grub_cpu architecture

-- The condition on `$grub_cpu`, round an entry whose architecture GRUB knows.
abbrev pub wrap_for_cpu : Option Text → Text → Text
wrap_for_cpu none rendered = rendered
wrap_for_cpu (some cpu) rendered =
    text "if [ \"$grub_cpu\" = \"" ++ (cpu ++ (text "\" ]; then\n" ++ (rendered ++ text "\nfi\n")))

unfoldable pub render_entry : Handlebars → MenuEntry → Result Text
unfolding escape_grub_string
render_entry hb e = do
  rendered ← map_err template (hb.render menuentry_template (entry_fields e))
  ok (wrap_for_cpu (grub_cpu_of e.architecture) rendered)

-- Up to the test for an override: modules and network.
abbrev pub preamble : Text
preamble =
    text
      "insmod http\ninsmod net\ninsmod efinet\n\n# Initialize network for HTTP access\nif net_bootp; then\n  echo Network initialized via BOOTP\nelse\n  echo Network already configured or BOOTP failed\nfi\n\n"

abbrev pub override_check : Text
override_check =
    text
      "if [ -f /grub/grub.cfg-override-${net_default_mac} ]; then\n  configfile /grub/grub.cfg-override-${net_default_mac}\nfi\n\n"

abbrev pub timeout_lines : Option ℕ → Text
timeout_lines none =
    text
      "if [ x$feature_timeout_style = xy ] ; then\n  # set timeout_style=menu\n  # set timeout=5\nelse\n  # set timeout=5\nfi\n\n"
timeout_lines (some n) =
    text "if [ x$feature_timeout_style = xy ] ; then\n  set timeout_style=menu\n  set timeout="
    ++ (decimal n ++ (text "\nelse\n  set timeout=" ++ (decimal n ++ text "\nfi\n\n")))

abbrev pub default_line : Option ℕ → Text
default_line none = text "# set default=\n\n"
default_line (some n) = text "set default=" ++ (decimal n ++ text "\n\n")

abbrev pub reload_entry : Text
reload_entry = text "menuentry \"Reload Grub\" {\n    configfile /grub/grub.cfg\n}\n"

-- The loop over the entries, from what is written already.
unfoldable pub render_entries : Handlebars → List MenuEntry → Result Text
unfolding render_entry
render_entries hb [] = ok []
render_entries hb (e ∷ rest) = do
  first ← render_entry hb e
  more ← render_entries hb rest
  ok (first ++ (text "\n" ++ more))

unfoldable pub render_placeholders : List (Text × Text) → Text
unfolding render_placeholder
render_placeholders [] = []
render_placeholders ((file_name, reason) ∷ rest) =
    render_placeholder file_name reason ++ (text "\n" ++ render_placeholders rest)

unfoldable pub build : Handlebars → GrubMenuBuilder → Result Text
unfolding render_entries render_placeholders
build hb b = do
  rendered ← render_entries hb b.entries
  ok (
      preamble
      ++ (override_check
          ++ (timeout_lines b.timeout
              ++ (default_line b.default_entry
                  ++ (rendered ++ (render_placeholders b.placeholders ++ reload_entry))))))
