-- ===== src/Service/Render.antt =====
-- lib.rs: the text that `write_grub_cfg` writes.
use nixos_router_module.Base.{List, Option, [], none, some, ℕ, ◌∷◌}
use nixos_router_module.Errors.{Result, ◌>>=◌}
use nixos_router_module.Grub.Menu.{
  GrubMenuBuilder, Handlebars, add_entry, add_placeholder_entry, build, new_builder, set_default,
}
use nixos_router_module.Paths.{file_name}
use nixos_router_module.Service.Defaults.{NamedEntry, resolve_default_position}
use nixos_router_module.Text.{Text}

-- The builder that `write_grub_cfg` fills.
abbrev pub add_entries : GrubMenuBuilder → List NamedEntry → GrubMenuBuilder
add_entries b [] = b
add_entries b ((entry, _, _) ∷ rest) = add_entries (add_entry b entry) rest

abbrev pub add_placeholders : GrubMenuBuilder → List (Text × Text) → GrubMenuBuilder
add_placeholders b [] = b
add_placeholders b ((file_name, reason) ∷ rest) =
    add_placeholders (add_placeholder_entry b file_name reason) rest

abbrev pub set_default_if : GrubMenuBuilder → Option ℕ → GrubMenuBuilder
set_default_if b none = b
set_default_if b (some position) = set_default b position

-- The text that `write_grub_cfg` writes.
unfoldable pub render_grub_cfg :
    Handlebars → List NamedEntry → List (Text × Text) → Option Text → Option Text → Result Text
unfolding add_entry add_placeholder_entry set_default
render_grub_cfg hb entries failed default_iso default_script = do
  builder ← new_builder hb
  build hb (
      add_placeholders
        (set_default_if (add_entries builder entries)
          (resolve_default_position entries default_iso default_script))
        failed)
