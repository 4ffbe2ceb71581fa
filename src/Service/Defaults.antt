-- ===== src/Service/Defaults.antt =====
-- lib.rs: which entry of a menu a configured default stands for.
use nixos_router_module.Base.{
  Bool, List, Option, [], if◌then◌else◌, list_eq, nat_eq, none, not, option_eq, some, true, ℕ, ◌&&◌,
  ◌==◌, ◌∷◌,
}
use nixos_router_module.Config.{DhcpInterface, MenuEntry, ReservationOverride}
use nixos_router_module.Text.{Text}

-- A menu entry with the names of its image and of its script.
abbrev pub NamedEntry : Type 0
NamedEntry = MenuEntry × Text × Option Text

-- `default_script.map(|s| s.is_empty()).unwrap_or(true)`
abbrev pub script_is_empty : Option Text → Bool
script_is_empty none = true
script_is_empty (some s) = s == []

abbrev pub script_matches : Option Text → Option Text → Bool
script_matches default_script script =
    if script_is_empty default_script then script == none else script == default_script

unfoldable pub find_position : List NamedEntry → Text → Option Text → Option ℕ
find_position [] default_iso default_script = none
find_position ((entry, iso_name, script_name) ∷ rest) default_iso default_script =
    let later = find_position rest default_iso default_script in
    if iso_name == default_iso && script_matches default_script script_name
    then some entry.position
    else later

unfoldable pub resolve_default_position : List NamedEntry → Option Text → Option Text → Option ℕ
unfolding find_position
resolve_default_position entries none default_script = none
resolve_default_position entries (some default_iso) default_script =
    find_position entries default_iso default_script

-- `Option::or`
abbrev pub or_else : Option Text → Option Text → Option Text
or_else none b = b
or_else (some a) b = some a

-- A reservation with neither field has no override.
abbrev pub has_override : ReservationOverride → Bool
has_override r = not (r.default_iso == none && r.default_script == none)

abbrev pub effective_iso : DhcpInterface → ReservationOverride → Option Text
effective_iso i r = or_else r.default_iso i.default_iso

abbrev pub effective_script : DhcpInterface → ReservationOverride → Option Text
effective_script i r = or_else r.default_script i.default_script
