-- ===== src/Service/Warnings.antt =====
-- lib.rs: the warnings on defaults that match nothing that was found.
use nixos_router_module.Base.{
  Bool, List, Option, [], any, contains, false, flat_map, if◌then◌else◌, list_eq, nat_eq, none,
  some, ◌++◌, ◌==◌, ◌∷◌,
}
use nixos_router_module.Config.{
  Autoinstall, AutoinstallScript, DhcpInterface, ReservationOverride, scripts_of,
}
use nixos_router_module.Service.Defaults.{effective_iso, effective_script, has_override}
use nixos_router_module.Text.{Text, decimal, text}

abbrev pub unknown_iso_warning : Text → Text → Text
unknown_iso_warning label iso =
    label
    ++ (text ": default_iso '"
        ++ (iso ++ text "' does not match any discovered ISO -- it will have no effect."))

abbrev pub unknown_script_warning : Text → Text → Text → Text
unknown_script_warning label script iso =
    label
    ++ (text ": default_script '"
        ++ (script
            ++ (text "' does not match any autoinstall script for ISO '"
                ++ (iso ++ text "' -- it will have no effect."))))

abbrev pub script_known : Option (List AutoinstallScript) → Text → Bool
script_known none script = false
script_known (some scripts) script = any (λ s. s.name == script) scripts

abbrev pub script_warnings : Text → Text → Option Text → Autoinstall → List Text
script_warnings label iso none autoinstall = []
script_warnings label iso (some script) autoinstall =
    if script == []
    then []
    else if script_known (scripts_of autoinstall iso) script
    then []
    else unknown_script_warning label script iso ∷ []

-- What `push_default_pair_warnings` adds.
unfoldable pub default_pair_warnings :
    Text → Option Text → Option Text → List Text → Autoinstall → List Text
default_pair_warnings label none default_script discovered autoinstall = []
default_pair_warnings label (some iso) default_script discovered autoinstall =
    if contains discovered iso
    then script_warnings label iso default_script autoinstall
    else unknown_iso_warning label iso ∷ []

abbrev pub interface_label : DhcpInterface → Text
interface_label i = text "Interface " ++ (i.name ++ (text " (ID: " ++ (decimal i.id ++ text ")")))

abbrev pub reservation_label : DhcpInterface → ReservationOverride → Text
reservation_label i r = interface_label i ++ (text ", reservation " ++ r.mac)

module _ (discovered : List Text) (autoinstall : Autoinstall) where
  pub reservation_warnings : DhcpInterface → List ReservationOverride → List Text
  unfolding default_pair_warnings
  reservation_warnings i [] = []
  reservation_warnings i (r ∷ rest) =
      (if has_override r
        then default_pair_warnings (reservation_label i r) (effective_iso i r)
            (effective_script i r) discovered autoinstall
        else [])
      ++ reservation_warnings i rest

  abbrev pub interface_warnings : DhcpInterface → List Text
  interface_warnings i =
      default_pair_warnings (interface_label i) i.default_iso i.default_script discovered
        autoinstall
      ++ reservation_warnings i i.reservations

  pub check_default_entry_warnings : List DhcpInterface → List Text
  unfolding reservation_warnings
  check_default_entry_warnings interfaces = flat_map interface_warnings interfaces
