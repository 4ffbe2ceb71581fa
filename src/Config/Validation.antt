-- ===== src/Config/Validation.antt =====
-- config/validation.rs: `PxeBootConfig::validate`, over a test whether a path exists.
use nixos_router_module.Base.{
  Bool, List, Option, [], contains, false, list_eq, nat_eq, none, not, some, true, ℕ, ◌++◌, ◌∷◌,
}
use nixos_router_module.Config.{Autoinstall, AutoinstallScript, DhcpInterface, PxeBootConfig}
use nixos_router_module.Errors.{PxeBootError, Result, config, err, ok, ◌>>◌}
use nixos_router_module.Paths.{FilePath, display_path}
use nixos_router_module.Text.{Text, decimal, text}

abbrev pub missing_folder : FilePath → PxeBootError
missing_folder p = config (text "ISO folder does not exist: " ++ display_path p)

abbrev pub missing_tftp_root : FilePath → PxeBootError
missing_tftp_root p = config (text "TFTP root does not exist: " ++ display_path p)

abbrev pub missing_override : Text → FilePath → PxeBootError
missing_override name p = config (
    text "TFTP root override for interface '"
    ++ (name ++ (text "' does not exist: " ++ display_path p)))

abbrev pub missing_runtime_root : FilePath → PxeBootError
missing_runtime_root p = config (text "Runtime root does not exist: " ++ display_path p)

abbrev pub duplicate_id : ℕ → PxeBootError
duplicate_id n = config (text "Duplicate DHCP interface ID: " ++ decimal n)

abbrev pub missing_script : Text → FilePath → PxeBootError
missing_script iso p =
    config
      (text "Autoinstall script not found for ISO '" ++ (iso ++ (text "': " ++ display_path p)))

abbrev pub require : Bool → PxeBootError → Result (Unit {0})
require true e = ok tt
require false e = err e

module _ (exists : FilePath → Bool) where
  unfoldable pub validate_folders : List FilePath → Result (Unit {0})
  validate_folders [] = ok tt
  validate_folders (p ∷ rest) = do require (exists p) (missing_folder p); validate_folders rest

  abbrev pub override_exists : Option FilePath → Bool
  override_exists none = true
  override_exists (some p) = exists p

  abbrev pub path_or_empty : Option FilePath → FilePath
  path_or_empty none = []
  path_or_empty (some p) = p

  unfoldable pub validate_overrides : List DhcpInterface → Result (Unit {0})
  validate_overrides [] = ok tt
  validate_overrides (i ∷ rest) = do
    require (override_exists i.tftp_root) (missing_override i.name (path_or_empty i.tftp_root))
    validate_overrides rest

  unfoldable pub validate_scripts : Text → List AutoinstallScript → Result (Unit {0})
  validate_scripts iso [] = ok tt
  validate_scripts iso (script ∷ rest) = do
    require (exists script.script_path) (missing_script iso script.script_path)
    validate_scripts iso rest

  unfoldable pub validate_autoinstall : Autoinstall → Result (Unit {0})
  unfolding validate_scripts
  validate_autoinstall [] = ok tt
  validate_autoinstall ((iso, scripts) ∷ rest) = do
    validate_scripts iso scripts
    validate_autoinstall rest

-- The loop with the set of the identifiers that were seen.
unfoldable pub validate_ids : List ℕ → List DhcpInterface → Result (Unit {0})
validate_ids seen [] = ok tt
validate_ids seen (i ∷ rest) = do
  require (not (contains seen i.id)) (duplicate_id i.id)
  validate_ids (i.id ∷ seen) rest

unfoldable pub validate : (FilePath → Bool) → PxeBootConfig → Result (Unit {0})
unfolding validate_folders validate_overrides validate_ids validate_autoinstall
validate exists c = do
  validate_folders exists c.iso_folder_paths
  require (exists c.tftp_root) (missing_tftp_root c.tftp_root)
  validate_overrides exists c.dhcp_interfaces
  require (exists c.runtime_root) (missing_runtime_root c.runtime_root)
  validate_ids [] c.dhcp_interfaces
  validate_autoinstall exists c.autoinstall
