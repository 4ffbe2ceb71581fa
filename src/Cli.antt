-- ===== src/Cli.antt =====
-- main.rs: the commands. What is printed is kept as the values that the lines format; arguments and
-- logging are left out. `serde_json::from_str` at the configuration's type is a parameter: it gives
-- the configuration, or the message of its error.
pub mod Guarded
pub mod Finished
use nixos_router_module.Base.{List, Option, [], length, map, none, some, ℕ, ◌∷◌}
use nixos_router_module.Config.{PxeBootConfig}
use nixos_router_module.Config.Validation.{validate}
use nixos_router_module.Distro.NixOs.{ParseBootSpec}
use nixos_router_module.Errors.{PxeBootError, Result, StdResult, err, ok, with_path}
use nixos_router_module.Grub.Menu.{Handlebars}
use nixos_router_module.Os.{Os}
use nixos_router_module.Paths.{FilePath}
use nixos_router_module.Service.New.{new_service}
use nixos_router_module.Service.Prepare.{cleanup, list_isos, prepare}
use nixos_router_module.Service.Status.{DistroLabel, IsoStatus, status}
use nixos_router_module.Text.{Text}

pub data Commands : Type 0 where
  prepare_command cleanup_command list_command status_command validate_command : Commands

pub data Failure : Type 0 where
  failed : PxeBootError → Failure
  bad_config : Text → Failure

pub data OutputLine : Type 0 where
  no_iso_files config_valid : OutputLine
  found_count : ℕ → OutputLine
  found_iso : FilePath → OutputLine
  recognized : Text → Option DistroLabel → ℕ → OutputLine
  not_recognized : Text → Text → OutputLine

abbrev pub ParseConfig : Type 0
ParseConfig = Text → StdResult Text PxeBootConfig

abbrev pub list_lines : List FilePath → List OutputLine
list_lines [] = no_iso_files ∷ []
list_lines (p ∷ ps) = found_count (length (p ∷ ps)) ∷ map found_iso (p ∷ ps)

abbrev pub status_line_of : IsoStatus → Option Text → OutputLine
status_line_of entry none = recognized entry.file_name entry.distro entry.menu_entries
status_line_of entry (some message) = not_recognized entry.file_name message

abbrev pub status_lines : List IsoStatus → List OutputLine
status_lines [] = no_iso_files ∷ []
status_lines (e ∷ es) = map (λ (x : IsoStatus). status_line_of x x.error) (e ∷ es)

-- The lines of a command that has succeeded.
abbrev pub printed :
    {S A : Type 0} → (A → List OutputLine) → Result A × S → StdResult Failure (List OutputLine) × S
printed lines_of (ok a, s) = (ok (lines_of a), s)
printed lines_of (err e, s) = (err (failed e), s)

module _ (os : Os) (hb : Handlebars) (from_str : ParseBootSpec) (parse : ParseConfig) where
  pub dispatch :
      Commands → PxeBootConfig → os.State → StdResult Failure (List OutputLine) × os.State
  dispatch prepare_command c s = printed (λ u. []) (prepare os hb (new_service os from_str c) s)
  dispatch cleanup_command c s = printed (λ u. []) (cleanup os hb (new_service os from_str c) s)
  dispatch list_command c s = printed list_lines (list_isos os hb (new_service os from_str c) s)
  dispatch status_command c s = printed status_lines (status (new_service os from_str c) s)
  dispatch validate_command c s = (ok (config_valid ∷ []), s)

  pub checked_dispatch :
      Commands
      → PxeBootConfig
      → Result (Unit {0})
      → os.State
      → StdResult Failure (List OutputLine) × os.State
  unfolding dispatch
  checked_dispatch command c (err e) s = (err (failed e), s)
  checked_dispatch command c (ok _) s = dispatch command c s

  pub with_config :
      Commands
      → StdResult Text PxeBootConfig
      → os.State
      → StdResult Failure (List OutputLine) × os.State
  unfolding checked_dispatch
  with_config command (err message) s = (err (bad_config message), s)
  with_config command (ok c) s = checked_dispatch command c (validate (os.exists s) c) s

  pub with_contents :
      Commands → Result Text → os.State → StdResult Failure (List OutputLine) × os.State
  unfolding with_config
  with_contents command (err e) s = (err (failed e), s)
  with_contents command (ok contents) s = with_config command (parse contents) s

  -- `main`, behind the parsing of its arguments.
  unfoldable pub main :
      FilePath → Commands → os.State → StdResult Failure (List OutputLine) × os.State
  unfolding with_contents
  main config_path command s =
      with_contents command (with_path (os.read_to_string s config_path) config_path) s
