-- ===== src/Examples/Commanding.antt =====
-- main.rs: an example.
use nixos_router_module.Base.{[], refl, ◌∷◌, ◌≡◌, ◌⊎◌}
use nixos_router_module.Cli.{ParseConfig, failed, main, prepare_command}
use nixos_router_module.Cli.Guarded.{RunsOn, StopsAt, main-guarded}
use nixos_router_module.Config.Validation.{missing_tftp_root, validate}
use nixos_router_module.Errors.{err, ok, with_path}
use nixos_router_module.Examples.Data.{state, from_str, handlebars, settings}
use nixos_router_module.Machine.{Machine, find_contents, machine}
use nixos_router_module.Paths.{FilePath, normal, root_dir}
use nixos_router_module.Text.{text}
use nixos_router_module.Tables.{lies_below}

abbrev config_path : FilePath
config_path = root_dir ∷ normal (text "config.json") ∷ []

abbrev configured : Machine
configured = record state { files = (config_path, text "{}") ∷ state.files }

abbrev parse : ParseConfig
parse contents = ok settings

-- The TFTP root of the configuration is not there, so nothing is prepared.
main_refuses :
    main machine handlebars from_str parse config_path prepare_command configured
    ≡ (err (failed (missing_tftp_root settings.tftp_root)), configured)
unfolding main with_path find_contents validate lies_below
main_refuses = refl

main-guarded_example :
    RunsOn machine handlebars from_str parse config_path configured
    ⊎ StopsAt machine handlebars from_str parse configured
        (main machine handlebars from_str parse config_path prepare_command configured)
main-guarded_example =
    main-guarded machine handlebars from_str parse config_path prepare_command configured
