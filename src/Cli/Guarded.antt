-- ===== src/Cli/Guarded.antt =====
-- main.rs: nothing is done with a configuration that is not valid.
use nixos_router_module.Base.{List, ap, false, inl, inr, refl, ◌≡◌, ◌⊎◌}
use nixos_router_module.Cli.{
  Commands, Failure, OutputLine, ParseConfig, checked_dispatch, main, with_config, with_contents,
}
use nixos_router_module.Config.{PxeBootConfig}
use nixos_router_module.Config.Valid.{IsValid, is_ok-validate_iff}
use nixos_router_module.Config.Validation.{validate}
use nixos_router_module.Distro.NixOs.{ParseBootSpec}
use nixos_router_module.Errors.{IoResult, Result, StdResult, err, is_ok, ok, with_path}
use nixos_router_module.Grub.Menu.{Handlebars}
use nixos_router_module.Os.{Os}
use nixos_router_module.Paths.{FilePath}
use nixos_router_module.Text.{Text}

module _ (os : Os) (hb : Handlebars) (from_str : ParseBootSpec) (parse : ParseConfig) where
  -- The configuration was read, and is valid.
  abbrev pub RunsOn : FilePath → os.State → Type 0
  RunsOn config_path s =
      (contents : Text) × (c : PxeBootConfig) × (os.read_to_string s config_path ≡ ok contents)
      × (parse contents ≡ ok c)
      × IsValid (os.exists s) c

  -- A run that has failed and has left the machine as it was.
  abbrev pub StopsAt : os.State → StdResult Failure (List OutputLine) × os.State → Type 0
  StopsAt s r = (is_ok r.0 ≡ false) × (r.1 ≡ s)

  -- Whatever the command, either the configuration can be read and parsed and is valid, so its
  -- folders, roots and scripts exist and its identifiers differ, or the run fails and leaves the
  -- machine as it was.
  pub main-guarded :
      (config_path : FilePath) (command : Commands) (s : os.State)
      → RunsOn config_path s ⊎ StopsAt s (main os hb from_str parse config_path command s)
  unfolding main with_path
  main-guarded config_path command s = read (os.read_to_string s config_path) refl
    where
      validated :
          (contents : Text) (c : PxeBootConfig) (v : Result (Unit {0}))
          → os.read_to_string s config_path ≡ ok contents
          → parse contents ≡ ok c
          → validate (os.exists s) c ≡ v
          → RunsOn config_path s ⊎ StopsAt s (checked_dispatch os hb from_str parse command c v s)
      validated contents c (err e) h k v = inr (refl, refl)
      validated contents c (ok _) h k v =
          inl (contents, c, h, k, (is_ok-validate_iff (os.exists s) c).0 (ap is_ok v))

      parsed :
          (contents : Text) (r : StdResult Text PxeBootConfig)
          → os.read_to_string s config_path ≡ ok contents
          → parse contents ≡ r
          → RunsOn config_path s ⊎ StopsAt s (with_config os hb from_str parse command r s)
      parsed contents (err message) h k = inr (refl, refl)
      parsed contents (ok c) h k = validated contents c (validate (os.exists s) c) h k refl

      read :
          (r : IoResult Text)
          → os.read_to_string s config_path ≡ r
          → RunsOn config_path s
            ⊎ StopsAt s (with_contents os hb from_str parse command (with_path r config_path) s)
      read (err e) h = inr (refl, refl)
      read (ok contents) h = parsed contents (parse contents) h refl
