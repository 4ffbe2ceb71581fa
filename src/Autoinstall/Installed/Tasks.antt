-- ===== src/Autoinstall/Installed/Tasks.antt =====
-- autoinstall/manager.rs: the tasks of `prepare`, one for each script of each image.
use nixos_router_module.Base.{Bool, List, [], ap, map, refl, sym, ◌++◌, ◌∙◌, ◌∷◌, ◌≡◌}
use nixos_router_module.Actions.{Action}
use nixos_router_module.Autoinstall.{
  install_all, install_script, install_scripts, is_ubuntu_iso, iso_script_dir,
}
use nixos_router_module.Config.{Autoinstall, AutoinstallScript, DistroType}
use nixos_router_module.Errors.{Result}
use nixos_router_module.Os.{Os}
use nixos_router_module.Paths.{FilePath}
use nixos_router_module.Text.{Text}

pub record SeedTask : Type 0 where
  pub iso_name : Text
  pub is_ubuntu : Bool
  pub script : AutoinstallScript

abbrev pub script_task : Text → Bool → AutoinstallScript → SeedTask
script_task iso_name is_ubuntu script = record {
  iso_name = iso_name;
  is_ubuntu = is_ubuntu;
  script = script;
}

-- The scripts of the configuration, each with its image and whether that is an Ubuntu image.
abbrev pub seed_tasks : List (Text × DistroType) → Autoinstall → List SeedTask
seed_tasks distro_by_iso [] = []
seed_tasks distro_by_iso ((iso_name, scripts) ∷ rest) =
    map (script_task iso_name (is_ubuntu_iso distro_by_iso iso_name)) scripts
    ++ seed_tasks distro_by_iso rest

module _ (os : Os) (root : FilePath) where
  abbrev pub run_seed : SeedTask → Action os.State (Unit {0})
  run_seed x = install_script os x.is_ubuntu (iso_script_dir root x.iso_name) x.script

  abbrev pub run_seeds : List SeedTask → os.State → List (Result (Unit {0})) × os.State
  run_seeds [] s = ([], s)
  run_seeds (x ∷ xs) s =
      let (r, t) = run_seed x s in let (later, u) = run_seeds xs t in (r ∷ later, u)

  run_seeds-append :
      (xs ys : List SeedTask) (s : os.State)
      → let (first, t) = run_seeds xs s in
        let (later, u) = run_seeds ys t in run_seeds (xs ++ ys) s ≡ (first ++ later, u)
  run_seeds-append [] ys s = refl
  run_seeds-append (x ∷ xs) ys s =
      ap (λ p. ((run_seed x s).0 ∷ p.0, p.1)) (run_seeds-append xs ys (run_seed x s).1)

  install_scripts-run :
      (iso_name : Text) (is_ubuntu : Bool) (scripts : List AutoinstallScript) (s : os.State)
      → install_scripts os is_ubuntu (iso_script_dir root iso_name) scripts s
        ≡ run_seeds (map (script_task iso_name is_ubuntu) scripts) s
  unfolding install_scripts
  install_scripts-run iso_name is_ubuntu [] s = refl
  install_scripts-run iso_name is_ubuntu (script ∷ rest) s =
      let r = run_seed (script_task iso_name is_ubuntu script) s in
      ap (λ p. (r.0 ∷ p.0, p.1)) (install_scripts-run iso_name is_ubuntu rest r.1)

  pub install_all-run :
      (distro_by_iso : List (Text × DistroType)) (autoinstall : Autoinstall) (s : os.State)
      → install_all os root distro_by_iso autoinstall s
        ≡ run_seeds (seed_tasks distro_by_iso autoinstall) s
  unfolding install_all
  install_all-run distro_by_iso [] s = refl
  install_all-run distro_by_iso ((iso_name, scripts) ∷ rest) s =
      let is_ubuntu = is_ubuntu_iso distro_by_iso iso_name in
      let tasks = map (script_task iso_name is_ubuntu) scripts in
      let ran = run_seeds tasks s in
      ap (λ p. let (later, u) = install_all os root distro_by_iso rest p.1 in (p.0 ++ later, u))
        (install_scripts-run iso_name is_ubuntu scripts s)
      ∙ (ap (λ q. (ran.0 ++ q.0, q.1)) (install_all-run distro_by_iso rest ran.1)
          ∙ sym (run_seeds-append tasks (seed_tasks distro_by_iso rest) s))
