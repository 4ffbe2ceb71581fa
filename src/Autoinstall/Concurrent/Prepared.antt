-- ===== src/Autoinstall/Concurrent/Prepared.antt =====
-- autoinstall/manager.rs: the seeds after a `prepare` that succeeds.
use nixos_router_module.Base.{
  All, All-of_get_elem?, Distinct, List, [], ap, get_elem?, map, refl, some, subst, suc, sym, true,
  zero, ℕ, ◌∙◌, ◌∷◌, ◌≡◌,
}
use nixos_router_module.Autoinstall.{prepare_autoinstall}
use nixos_router_module.Autoinstall.Concurrent.Outcome.{SeedRun-HasSeed}
use nixos_router_module.Autoinstall.Concurrent.Sequential.{install_all-SeedRun}
use nixos_router_module.Autoinstall.Installed.{HasSeed}
use nixos_router_module.Autoinstall.Installed.Apart.{IsOutside, IsPlaced, key}
use nixos_router_module.Autoinstall.Installed.Tasks.{
  SeedTask, install_all-run, run_seed, run_seeds, seed_tasks,
}
use nixos_router_module.Autoinstall.Seeds.{CopiesFiles}
use nixos_router_module.Config.{DistroType, PxeBootConfig}
use nixos_router_module.Errors.{Result, err, first_error, is_ok, ok}
use nixos_router_module.Iso.Links.Built.{first_error-cons}
use nixos_router_module.Os.{Os}
use nixos_router_module.Paths.{FilePath}
use nixos_router_module.Service.Written.{StoresFiles}
use nixos_router_module.Text.{Text}

is_ok-tt : (r : Result (Unit {0})) → is_ok r ≡ true → r ≡ ok tt
is_ok-tt (ok a) h = refl
is_ok-tt (err e) h = cc

-- Every task of a run that succeeds has succeeded.
run_seeds-get_elem? :
    (os : Os) (root : FilePath) (xs : List SeedTask) (s : os.State) (k : ℕ) (y : SeedTask)
    → first_error (run_seeds os root xs s).0 ≡ ok tt
    → get_elem? xs k ≡ some y
    → get_elem? (run_seeds os root xs s).0 k ≡ some (ok tt)
run_seeds-get_elem? os root [] s k y done at = cc
run_seeds-get_elem? os root (x ∷ xs) s zero y done at =
    let ran = run_seed os root x s in
    ap some (is_ok-tt ran.0 (first_error-cons ran.0 (run_seeds os root xs ran.1).0 done).0)
run_seeds-get_elem? os root (x ∷ xs) s (suc k) y done at =
    let ran = run_seed os root x s in
    run_seeds-get_elem? os root xs ran.1 k y
      (first_error-cons ran.0 (run_seeds os root xs ran.1).0 done).1 at

-- If the seed tasks run one after the other and `prepare` succeeds, every script of the configuration
-- can be read at its place with the contents that its source had before, for an Ubuntu image as
-- `user-data` beside an empty `meta-data`, for any other under its own name. Files behave as
-- `CopiesFiles` and `StoresFiles` say, the names of images and scripts are file names, no two scripts
-- of an image have one name, and no source is among the seeds.
pub prepare_autoinstall-HasSeed :
    (os : Os) (copies : CopiesFiles os) (stores : StoresFiles os) (root : FilePath)
    (c : PxeBootConfig) (distro_by_iso : List (Text × DistroType)) (s t : os.State)
    → let tasks = seed_tasks distro_by_iso c.autoinstall in
      All IsPlaced tasks
      → All (IsOutside root) tasks
      → Distinct (map key tasks)
      → prepare_autoinstall os root c distro_by_iso s ≡ (ok tt, t)
      → All (HasSeed os copies stores root s t) tasks
unfolding prepare_autoinstall
prepare_autoinstall-HasSeed os copies stores root c distro_by_iso s t placed out apart done =
    let tasks = seed_tasks distro_by_iso c.autoinstall in
    let run = install_all-run os root distro_by_iso c.autoinstall s in
    let (u, (n, reached), machine, results) =
      install_all-SeedRun os root c.autoinstall distro_by_iso s in
    subst (λ v. All (HasSeed os copies stores root s v) tasks) (machine ∙ ap (λ r. r.1) done)
      (All-of_get_elem? (HasSeed os copies stores root s u.machine) tasks (λ k y at.
        SeedRun-HasSeed os copies stores root c.autoinstall distro_by_iso s n u k y placed out apart
          reached at
          (results k (ok tt) (
            ap (λ p. get_elem? p.0 k) run
            ∙ run_seeds-get_elem? os root tasks s k y
                (ap (λ p. first_error p.0) (sym run) ∙ ap (λ r. r.0) done) at))))
