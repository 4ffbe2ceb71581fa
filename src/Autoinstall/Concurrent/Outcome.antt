-- ===== src/Autoinstall/Concurrent/Outcome.antt =====
-- autoinstall/manager.rs: the files of a seed once its task has returned, whatever the others do.
use nixos_router_module.Base.{
  All, All-get_elem?, Bool, Distinct, Distinct-get_elem?, List, [], ap, false, get_elem?, inl, inr,
  map, nat_eq, refl, some, some-injective, subst, sym, true, ℕ, ◌∙◌, ◌∷◌, ◌≡◌,
}
use nixos_router_module.Autoinstall.Concurrent.{
  SeedRun, SeedStep, Seeding, begun, continues, left, perform_seed, resume_seed, script_steps,
  seed_turn, start_seeds, first_steps, takes_turn,
}
use nixos_router_module.Autoinstall.Concurrent.Invariant.{
  OwnPlace, SeedInv, SeedInv-other, SeedInv-own, Targets, proceed-elim,
}
use nixos_router_module.Autoinstall.Concurrent.Steps.{OnPaths}
use nixos_router_module.Autoinstall.Installed.{HasSeed}
use nixos_router_module.Autoinstall.Installed.Apart.{IsOutside, IsPlaced, dir_of, key}
use nixos_router_module.Autoinstall.Installed.Tasks.{SeedTask, seed_tasks}
use nixos_router_module.Autoinstall.Seeds.{CopiesFiles, Installed, meta_ne}
use nixos_router_module.Config.{Autoinstall, DistroType}
use nixos_router_module.Os.{Os}
use nixos_router_module.Paths.{FilePath}
use nixos_router_module.Service.Written.{StoresFiles}
use nixos_router_module.Text.{Text}

module _ (os : Os) (copies : CopiesFiles os) (stores : StoresFiles os) (root : FilePath)
    (before : os.State) where
  script_steps-OwnPlace :
      (y : SeedTask) (is_ubuntu : Bool)
      → OnPaths
          (OwnPlace os copies stores root before y)
          (script_steps is_ubuntu (dir_of root y) y.script)
  unfolding script_steps
  script_steps-OwnPlace y false = (λ q u. u.0, (λ q u. u.0, (λ q u. u.1, (λ q u. u.1, tt))))
  script_steps-OwnPlace y true = (
    λ q u. u.0,
    (
      λ q u. u.0,
      (λ q u. u.1, (λ q u. u.1, (λ q u. u.2, (λ q u. u.2, (λ q u. u.3, (λ q u. u.3, tt)))))),
    ),
  )

  script_steps-Targets :
      (y : SeedTask) (is_ubuntu : Bool) (s : os.State)
      → Targets os copies stores root before y is_ubuntu
          (script_steps is_ubuntu (dir_of root y) y.script)
          s
  unfolding script_steps
  script_steps-Targets y false s = inl (inr (inr (inr (inl (refl, tt)))))
  script_steps-Targets y true s =
      let apart = meta_ne os copies stores (dir_of root y) y.script in
      (
        inl (inr (inr (inr (inr (inr (inl (refl, (apart, (apart, tt))))))))),
        inl (inr (inr (inr (inr (inr (inr (inr (inl (refl, tt))))))))),
      )

  Targets-Installed :
      (y : SeedTask) (is_ubuntu : Bool) (s : os.State)
      → Targets os copies stores root before y is_ubuntu [] s
      → Installed os copies stores (dir_of root y) y.script is_ubuntu before s
  Targets-Installed y false s (inl never) = absurd never
  Targets-Installed y false s (inr (a, there)) = there
  Targets-Installed y true s (inl never, h) = absurd never
  Targets-Installed y true s (inr h, inl never) = absurd never
  Targets-Installed y true s (inr (a, there), inr (b, beside)) = (there, beside)

  module _ (tasks : List SeedTask) (placed : All IsPlaced tasks) (out : All (IsOutside root) tasks)
      (apart : Distinct (map key tasks)) where
    abbrev SeedsInv : Seeding os.State → Type 0
    SeedsInv m =
        (k : ℕ) (y : SeedTask)
        → get_elem? tasks k ≡ some y
        → SeedInv os copies stores root before y m.machine (m.progress k)

    start-SeedsInv : SeedsInv (start_seeds root tasks before)
    start-SeedsInv k y at =
        subst (λ o. SeedInv os copies stores root before y before (left (first_steps root o)))
          (sym at)
          (refl, script_steps-OwnPlace y y.is_ubuntu, script_steps-Targets y y.is_ubuntu before)

    turn-SeedsInv :
        (m : Seeding os.State) (k : ℕ) (y : SeedTask) (x : SeedStep) (rest : List SeedStep)
        → SeedsInv m
        → get_elem? tasks k ≡ some y
        → m.progress k ≡ left (x ∷ rest)
        → SeedsInv (seed_turn os m k x rest)
    unfolding seed_turn
    turn-SeedsInv m k y x rest inv at ready j z at_j =
        let now = subst (SeedInv os copies stores root before y m.machine) ready (inv k y at) in
        proceed-elim (SeedInv os copies stores root before z (perform_seed os x m.machine).1)
          m.progress k (resume_seed rest (perform_seed os x m.machine).0) j
          (λ same.
            let y_is_z : y ≡ z =
              some-injective y z (sym at ∙ (ap (get_elem? tasks) (sym same) ∙ at_j)) in
            subst
              (λ w.
                SeedInv os copies stores root before w (perform_seed os x m.machine).1
                  (resume_seed rest (perform_seed os x m.machine).0))
              y_is_z
              (SeedInv-own os copies stores root before y x rest m.machine
                (All-get_elem? IsPlaced tasks k y placed at)
                (All-get_elem? (IsOutside root) tasks k y out at) now))
          (λ other.
            SeedInv-other os copies stores root before z y x (m.progress j) m.machine
              (All-get_elem? IsPlaced tasks j z placed at_j)
              (All-get_elem? IsPlaced tasks k y placed at)
              (All-get_elem? (IsOutside root) tasks j z out at_j)
              (Distinct-get_elem? key tasks j k z y apart at_j at other) now.1.0 (inv j z at_j))

    run-SeedsInv :
        {m u : Seeding os.State} {n : ℕ} → SeedsInv m → SeedRun os tasks m n u → SeedsInv u
    run-SeedsInv inv begun = inv
    run-SeedsInv inv (continues {u = v} run (takes_turn k y x rest at ready same)) =
        subst SeedsInv (sym same) (turn-SeedsInv v k y x rest (run-SeedsInv inv run) at ready)

-- The tasks of the seeds run concurrently, in any order of their steps. At every moment, a script
-- whose task has returned with no error can be read at its place with the contents that its source
-- had before, for an Ubuntu image as `user-data` beside an empty `meta-data`, for any other under its
-- own name, whichever other tasks have failed or are still running. Files behave as `CopiesFiles` and
-- `StoresFiles` say, the names of images and scripts are file names, no two scripts of an image have
-- one name, and no source is among the seeds.
pub SeedRun-HasSeed :
    (os : Os) (copies : CopiesFiles os) (stores : StoresFiles os) (root : FilePath)
    (autoinstall : Autoinstall) (distro_by_iso : List (Text × DistroType)) (s : os.State)
    (steps : ℕ) (m : Seeding os.State) (k : ℕ) (y : SeedTask)
    → let tasks = seed_tasks distro_by_iso autoinstall in
      All IsPlaced tasks
      → All (IsOutside root) tasks
      → Distinct (map key tasks)
      → SeedRun os tasks (start_seeds root tasks s) steps m
      → get_elem? tasks k ≡ some y
      → m.progress k ≡ left []
      → HasSeed os copies stores root s m.machine y
SeedRun-HasSeed os copies stores root autoinstall distro_by_iso s steps m k y placed out apart run
      at returned =
    let tasks = seed_tasks distro_by_iso autoinstall in
    let inv =
      run-SeedsInv os copies stores root s tasks placed out apart
        (start-SeedsInv os copies stores root s tasks placed out apart) run in
    let (same, paths, targets) =
      subst (SeedInv os copies stores root s y m.machine) returned (inv k y at) in
    Targets-Installed os copies stores root s y y.is_ubuntu m.machine targets
