-- ===== src/Autoinstall/Concurrent/Sequential.antt =====
-- autoinstall/manager.rs: the seeds written one after the other are one of the orders in which the
-- seed tasks run.
use nixos_router_module.Base.{
  List, [], ap, append-nil, by_number, get_elem?, nat_eq, refl, some, some-injective, suc,
  suc-injective, sym, zero, zero-ne-suc, ℕ, ◌∙◌, ◌∷◌, ◌≡◌, ◌≢◌,
}
use nixos_router_module.Autoinstall.{install_all}
use nixos_router_module.Autoinstall.Concurrent.{
  SeedRun, Seeding, begun, first_steps, left, seed_steps, start_seeds,
}
use nixos_router_module.Autoinstall.Concurrent.Alone.{
  Reaches, Reaches-trans, Went, onward, script_steps-Does,
}
use nixos_router_module.Autoinstall.Installed.Apart.{dir_of}
use nixos_router_module.Autoinstall.Installed.Tasks.{
  SeedTask, install_all-run, run_seed, run_seeds, seed_tasks,
}
use nixos_router_module.Config.{Autoinstall, DistroType}
use nixos_router_module.Errors.{Result}
use nixos_router_module.Os.{Os}
use nixos_router_module.Paths.{FilePath}
use nixos_router_module.Text.{Text}

module _ (os : Os) (root : FilePath) (tasks : List SeedTask) where
  -- What some tasks leave when they run one after the other. They have the numbers that `number`
  -- gives.
  record RanSeeds (number : ℕ → ℕ) (xs : List SeedTask) (m u : Seeding os.State) : Type 0 where
    reaches : Reaches os tasks m u
    machine : u.machine ≡ (run_seeds os root xs m.machine).1
    results :
        (k : ℕ) (r : Result (Unit {0}))
        → get_elem? (run_seeds os root xs m.machine).0 k ≡ some r
        → u.progress (number k) ≡ onward [] r
    others : (j : ℕ) → ((k : ℕ) → j ≢ number k) → u.progress j ≡ m.progress j

  RanSeeds-cons :
      (number : ℕ → ℕ) (y : SeedTask) (xs : List SeedTask) (m v u : Seeding os.State)
      (at : get_elem? tasks (number 0) ≡ some y)
      → ((j k : ℕ) → number j ≡ number k → j ≡ k)
      → Went os tasks
          (number 0)
          y
          at
          m
          v
          (run_seed os root y m.machine).1
          (onward [] (run_seed os root y m.machine).0)
      → RanSeeds (λ k. number (suc k)) xs v u
      → RanSeeds number (y ∷ xs) m u
  RanSeeds-cons number y xs m v u at injective ran rest = record {
    reaches = Reaches-trans os tasks m v u ran.reaches rest.reaches;
    machine = rest.machine ∙ ap (λ s. (run_seeds os root xs s).1) ran.machine;
    results =
        by_number P
          (λ r h.
            rest.others (number 0) (λ k e. zero-ne-suc k (injective 0 (suc k) e))
            ∙ (ran.own ∙ ap (onward []) (some-injective _ r h)))
          (λ k r h.
            rest.results k r (ap (λ s. get_elem? (run_seeds os root xs s).0 k) ran.machine ∙ h));
    others = λ j ne. rest.others j (λ k. ne (suc k)) ∙ ran.others j (ne 0);
  }
    where
      P : ℕ → Type 0
      P k =
          (r : Result (Unit {0}))
          → get_elem? (run_seeds os root (y ∷ xs) m.machine).0 k ≡ some r
          → u.progress (number k) ≡ onward [] r

  run_all :
      (xs : List SeedTask) (number : ℕ → ℕ) (m : Seeding os.State)
      → ((j k : ℕ) → number j ≡ number k → j ≡ k)
      → ((k : ℕ) (y : SeedTask) → get_elem? xs k ≡ some y → get_elem? tasks (number k) ≡ some y)
      → ((k : ℕ) → m.progress (number k) ≡ left (first_steps root (get_elem? xs k)))
      → (u : Seeding os.State) × RanSeeds number xs m u
  run_all [] number m injective numbered fresh = (
    m,
    record {
      reaches = (zero, begun);
      machine = refl;
      results = λ k r h. cc;
      others = λ j ne. refl;
    },
  )
  run_all (y ∷ xs) number m injective numbered fresh =
      let (v, ran) =
        script_steps-Does os tasks (number 0) y (numbered 0 y refl) y.is_ubuntu (dir_of root y)
          y.script m [] (fresh 0 ∙ ap left (sym (append-nil (seed_steps root y)))) in
      let (u, rest) =
        run_all xs (λ k. number (suc k)) v (λ j k e. suc-injective (injective (suc j) (suc k) e))
          (λ k z at. numbered (suc k) z at)
          (λ k.
            ran.others (number (suc k)) (λ e. zero-ne-suc k (sym (injective (suc k) 0 e)))
            ∙ fresh (suc k)) in
      (u, RanSeeds-cons number y xs m v u (numbered 0 y refl) injective ran rest)

-- Writing the seeds one after the other is one of the orders in which their tasks can run to the
-- end: it leaves the same machine, and every seed has the result of its task.
pub install_all-SeedRun :
    (os : Os) (root : FilePath) (autoinstall : Autoinstall)
    (distro_by_iso : List (Text × DistroType)) (s : os.State)
    → let tasks = seed_tasks distro_by_iso autoinstall in
      let sequential = install_all os root distro_by_iso autoinstall s in
      (u : Seeding os.State) × ((n : ℕ) × SeedRun os tasks (start_seeds root tasks s) n u)
      × (u.machine ≡ sequential.1)
      × ((k : ℕ) (r : Result (Unit {0}))
          → get_elem? sequential.0 k ≡ some r
          → u.progress k ≡ onward [] r)
install_all-SeedRun os root autoinstall distro_by_iso s =
    let tasks = seed_tasks distro_by_iso autoinstall in
    let (u, all) =
      run_all os root tasks tasks (λ k. k) (start_seeds root tasks s) (λ j k e. e) (λ k y at. at)
        (λ k. refl) in
    let same = install_all-run os root distro_by_iso autoinstall s in
    (
      u,
      all.reaches,
      all.machine ∙ ap (λ p. p.1) (sym same),
      λ k r h. all.results k r (ap (λ p. get_elem? p.0 k) (sym same) ∙ h),
    )
