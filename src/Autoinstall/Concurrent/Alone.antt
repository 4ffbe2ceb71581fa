-- ===== src/Autoinstall/Concurrent/Alone.antt =====
-- autoinstall/manager.rs: a seed task that runs to its end with no other between.
use nixos_router_module.Base.{
  ==-refl, Bool, List, [], ap, append_assoc, false, get_elem?, nat_eq, refl, some, subst, suc, true,
  ℕ, ◌++◌, ◌∙◌, ◌∷◌, ◌≡◌, ◌≢◌,
}
use nixos_router_module.Actions.{Action, attempt, ◌>>◌}
use nixos_router_module.Autoinstall.{
  ensure_dir, install_file, install_script, remove_if_exists, write_fresh,
}
use nixos_router_module.Autoinstall.Concurrent.{
  Progress, SeedRun, SeedStep, Seeding, begun, continues, copy_file, create_dir, ensure_dir_steps,
  failed_with, install_file_steps, left, no_more, perform_seed, remove_old, remove_stale,
  resume_seed, script_steps, seed_turn, stale_steps, takes_turn, test_dir, write_fresh_steps,
  write_file,
}
use nixos_router_module.Autoinstall.Concurrent.Invariant.{proceed-elim}
use nixos_router_module.Autoinstall.Installed.Tasks.{SeedTask}
use nixos_router_module.Config.{AutoinstallScript}
use nixos_router_module.Errors.{IoResult, Result, err, io, ok}
use nixos_router_module.Os.{Os}
use nixos_router_module.Paths.{FilePath, join_text_path}
use nixos_router_module.Text.{Text, text}

-- A task after an action, with the steps that are left if it has succeeded.
abbrev pub onward : List SeedStep → Result (Unit {0}) → Progress
onward rest (ok _) = left rest
onward rest (err e) = failed_with e

module _ (os : Os) (tasks : List SeedTask) where
  abbrev pub Reaches : Seeding os.State → Seeding os.State → Type 0
  Reaches m u = (n : ℕ) × SeedRun os tasks m n u

  pub Reaches-trans : (m v u : Seeding os.State) → Reaches m v → Reaches v u → Reaches m u
  Reaches-trans m v u (n, run) (l, later) = go later
    where
      go : {l : ℕ} {u : Seeding os.State} → SeedRun os tasks v l u → Reaches m u
      go begun = (n, run)
      go (continues r turn) = let (j, whole) = go r in (suc j, continues whole turn)

  module _ (k : ℕ) (y : SeedTask) (at : get_elem? tasks k ≡ some y) where
    -- What a task leaves when it alone makes some of its steps.
    pub record Went (m u : Seeding os.State) (s : os.State) (p : Progress) : Type 0 where
      pub reaches : Reaches m u
      pub machine : u.machine ≡ s
      pub own : u.progress k ≡ p
      pub others : (j : ℕ) → j ≢ k → u.progress j ≡ m.progress j

    Went-trans :
        (m v u : Seeding os.State) (s t : os.State) (p q : Progress)
        → Went m v s p
        → Went v u t q
        → Went m u t q
    Went-trans m v u s t p q a b = record {
      reaches = Reaches-trans m v u a.reaches b.reaches;
      machine = b.machine;
      own = b.own;
      others = λ j ne. b.others j ne ∙ a.others j ne;
    }

    turn-Went :
        (m : Seeding os.State) (x : SeedStep) (rest : List SeedStep)
        → m.progress k ≡ left (x ∷ rest)
        → Went m
            (seed_turn os m k x rest)
            (perform_seed os x m.machine).1
            (resume_seed rest (perform_seed os x m.machine).0)
    unfolding seed_turn
    turn-Went m x rest ready = record {
      reaches = (1, continues begun (takes_turn k y x rest at ready (unfold seed_turn in refl)));
      machine = refl;
      own = rw (==-refl k) refl;
      others = λ j ne.
          proceed-elim (λ p. p ≡ m.progress j) m.progress k _ j (λ same. absurd (ne same))
            (λ other. refl);
    }

    -- The steps do what the action does.
    abbrev pub Does : List SeedStep → Action os.State (Unit {0}) → Type 0
    Does xs a =
        (m : Seeding os.State) (rest : List SeedStep)
        → m.progress k ≡ left (xs ++ rest)
        → (u : Seeding os.State) × Went m u (a m.machine).1 (onward rest (a m.machine).0)

    no_more-onward :
        (rest : List SeedStep) (r : Result (Unit {0}))
        → resume_seed rest (no_more r) ≡ onward rest r
    no_more-onward rest (ok a) = refl
    no_more-onward rest (err e) = refl

    step-Does :
        (x : SeedStep) (a : Action os.State (Unit {0}))
        → ((s : os.State) → perform_seed os x s ≡ (no_more (a s).0, (a s).1))
        → Does (x ∷ []) a
    step-Does x a same m rest ready = (
      seed_turn os m k x rest,
      subst (λ p. Went m (seed_turn os m k x rest) (a m.machine).1 p)
          (no_more-onward rest (a m.machine).0)
          (subst (λ p. Went m (seed_turn os m k x rest) p.1 (resume_seed rest p.0)) (same m.machine)
            (turn-Went m x rest ready)),
    )

    Does->> :
        (xs ys : List SeedStep) (a b : Action os.State (Unit {0}))
        → Does xs a
        → Does ys b
        → Does (xs ++ ys) (a >> b)
    Does->> xs ys a b f g m rest ready =
        let (v, first) = f m (ys ++ rest) (ready ∙ ap left (append_assoc xs ys rest)) in
        go v (a m.machine) refl first
      where
        chain : Result (Unit {0}) × os.State → Result (Unit {0}) × os.State
        chain p = ◌>>◌ (λ s. p) b m.machine

        go :
            (v : Seeding os.State) (p : Result (Unit {0}) × os.State)
            → a m.machine ≡ p
            → Went m v p.1 (onward (ys ++ rest) p.0)
            → (u : Seeding os.State) × Went m u (chain p).1 (onward rest (chain p).0)
        go v (err e, t) h first = (v, first)
        go v (ok c, t) h first =
            let (u, then) = g v rest first.own in
            (
              u,
              Went-trans m v u t (b t).1 _ _ first
                  (subst (λ s. Went v u (b s).1 (onward rest (b s).0)) first.machine then),
            )

    follow :
        (xs rest : List SeedStep) (a : Action os.State (Unit {0})) (m v : Seeding os.State)
        (s : os.State)
        → Does xs a
        → Went m v s (left (xs ++ rest))
        → (u : Seeding os.State) × Went m u (a s).1 (onward rest (a s).0)
    follow xs rest a m v s does first =
        let (u, then) = does v rest first.own in
        (
          u,
          Went-trans m v u s (a s).1 _ _ first
              (subst (λ t. Went v u (a t).1 (onward rest (a t).0)) first.machine then),
        )

    create_dir-Does :
        (dir : FilePath) → Does (create_dir dir ∷ []) (attempt io (os.create_dir_all dir))
    unfolding perform_seed
    create_dir-Does dir = step-Does (create_dir dir) _ (λ s. refl)

    ensure_dir-Does : (dir : FilePath) → Does (ensure_dir_steps dir) (ensure_dir os dir)
    unfolding ensure_dir perform_seed
    ensure_dir-Does dir m rest ready = go (os.is_dir m.machine dir) refl tested
      where
        v : Seeding os.State
        v = seed_turn os m k (test_dir dir) (create_dir dir ∷ rest)

        tested :
            Went m v m.machine
              (left (stale_steps dir (os.is_dir m.machine dir) ++ create_dir dir ∷ rest))
        tested = turn-Went m (test_dir dir) (create_dir dir ∷ rest) ready

        make : Action os.State (Unit {0})
        make = attempt io (os.create_dir_all dir)

        go :
            (r : IoResult Bool)
            → os.is_dir m.machine dir ≡ r
            → Went m v m.machine (left (stale_steps dir r ++ create_dir dir ∷ rest))
            → (u : Seeding os.State) × Went m u
                (ensure_dir os dir m.machine).1
                (onward rest (ensure_dir os dir m.machine).0)
        go (err e) h first =
            rw (h, ensure_dir)
              (follow (create_dir dir ∷ []) rest make m v _ (create_dir-Does dir) first)
        go (ok true) h first =
            rw (h, ensure_dir)
              (follow (create_dir dir ∷ []) rest make m v _ (create_dir-Does dir) first)
        go (ok false) h first =
            rw (h, ensure_dir)
              (follow (remove_stale dir ∷ create_dir dir ∷ []) rest
                (attempt io (os.remove_file dir) >> make) m v _
                (Does->> (remove_stale dir ∷ []) (create_dir dir ∷ []) _ _
                  (step-Does (remove_stale dir) _ (λ s. refl)) (create_dir-Does dir))
                first)

    install_file-Does :
        (src dest : FilePath) → Does (install_file_steps src dest) (install_file os src dest)
    unfolding install_file remove_if_exists perform_seed
    install_file-Does src dest =
        Does->> (remove_old dest ∷ []) (copy_file src dest ∷ []) (remove_if_exists os dest) _
          (step-Does (remove_old dest) _ (λ s. refl)) (step-Does (copy_file src dest) _ (λ s. refl))

    write_fresh-Does :
        (dest : FilePath) (contents : Text)
        → Does (write_fresh_steps dest contents) (write_fresh os dest contents)
    unfolding write_fresh remove_if_exists perform_seed
    write_fresh-Does dest contents =
        Does->> (remove_old dest ∷ []) (write_file dest contents ∷ []) (remove_if_exists os dest) _
          (step-Does (remove_old dest) _ (λ s. refl))
          (step-Does (write_file dest contents) _ (λ s. refl))

    -- A task that is not interrupted does what `install_script` does.
    pub script_steps-Does :
        (is_ubuntu : Bool) (dir : FilePath) (script : AutoinstallScript)
        → Does (script_steps is_ubuntu dir script) (install_script os is_ubuntu dir script)
    unfolding script_steps install_script
    script_steps-Does false dir script =
        let dest = join_text_path dir script.name in
        Does->> (ensure_dir_steps dir) (install_file_steps script.script_path dest)
          (ensure_dir os dir) _ (ensure_dir-Does dir) (install_file-Does script.script_path dest)
    script_steps-Does true dir script =
        let seed_dir = join_text_path dir script.name in
        let user_data = join_text_path seed_dir (text "user-data") in
        let meta_data = join_text_path seed_dir (text "meta-data") in
        let copy = install_file_steps script.script_path user_data in
        let write = write_fresh_steps meta_data [] in
        Does->> (ensure_dir_steps dir) (ensure_dir_steps seed_dir ++ (copy ++ write))
          (ensure_dir os dir) _ (ensure_dir-Does dir)
          (Does->> (ensure_dir_steps seed_dir) (copy ++ write) (ensure_dir os seed_dir) _
            (ensure_dir-Does seed_dir)
            (Does->> copy write (install_file os script.script_path user_data) _
              (install_file-Does script.script_path user_data) (write_fresh-Does meta_data [])))
