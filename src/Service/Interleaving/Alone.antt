-- ===== src/Service/Interleaving/Alone.antt =====
-- lib.rs: a menu task that runs to its end with no other between.
use nixos_router_module.Base.{
  ==-refl, List, [], ap, inl, inr, nat_eq, none, refl, suc, sym, zero, ℕ, ◌∙◌, ◌∷◌, ◌≡◌, ◌≢◌,
}
use nixos_router_module.Actions.{◌>>◌}
use nixos_router_module.Errors.{Outcome-cases, Result}
use nixos_router_module.Os.{Os}
use nixos_router_module.Service.Interleaving.{Run, Running, Step, here, next, turn, turns, update}
use nixos_router_module.Service.Interleaving.Invariant.{update-elim}
use nixos_router_module.Service.Tasks.{MenuStep, Task, perform, perform_all, resume, task_result}

update_self : (tasks : ℕ → Task) (k : ℕ) (t : Task) → update tasks k t k ≡ t
update_self tasks k t = rw (==-refl k) refl

update_other : (tasks : ℕ → Task) (k : ℕ) (t : Task) (j : ℕ) → j ≢ k → update tasks k t j ≡ tasks j
update_other tasks k t j ne =
    update-elim (λ u. u ≡ tasks j) tasks k t j (λ same. absurd (ne same)) (λ other. refl)

module _ (os : Os) where
  Run-cons :
      {m v : Running os.State} {n : ℕ} {u : Running os.State}
      → Step os m v
      → Run os v n u
      → Run os m (suc n) u
  Run-cons st here = next here st
  Run-cons st (next run last) = next (Run-cons st run) last

  abbrev pub Reaches : Running os.State → Running os.State → Type 0
  Reaches m u = (n : ℕ) × Run os m n u

  pub Reaches-trans : (m v u : Running os.State) → Reaches m v → Reaches v u → Reaches m u
  Reaches-trans m v u (n, run) (l, later) = go later
    where
      go : {l : ℕ} {u : Running os.State} → Run os v l u → Reaches m u
      go here = (n, run)
      go (next r st) = let (j, whole) = go r in (suc j, next whole st)

  -- What a task leaves when it runs to its end with no other between.
  pub record Ran (m : Running os.State) (k : ℕ) (outcome : Result (Unit {0}) × os.State)
      (u : Running os.State) : Type 0 where
    pub reaches : Reaches m u
    pub machine : u.machine ≡ outcome.1
    pub ended : (u.tasks k).left ≡ []
    pub result : task_result (u.tasks k) ≡ outcome.0
    pub others : (j : ℕ) → j ≢ k → u.tasks j ≡ m.tasks j

  pub run_task :
      (steps : List MenuStep) (m : Running os.State) (k : ℕ)
      → (m.tasks k).left ≡ steps
      → (m.tasks k).failure ≡ none
      → (u : Running os.State) × Ran m k (perform_all os steps m.machine) u
  unfolding perform_all
  run_task [] m k ready whole = (
    m,
    record {
      reaches = (zero, here);
      machine = refl;
      ended = ready;
      result = rw whole refl;
      others = λ j ne. refl;
    },
  )
  run_task (x ∷ rest) m k ready whole = elim (Outcome-cases (perform os x m.machine)) [
    | inl (e, t, h) ↦ (
      turn os m k x rest,
      record {
        reaches = (1, next here first);
        machine = after_machine ∙ (ap (λ p. p.1) h ∙ ap (λ p. (chain p).1) (sym h));
        ended = ap Task.left (resumed h);
        result = ap task_result (resumed h) ∙ ap (λ p. (chain p).0) (sym h);
        others = after_others;
      },
    )
    | inr (a, t, h) ↦
        let (u, ran) =
          run_task rest (turn os m k x rest) k (ap Task.left (resumed h))
            (ap Task.failure (resumed h) ∙ whole) in
        let (n, run) = ran.reaches in
        let same : (turn os m k x rest).machine ≡ t = after_machine ∙ ap (λ p. p.1) h in
        (
          u,
          record {
            reaches = (suc n, Run-cons first run);
            machine =
                ran.machine
                ∙ (ap (λ s. (perform_all os rest s).1) same ∙ ap (λ p. (chain p).1) (sym h));
            ended = ran.ended;
            result =
                ran.result
                ∙ (ap (λ s. (perform_all os rest s).0) same ∙ ap (λ p. (chain p).0) (sym h));
            others = λ j ne. ran.others j ne ∙ after_others j ne;
          },
        )
  ]
    where
      chain : Result (Unit {0}) × os.State → Result (Unit {0}) × os.State
      chain p = ◌>>◌ (λ s. p) (perform_all os rest) m.machine

      first : Step os m (turn os m k x rest)
      first = turns k x rest ready refl

      after_machine : (turn os m k x rest).machine ≡ (perform os x m.machine).1
      after_machine = unfold turn in refl

      after_task :
          (turn os m k x rest).tasks k ≡ resume (m.tasks k) x rest (perform os x m.machine).0
      after_task = unfold turn in update_self m.tasks k _

      resumed :
          {p : Result (Unit {0}) × os.State}
          → perform os x m.machine ≡ p
          → (turn os m k x rest).tasks k ≡ resume (m.tasks k) x rest p.0
      resumed h = after_task ∙ ap (λ p. resume (m.tasks k) x rest p.0) h

      after_others : (j : ℕ) → j ≢ k → (turn os m k x rest).tasks j ≡ m.tasks j
      after_others j ne = unfold turn in update_other m.tasks k _ j ne
