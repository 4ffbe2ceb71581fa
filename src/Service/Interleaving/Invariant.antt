-- ===== src/Service/Interleaving/Invariant.antt =====
-- lib.rs: what holds of the menu tasks whatever the order in which they run.
use nixos_router_module.Base.{
  All, All-append, Bool-cases, List, [], ap, append_assoc, arith, inl, inr, nat_beq_iff, nat_eq,
  none, refl, subst, sym, ℕ, ◌++◌, ◌==◌, ◌∙◌, ◌∷◌, ◌≡◌, ◌≢◌,
}
use nixos_router_module.Autoinstall.Seeds.{CopiesFiles}
use nixos_router_module.Errors.{PxeBootError, Result, err, ok}
use nixos_router_module.Os.{Os}
use nixos_router_module.Service.Interleaving.{Run, Running, here, next, turn, turns, update}
use nixos_router_module.Service.Interleaving.Apart.{
  All-head, All-tail, AllApart, AllApart-nil, AllApart-snoc, Apart, Apart-sym-All, Kept, SelfApart,
  perform-Kept, perform-keeps-All,
}
use nixos_router_module.Service.Tasks.{MenuStep, Task, perform, resume}
use nixos_router_module.Service.Written.{StoresFiles}

-- A property of an updated table of tasks.
pub update-elim {ℓ} :
    (P : Task → Type ℓ) (tasks : ℕ → Task) (k : ℕ) (t : Task) (j : ℕ)
    → (j ≡ k → P t)
    → (j ≢ k → P (tasks j))
    → P (update tasks k t j)
update-elim P tasks k t j h g = elim (Bool-cases (j == k)) [
  | inl same ↦ rw same (h ((nat_beq_iff j k).0 same))
  | inr other ↦ rw other (g (λ e. ground (arith, (nat_beq_iff j k).1 e)))
]

-- The two ways in which a task goes on.
resume-elim {ℓ} :
    (P : Task → Type ℓ) (t : Task) (x : MenuStep) (rest : List MenuStep) (r : Result (Unit {0}))
    → (r ≡ ok tt → P (resume t x rest (ok tt)))
    → ((e : PxeBootError) → P (resume t x rest (err e)))
    → P (resume t x rest r)
resume-elim P t x rest (ok a) h g = h refl
resume-elim P t x rest (err e) h g = g e

module _ (os : Os) (copies : CopiesFiles os) (stores : StoresFiles os)
    (plan : ℕ → List MenuStep) where
  pub record Inv (m : Running os.State) : Type 0 where
    -- what was written stands
    pub held : (k : ℕ) → All (Kept os copies stores m.machine) (m.tasks k).done
    pub left_self : (k : ℕ) → SelfApart (m.tasks k).left
    pub left_done : (j k : ℕ) → AllApart (m.tasks j).left (m.tasks k).done
    pub left_left : (j k : ℕ) → j ≢ k → AllApart (m.tasks j).left (m.tasks k).left
    pub complete :
        (k : ℕ) → (m.tasks k).failure ≡ none → (m.tasks k).done ++ (m.tasks k).left ≡ plan k

  module _ (m : Running os.State) (inv : Inv m) (k : ℕ) (x : MenuStep) (rest : List MenuStep)
      (ready : (m.tasks k).left ≡ x ∷ rest) where
    abbrev after : Running os.State
    after = turn os m k x rest

    abbrev result : Result (Unit {0})
    result = (perform os x m.machine).0

    old : (j : ℕ) → All (Kept os copies stores after.machine) (m.tasks j).done
    unfolding turn
    old j =
        perform-keeps-All os copies stores x (m.tasks j).done m.machine
          (subst (λ left. AllApart left (m.tasks j).done) ready (inv.left_done k j)).0 (inv.held j)

    turn-held : (j : ℕ) → All (Kept os copies stores after.machine) (after.tasks j).done
    unfolding turn
    turn-held j =
        update-elim P m.tasks k (resume (m.tasks k) x rest result) j
          (λ e.
            resume-elim P (m.tasks k) x rest result
              (λ done.
                All-append (Kept os copies stores after.machine) (m.tasks k).done (x ∷ []) (old k) (
                  perform-Kept os copies stores x m.machine after.machine
                      (ap (λ r. (r, (perform os x m.machine).1)) done),
                  tt,
                ))
              (λ e'. old k))
          (λ ne. old j)
      where
        P : Task → Type 0
        P t = All (Kept os copies stores after.machine) t.done

    fresh : All (Apart x) rest × SelfApart rest
    fresh = subst SelfApart ready (inv.left_self k)

    turn-left_self : (j : ℕ) → SelfApart (after.tasks j).left
    unfolding turn
    turn-left_self j =
        update-elim (λ t. SelfApart t.left) m.tasks k (resume (m.tasks k) x rest result) j
          (λ e.
            resume-elim (λ t. SelfApart t.left) (m.tasks k) x rest result (λ done. fresh.1)
              (λ e'. tt))
          (λ ne. inv.left_self j)

    -- What does not disturb `x` does not disturb what is done after `x`.
    done_row :
        (ys : List MenuStep)
        → All (λ y. Apart y x) ys
        → ((j : ℕ) → AllApart ys (m.tasks j).done)
        → (j : ℕ) → AllApart ys (after.tasks j).done
    unfolding turn
    done_row ys apart row j =
        update-elim (λ t. AllApart ys t.done) m.tasks k (resume (m.tasks k) x rest result) j
          (λ e.
            resume-elim (λ t. AllApart ys t.done) (m.tasks k) x rest result
              (λ done. AllApart-snoc ys (m.tasks k).done x (row k) apart) (λ e'. row k))
          (λ ne. row j)

    turn-left_done : (i j : ℕ) → AllApart (after.tasks i).left (after.tasks j).done
    unfolding turn
    turn-left_done i j =
        update-elim P m.tasks k (resume (m.tasks k) x rest result) i
          (λ e.
            resume-elim P (m.tasks k) x rest result
              (λ done.
                done_row rest (Apart-sym-All x rest fresh.0)
                  (λ l.
                    (subst (λ left. AllApart left (m.tasks l).done) ready (inv.left_done k l)).1)
                  j)
              (λ e'. tt))
          (λ ne.
            done_row (m.tasks i).left
              (All-head x rest (m.tasks i).left
                (subst (AllApart (m.tasks i).left) ready (inv.left_left i k ne)))
              (inv.left_done i) j)
      where
        P : Task → Type 0
        P t = AllApart t.left (after.tasks j).done

    turn-left_left : (i j : ℕ) → i ≢ j → AllApart (after.tasks i).left (after.tasks j).left
    unfolding turn
    turn-left_left i j apart =
        update-elim P m.tasks k (resume (m.tasks k) x rest result) i
          (λ i_is_k.
            resume-elim P (m.tasks k) x rest result
              (λ done.
                update-elim (λ t. AllApart rest t.left) m.tasks k (resume (m.tasks k) x rest result)
                  j (λ j_is_k. absurd (apart (i_is_k ∙ sym j_is_k)))
                  (λ ne.
                    (subst (λ left. AllApart left (m.tasks j).left) ready
                      (inv.left_left k j (λ same. ne (sym same)))).1))
              (λ e'. tt))
          (λ i_not_k.
            update-elim (Q i) m.tasks k (resume (m.tasks k) x rest result) j
              (λ e.
                resume-elim (Q i) (m.tasks k) x rest result
                  (λ done.
                    All-tail x rest (m.tasks i).left
                      (subst (AllApart (m.tasks i).left) ready (inv.left_left i k i_not_k)))
                  (λ e'. AllApart-nil (m.tasks i).left))
              (λ ne. inv.left_left i j apart))
      where
        P : Task → Type 0
        P t = AllApart t.left (after.tasks j).left

        Q : ℕ → Task → Type 0
        Q i t = AllApart (m.tasks i).left t.left

    turn_complete :
        (j : ℕ)
        → (after.tasks j).failure ≡ none
        → (after.tasks j).done ++ (after.tasks j).left ≡ plan j
    unfolding turn
    turn_complete j =
        update-elim P m.tasks k (resume (m.tasks k) x rest result) j
          (λ same.
            resume-elim P (m.tasks k) x rest result
              (λ done whole.
                append_assoc (m.tasks k).done (x ∷ []) rest
                ∙ (ap (λ left. (m.tasks k).done ++ left) (sym ready)
                    ∙ (inv.complete k whole ∙ ap plan (sym same))))
              (λ e' broken. cc))
          (λ ne. inv.complete j)
      where
        P : Task → Type 0
        P t = t.failure ≡ none → t.done ++ t.left ≡ plan j

    pub turn-Inv : Inv after
    turn-Inv = record {
      held = turn-held;
      left_self = turn-left_self;
      left_done = turn-left_done;
      left_left = turn-left_left;
      complete = turn_complete;
    }

  pub Run-Inv : {m : Running os.State} {n : ℕ} {u : Running os.State} → Inv m → Run os m n u → Inv u
  Run-Inv inv here = inv
  Run-Inv inv (next {u = v} run (turns k x rest ready same)) =
      subst Inv (sym same) (turn-Inv v (Run-Inv inv run) k x rest ready)
