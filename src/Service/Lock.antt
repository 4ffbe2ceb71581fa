-- ===== src/Service/Lock.antt =====
-- lib.rs: `prepare` under the lock of a runtime root, against a model of advisory locks.
use nixos_router_module.Base.{
  &&-false, Bool, Bool-cases, ap, false, if◌then◌else◌, inl, inr, refl, subst, sym, true, ◌&&◌, ◌∙◌,
  ◌≡◌, ◌⊎◌,
}
use nixos_router_module.Actions.{attempt, ◌>>◌}
use nixos_router_module.Errors.{
  IoResult, Outcome-cases, PxeBootError, Result, err, io_path, is_ok, ok,
}
use nixos_router_module.Grub.Menu.{Handlebars}
use nixos_router_module.Os.{Os}
use nixos_router_module.Paths.{FilePath}
use nixos_router_module.Service.Collaborators.{PxeBootService}
use nixos_router_module.Service.Prepare.{
  acquire_prepare_lock, lock_held, lock_path, prepare, run_locked, take_lock,
}

-- How the system keeps a lock: whether it is taken at a state, by this program or by another.
-- Opening the file and asking for the lock change nothing if it is taken; a lock that is refused
-- was not taken by the asking; dropping the handle gives a lock back.
pub record LocksFiles (os : Os) (path : FilePath) : Type 0 where
  pub taken : os.State → Bool
  pub open_keeps : (s : os.State) → taken (os.open_truncated path s).1 ≡ taken s
  pub try_of_taken :
      (s : os.State)
      → taken s ≡ true
      → ((os.try_lock path s).0 ≡ false) × (taken (os.try_lock path s).1 ≡ true)
  pub try_refused :
      (s : os.State)
      → taken s ≡ false
      → (os.try_lock path s).0 ≡ false
      → taken (os.try_lock path s).1 ≡ false
  pub release_frees : (s : os.State) → taken (os.release path s) ≡ false

Answer-cases {ℓ} :
    {S : Type ℓ} (m : Bool × S) → ((t : S) × (m ≡ (true, t))) ⊎ ((t : S) × (m ≡ (false, t)))
Answer-cases (true, t) = inl (t, refl)
Answer-cases (false, t) = inr (t, refl)

module _ (os : Os) (hb : Handlebars) (service : PxeBootService os.State)
    (locks : LocksFiles os (lock_path service.settings.runtime_root)) where
  abbrev root : FilePath
  root = service.settings.runtime_root

  -- The two ways in which asking for the lock ends.
  acquire_prepare_lock-cases :
      (s : os.State)
      → ((e : PxeBootError) × (t : os.State) × (acquire_prepare_lock os hb service s ≡ (err e, t))
          × (locks.taken t ≡ locks.taken s))
        ⊎ ((t : os.State) × (acquire_prepare_lock os hb service s ≡ (ok tt, t))
            × (locks.taken s ≡ false))
  unfolding acquire_prepare_lock
  acquire_prepare_lock-cases s = elim (Outcome-cases (os.open_truncated (lock_path root) s)) [
    | inl (e, t, h) ↦ inl (_, t, ap after_open h, opened h)
    | inr (a, t, h) ↦ elim (Answer-cases (os.try_lock (lock_path root) t)) [
      | inl (u, got) ↦ inr (u, ap after_open h ∙ ap after_try got, was_free h got)
      | inr (u, refused) ↦ inl (_, u, ap after_open h ∙ ap after_try refused, stays h refused)
    ]
  ]
    where
      after_open : IoResult (Unit {0}) × os.State → Result (Unit {0}) × os.State
      after_open p = ◌>>◌ (attempt (io_path (lock_path root)) (λ t. p)) (take_lock os hb service) s

      after_try : Bool × os.State → Result (Unit {0}) × os.State
      after_try p = if p.0 then (ok tt, p.1) else (err (lock_held (lock_path root)), p.1)

      opened :
          {r : IoResult (Unit {0})} {t : os.State}
          → os.open_truncated (lock_path root) s ≡ (r, t)
          → locks.taken t ≡ locks.taken s
      opened h = subst (λ m. locks.taken m.1 ≡ locks.taken s) h (locks.open_keeps s)

      was_free :
          {r : IoResult (Unit {0})} {t u : os.State}
          → os.open_truncated (lock_path root) s ≡ (r, t)
          → os.try_lock (lock_path root) t ≡ (true, u)
          → locks.taken s ≡ false
      was_free {t = t} h got = elim (Bool-cases (locks.taken s)) [
        | inl held ↦ absurd (cc (ap (λ m. m.0) got, (locks.try_of_taken t (opened h ∙ held)).0))
        | inr free ↦ free
      ]

      stays :
          {r : IoResult (Unit {0})} {t u : os.State}
          → os.open_truncated (lock_path root) s ≡ (r, t)
          → os.try_lock (lock_path root) t ≡ (false, u)
          → locks.taken u ≡ locks.taken s
      stays {t = t} h refused = elim (Bool-cases (locks.taken s)) [
        | inl held ↦
            ap (λ m. locks.taken m.1) (sym refused)
            ∙ ((locks.try_of_taken t (opened h ∙ held)).1 ∙ sym held)
        | inr free ↦
            ap (λ m. locks.taken m.1) (sym refused)
            ∙ (locks.try_refused t (opened h ∙ free) (ap (λ m. m.0) refused) ∙ sym free)
      ]

  -- Where locks behave as `LocksFiles` says, a run finds the lock taken or not, and leaves it so,
  -- whatever fails on the way; if it is taken the run fails.
  pub taken-prepare :
      (s : os.State)
      → (locks.taken (prepare os hb service s).1 ≡ locks.taken s)
        × ((locks.taken s && is_ok (prepare os hb service s).0) ≡ false)
  unfolding prepare
  taken-prepare s = elim (acquire_prepare_lock-cases s) [
    | inl (e, t, h, same) ↦
        subst Keeps (sym (ap (run_locked os hb service) h)) (same, &&-false (locks.taken s))
    | inr (t, h, free) ↦
        subst Keeps (sym (ap (run_locked os hb service) h))
          (locks.release_frees _ ∙ sym free, rw free refl)
  ]
    where
      Keeps : Result (Unit {0}) × os.State → Type 0
      Keeps r = (locks.taken r.1 ≡ locks.taken s) × ((locks.taken s && is_ok r.0) ≡ false)
