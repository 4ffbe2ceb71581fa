-- ===== src/Distro/Priority.antt =====
-- distro/detector.rs: the order that `register` keeps, and what it means for `detect`.
use nixos_router_module.Base.{
  All, Bool, Bool-cases, List, [], arith, false, if◌then◌else◌, inl, inr, list_eq, ltb, nat_eq,
  refl, subst, true, ℕ, ◌++◌, ◌==◌, ◌∷◌, ◌≡◌, ◌≤◌, ◌⊎◌,
}
use nixos_router_module.Distro.Detector.{
  DistroDetector, detect, insert_by_priority, register, sort_by_priority,
}
use nixos_router_module.Errors.{Result, err, ok, ◌>>=◌}
use nixos_router_module.Paths.{FilePath}

module _ {S : Type 0} where
  -- Highest priority first.
  abbrev pub IsSorted : List (DistroDetector S) → Type 0
  IsSorted [] = Unit
  IsSorted (d ∷ rest) = All (λ e. e.priority ≤ d.priority) rest × IsSorted rest

  -- The detectors of one priority, in their order.
  abbrev pub at_priority : ℕ → List (DistroDetector S) → List (DistroDetector S)
  at_priority p [] = []
  at_priority p (d ∷ rest) = if d.priority == p then d ∷ at_priority p rest else at_priority p rest

  All-le_trans :
      (m n : ℕ) (ds : List (DistroDetector S))
      → m ≤ n
      → All (λ e. e.priority ≤ m) ds
      → All (λ e. e.priority ≤ n) ds
  All-le_trans m n [] h lower = tt
  All-le_trans m n (d ∷ rest) h (a, lower) = (omega arith, All-le_trans m n rest h lower)

  All-le-insert_by_priority :
      (n : ℕ) (d : DistroDetector S) (ds : List (DistroDetector S))
      → d.priority ≤ n
      → All (λ e. e.priority ≤ n) ds
      → All (λ e. e.priority ≤ n) (insert_by_priority d ds)
  unfolding insert_by_priority
  All-le-insert_by_priority n d [] h lower = (h, tt)
  All-le-insert_by_priority n d (e ∷ rest) h (a, lower) =
      elim (Bool-cases (ltb d.priority e.priority)) [
        | inl below ↦ rw below (a, All-le-insert_by_priority n d rest h lower)
        | inr above ↦ rw above (h, (a, lower))
      ]

  insert_by_priority-IsSorted :
      (d : DistroDetector S) (ds : List (DistroDetector S))
      → IsSorted ds
      → IsSorted (insert_by_priority d ds)
  unfolding insert_by_priority
  insert_by_priority-IsSorted d [] h = (tt, tt)
  insert_by_priority-IsSorted d (e ∷ rest) (lower, h) =
      elim (Bool-cases (ltb d.priority e.priority)) [
        | inl below ↦ rw below (
          All-le-insert_by_priority e.priority d rest (ground arith) lower,
          insert_by_priority-IsSorted d rest h,
        )
        | inr above ↦
            let le : e.priority ≤ d.priority = ground arith in
            rw above ((le, All-le_trans e.priority d.priority rest le lower), (lower, h))
      ]

  at_priority-insert_by_priority :
      (p : ℕ) (d : DistroDetector S) (ds : List (DistroDetector S))
      → at_priority p (insert_by_priority d ds) ≡ at_priority p (d ∷ ds)
  unfolding insert_by_priority
  at_priority-insert_by_priority p d [] = refl
  at_priority-insert_by_priority p d (e ∷ rest) =
      ground (arith, at_priority-insert_by_priority p d rest)

  sort_by_priority-IsSorted : (ds : List (DistroDetector S)) → IsSorted (sort_by_priority ds)
  unfolding sort_by_priority
  sort_by_priority-IsSorted [] = tt
  sort_by_priority-IsSorted (d ∷ rest) =
      insert_by_priority-IsSorted d (sort_by_priority rest) (sort_by_priority-IsSorted rest)

  at_priority-sort_by_priority :
      (p : ℕ) (ds : List (DistroDetector S))
      → at_priority p (sort_by_priority ds) ≡ at_priority p ds
  unfolding sort_by_priority
  at_priority-sort_by_priority p [] = refl
  at_priority-sort_by_priority p (d ∷ rest) = ground (
    arith,
    at_priority-insert_by_priority p d (sort_by_priority rest),
    at_priority-sort_by_priority p rest,
  )

  -- After a registration the detectors stand in descending order of priority, and those of one
  -- priority stand in the order in which they were registered, the new one last.
  pub register_lem :
      (ds : List (DistroDetector S)) (d : DistroDetector S) (p : ℕ)
      → IsSorted (register ds d) × (at_priority p (register ds d) ≡ at_priority p (ds ++ d ∷ []))
  unfolding register
  register_lem ds d p =
      (sort_by_priority-IsSorted (ds ++ d ∷ []), at_priority-sort_by_priority p (ds ++ d ∷ []))

  none_above {κ} :
      (P : DistroDetector S → Type κ) (n : ℕ) (ds : List (DistroDetector S))
      → All (λ e. e.priority ≤ n) ds
      → All (λ e. (e.priority ≤ n) ⊎ P e) ds
  none_above P n [] lower = tt
  none_above P n (e ∷ rest) (a, lower) = (inl a, none_above P n rest lower)

  module _ (s : S) (mount_path : FilePath) where
    abbrev Declines : DistroDetector S → Type 0
    Declines e = e.can_handle s mount_path ≡ ok false

    detect_cons :
        (e d : DistroDetector S) (rest : List (DistroDetector S))
        → detect (e ∷ rest) s mount_path ≡ ok d
        → ((e.can_handle s mount_path ≡ ok true) × (e ≡ d))
          ⊎ (Declines e × (detect rest s mount_path ≡ ok d))
    unfolding detect
    detect_cons e d rest found = go (e.can_handle s mount_path) refl found
      where
        go :
            (r : Result Bool)
            → e.can_handle s mount_path ≡ r
            → (r >>= λ handles. if handles then ok e else detect rest s mount_path) ≡ ok d
            → ((e.can_handle s mount_path ≡ ok true) × (e ≡ d))
              ⊎ (Declines e × (detect rest s mount_path ≡ ok d))
        go (ok true) eq h = inl (eq, cc)
        go (ok false) eq h = inr (eq, h)
        go (err x) eq h = cc

    -- Of a registry in order, `detect` returns a detector that accepts the image, and every
    -- detector of a higher priority has declined it.
    pub detect_highest :
        (ds : List (DistroDetector S)) (d : DistroDetector S)
        → IsSorted ds
        → detect ds s mount_path ≡ ok d
        → (d.can_handle s mount_path ≡ ok true)
          × All (λ e. (e.priority ≤ d.priority) ⊎ (e.can_handle s mount_path ≡ ok false)) ds
    detect_highest [] d h found = unfold detect in cc
    detect_highest (e ∷ rest) d (lower, h) found = elim (detect_cons e d rest found) [
      | inl (accepts, same) ↦
          subst
            (λ x.
              (x.can_handle s mount_path ≡ ok true)
              × All (λ o. (o.priority ≤ x.priority) ⊎ Declines o) (e ∷ rest))
            same (accepts, (inl (omega arith), none_above Declines e.priority rest lower))
      | inr (declines, later) ↦
          let (accepts, rest_declines) = detect_highest rest d h later in
          (accepts, (inr declines, rest_declines))
    ]
