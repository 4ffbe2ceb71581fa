-- ===== src/Iso/FirstMatch.antt =====
-- iso/discovery.rs: of the images with one file name the first is kept.
use nixos_router_module.Base.{
  list_eq, nat_eq, Bool-cases, List, [], ap, arith, false, flat_map, if◌then◌else◌, inl, inr,
  list_beq_iff, list_eq, nat_eq, refl, subst, sym, true, ◌++◌, ◌==◌, ◌∙◌, ◌∷◌, ◌≡◌,
}
use nixos_router_module.Iso.Discovery.{
  discover_isos, found_in, has_name, insert_path, keep_all, keep_first, name_of, path_leb,
  sort_paths,
}
use nixos_router_module.Os.{Os}
use nixos_router_module.Paths.{FilePath}
use nixos_router_module.Text.{Text}

-- The paths with a file name.
abbrev pub at_name : Text → List FilePath → List FilePath
at_name n [] = []
at_name n (p ∷ rest) = if name_of p == n then p ∷ at_name n rest else at_name n rest

abbrev pub first_of : List FilePath → List FilePath
first_of [] = []
first_of (p ∷ rest) = p ∷ []

abbrev pub first_or : List FilePath → List FilePath → List FilePath
first_or [] ys = first_of ys
first_or (x ∷ xs) ys = x ∷ xs

at_name_of_not_has_name :
    (n : Text) (xs : List FilePath) → has_name xs n ≡ false → at_name n xs ≡ []
at_name_of_not_has_name n [] h = refl
at_name_of_not_has_name n (x ∷ xs) h = ground (arith, at_name_of_not_has_name n xs)

first_or_of_has_name :
    (n : Text) (xs ys zs : List FilePath)
    → has_name xs n ≡ true
    → first_or (at_name n xs) ys ≡ first_or (at_name n xs) zs
first_or_of_has_name n [] ys zs h = cc
first_or_of_has_name n (x ∷ xs) ys zs h = elim (Bool-cases (name_of x == n)) [
  | inl hit ↦ rw hit refl
  | inr miss ↦ rw miss (first_or_of_has_name n xs ys zs (ground arith))
]

first_or-nil : (xs : List FilePath) → first_or xs [] ≡ xs
first_or-nil [] = refl
first_or-nil (x ∷ xs) = refl

at_name-keep_first :
    (n : Text) (seen found : List FilePath)
    → at_name n (keep_first seen found) ≡ first_or (at_name n seen) (at_name n found)
unfolding keep_first
at_name-keep_first n seen [] = sym (first_or-nil (at_name n seen))
at_name-keep_first n seen (p ∷ rest) = elim (Bool-cases (has_name seen (name_of p))) [
  | inl known ↦ elim (Bool-cases (name_of p == n)) [
    | inl hit ↦
        rw (known, hit)
          (at_name-keep_first n seen rest
            ∙ first_or_of_has_name n seen (at_name n rest) (p ∷ at_name n rest)
                (subst (λ m. has_name seen m ≡ true) (same hit) known))
    | inr miss ↦ rw (known, miss) (at_name-keep_first n seen rest)
  ]
  | inr new ↦ elim (Bool-cases (name_of p == n)) [
    | inl hit ↦
        let none_yet : at_name n seen ≡ [] =
          at_name_of_not_has_name n seen (subst (λ m. has_name seen m ≡ false) (same hit) new) in
        rw (new, hit) (at_name-keep_first n (p ∷ seen) rest ∙ rw (hit, none_yet) refl)
    | inr miss ↦ rw (new, miss) (at_name-keep_first n (p ∷ seen) rest ∙ rw miss refl)
  ]
]
  where
    same : (name_of p == n) ≡ true → name_of p ≡ n
    same hit = (list_beq_iff (name_of p) n).0 hit

at_name-append :
    (n : Text) (xs ys : List FilePath) → at_name n (xs ++ ys) ≡ at_name n xs ++ at_name n ys
at_name-append n [] ys = refl
at_name-append n (x ∷ xs) ys = elim (Bool-cases (name_of x == n)) [
  | inl hit ↦ rw hit (ap (λ t. x ∷ t) (at_name-append n xs ys))
  | inr miss ↦ rw miss (at_name-append n xs ys)
]

first_or-first_or :
    (xs ys zs : List FilePath) → first_or (first_or xs ys) zs ≡ first_or xs (ys ++ zs)
first_or-first_or [] [] zs = refl
first_or-first_or [] (y ∷ ys) zs = refl
first_or-first_or (x ∷ xs) ys zs = refl

first_of-first_of : (xs : List FilePath) → first_of (first_of xs) ≡ first_of xs
first_of-first_of [] = refl
first_of-first_of (x ∷ xs) = refl

-- A list with at most one path of the name.
abbrev HasOne : Text → List FilePath → Type 0
HasOne n xs = first_of (at_name n xs) ≡ at_name n xs

at_name_of_first : (p : FilePath) (xs : List FilePath) → first_of (p ∷ xs) ≡ p ∷ xs → xs ≡ []
at_name_of_first p [] h = refl
at_name_of_first p (x ∷ xs) h = cc

HasOne-tail : (xs : List FilePath) → xs ≡ [] → first_of xs ≡ xs
HasOne-tail xs h = rw h refl

at_name-insert_path :
    (n : Text) (p : FilePath) (xs : List FilePath)
    → ((name_of p == n) ≡ true → at_name n xs ≡ [])
    → at_name n (insert_path p xs) ≡ at_name n (p ∷ xs)
unfolding insert_path
at_name-insert_path n p [] h = refl
at_name-insert_path n p (q ∷ rest) h = elim (Bool-cases (path_leb p q)) [
  | inl below ↦ rw below refl
  | inr above ↦ elim (Bool-cases (name_of q == n)) [
    | inl hit ↦
        rw (above, hit)
          (ap (λ t. q ∷ t) (at_name-insert_path n p rest (λ k. absurd (taken hit k))) ∙ behind hit)
    | inr miss ↦
        rw (above, miss) (at_name-insert_path n p rest (λ k. subst (λ t. t ≡ []) (skip miss) (h k)))
  ]
]
  where
    skip : (name_of q == n) ≡ false → at_name n (q ∷ rest) ≡ at_name n rest
    skip miss = rw miss refl

    taken : (name_of q == n) ≡ true → (name_of p == n) ≡ true → ⊥
    taken hit k = ground (arith, h k)

    behind :
        (name_of q == n) ≡ true
        → q ∷ at_name n (p ∷ rest)
          ≡ (if name_of p == n then p ∷ q ∷ at_name n rest else q ∷ at_name n rest)
    behind hit = elim (Bool-cases (name_of p == n)) [
      | inl k ↦ absurd (taken hit k)
      | inr k ↦ rw k refl
    ]

at_name-sort_paths :
    (n : Text) (xs : List FilePath) → HasOne n xs → at_name n (sort_paths xs) ≡ at_name n xs
unfolding sort_paths
at_name-sort_paths n [] one = refl
at_name-sort_paths n (p ∷ xs) one = elim (Bool-cases (name_of p == n)) [
  | inl hit ↦
      let none_left : at_name n xs ≡ [] = at_name_of_first p (at_name n xs) (rw hit at one) in
      let sorted = at_name-sort_paths n xs (HasOne-tail (at_name n xs) none_left) in
      at_name-insert_path n p (sort_paths xs) (λ k. sorted ∙ none_left)
      ∙ rw hit (ap (λ t. p ∷ t) sorted)
  | inr miss ↦
      let sorted = at_name-sort_paths n xs (rw miss at one) in
      at_name-insert_path n p (sort_paths xs) (λ k. absurd (ground arith)) ∙ rw miss sorted
]

module _ (os : Os) (s : os.State) (n : Text) where
  at_name-keep_all :
      (seen : List FilePath) (folders : List FilePath)
      → at_name n (keep_all os s seen folders)
        ≡ first_or (at_name n seen) (at_name n (flat_map (found_in os s) folders))
  unfolding keep_all
  at_name-keep_all seen [] = sym (first_or-nil (at_name n seen))
  at_name-keep_all seen (folder ∷ rest) =
      at_name-keep_all (keep_first seen (found_in os s folder)) rest
      ∙ (ap (λ t. first_or t (at_name n (flat_map (found_in os s) rest)))
            (at_name-keep_first n seen (found_in os s folder))
          ∙ (first_or-first_or (at_name n seen) (at_name n (found_in os s folder)) _
              ∙ ap (first_or (at_name n seen)) (sym (at_name-append n (found_in os s folder) _))))

  -- Of the images that the folders hold under one file name, in the order of the folders and sorted
  -- inside each, the first is discovered and no other, and it is discovered once.
  pub at_name-discover_isos :
      (folders : List FilePath)
      → at_name n (discover_isos os s folders)
        ≡ first_of (at_name n (flat_map (found_in os s) folders))
  unfolding discover_isos
  at_name-discover_isos folders =
      let kept = at_name-keep_all [] folders in
      at_name-sort_paths n (keep_all os s [] folders) (
        ap first_of kept
        ∙ (first_of-first_of (at_name n (flat_map (found_in os s) folders)) ∙ sym kept))
      ∙ kept
