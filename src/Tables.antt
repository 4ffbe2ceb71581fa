-- ===== src/Tables.antt =====
-- Tables under paths, of which the machine in memory is made.
use nixos_router_module.Base.{
  Bool, List, Option, Option-cases, [], any, false, if◌then◌else◌, inl, inr, list_eq, nat_eq, none,
  refl, some, true, ◌++◌, ◌==◌, ◌∷◌, ◌≡◌,
}
use nixos_router_module.Paths.{FilePath, component_eq, strip_path}
use nixos_router_module.Paths.Below.{IsBelow, strip_path-of_IsBelow}
use nixos_router_module.Paths.Laws.{strip_path_sound}

unfoldable pub lies_below : FilePath → FilePath → Bool
unfolding strip_path
lies_below base p = elim (strip_path p base) [ none ↦ false | some q ↦ true ]

pub lies_below-of_IsBelow : (base p : FilePath) → IsBelow base p → lies_below base p ≡ true
unfolding lies_below
lies_below-of_IsBelow base p below =
    let (q, h) = strip_path-of_IsBelow p base below in rw (h, lies_below) refl

pub IsBelow-of_lies_below : (base p : FilePath) → lies_below base p ≡ true → IsBelow base p
unfolding lies_below
IsBelow-of_lies_below base p h = elim (Option-cases (strip_path p base)) [
  | inl k ↦ let g = rw (k, lies_below) at h in cc
  | inr (q, k) ↦ (q, strip_path_sound p base q k)
]

module _ {V : Type 0} where
  -- Whether the table has a path there or below.
  abbrev pub holds_below : FilePath → List (FilePath × V) → Bool
  holds_below base table = any (λ f. lies_below base f.0) table

  unfoldable pub find_entry : FilePath → List (FilePath × V) → Option V
  find_entry p [] = none
  find_entry p ((q, v) ∷ rest) = let later = find_entry p rest in if q == p then some v else later

  -- The entries that do not lie below a directory.
  unfoldable pub outside : FilePath → List (FilePath × V) → List (FilePath × V)
  outside base [] = []
  outside base ((p, v) ∷ rest) =
      let later = outside base rest in if lies_below base p then later else (p, v) ∷ later

  unfoldable pub removed : FilePath → List (FilePath × V) → List (FilePath × V)
  removed path [] = []
  removed path ((p, v) ∷ rest) =
      let later = removed path rest in if p == path then later else (p, v) ∷ later

  unfoldable pub renamed : FilePath → FilePath → List (FilePath × V) → List (FilePath × V)
  unfolding strip_path
  renamed old new [] = []
  renamed old new ((p, v) ∷ rest) =
      let later = renamed old new rest in
      elim (strip_path p old) [ none ↦ (p, v) ∷ later | some q ↦ (new ++ q, v) ∷ later ]
