-- ===== src/Paths/Below.antt =====
-- Which paths lie below another one.
use nixos_router_module.Base.{
  Bool, List, [], ap, append_assoc, arith, false, refl, some, true, ℕ, ◌++◌, ◌∙◌, ◌∷◌, ◌≡◌,
}
use nixos_router_module.Paths.{
  FilePath, components, cur_dir, join, join_text_path, normal, parent_dir, path_of, root_dir,
  split_slash, strip_path,
}
use nixos_router_module.Paths.Laws.{strip_path-append}
use nixos_router_module.Text.{Text, starts_with, text, trim_start_matches}

abbrev pub IsBelow : FilePath → FilePath → Type 0
IsBelow base p = (q : FilePath) × (p ≡ base ++ q)

abbrev pub is_absolute : FilePath → Bool
is_absolute (root_dir ∷ p) = true
is_absolute _ = false

pub join-IsBelow : (p q : FilePath) → is_absolute q ≡ false → IsBelow p (join p q)
unfolding join
join-IsBelow p (root_dir ∷ q) h = cc
join-IsBelow [] [] h = ([], refl)
join-IsBelow [] (cur_dir ∷ q) h = (cur_dir ∷ q, refl)
join-IsBelow [] (parent_dir ∷ q) h = (parent_dir ∷ q, refl)
join-IsBelow [] (normal s ∷ q) h = (normal s ∷ q, refl)
join-IsBelow (c ∷ p) [] h = ([], refl)
join-IsBelow (c ∷ p) (cur_dir ∷ q) h = (q, refl)
join-IsBelow (c ∷ p) (parent_dir ∷ q) h = (parent_dir ∷ q, refl)
join-IsBelow (c ∷ p) (normal s ∷ q) h = (normal s ∷ q, refl)

pub IsBelow-trans : (p q r : FilePath) → IsBelow p q → IsBelow q r → IsBelow p r
IsBelow-trans p q r (a, h) (b, k) = (a ++ b, k ∙ (ap (λ t. t ++ b) h ∙ append_assoc p a b))

is_absolute-components : (pieces : List Text) → is_absolute (components pieces) ≡ false
unfolding components
is_absolute-components [] = refl
is_absolute-components (s ∷ rest) = ground (arith, is_absolute-components rest)

pub is_absolute-path_of :
    (s : Text) → starts_with s (text "/") ≡ false → is_absolute (path_of s) ≡ false
unfolding path_of
is_absolute-path_of s h = rw h (ground (arith, is_absolute-components (split_slash s)))

pub starts_with-trim_start_matches :
    (b : ℕ) (s : Text) → starts_with (trim_start_matches b s) (b ∷ []) ≡ false
unfolding trim_start_matches
starts_with-trim_start_matches b [] = refl
starts_with-trim_start_matches b (c ∷ s) = ground (arith, starts_with-trim_start_matches b s)

pub join_text_path-IsBelow :
    (p : FilePath) (s : Text) → starts_with s (text "/") ≡ false → IsBelow p (join_text_path p s)
unfolding join_text_path
join_text_path-IsBelow p s h = join-IsBelow p (path_of s) (is_absolute-path_of s h)

pub strip_path-of_IsBelow :
    (p base : FilePath) → IsBelow base p → (q : FilePath) × (strip_path p base ≡ some q)
strip_path-of_IsBelow p base (q, h) = (q, ap (λ t. strip_path t base) h ∙ strip_path-append base q)
