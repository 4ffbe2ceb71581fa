-- ===== src/Text/Replace.antt =====
-- `replace` on texts that lack the first byte of the pattern.
use nixos_router_module.Base.{
  Bool, [], all, all-append, arith, list_eq, nat_eq, not, refl, true, ℕ, ◌++◌, ◌==◌, ◌∷◌, ◌≡◌,
}
use nixos_router_module.Text.{Text, replace, replace_from}

abbrev pub lacks : ℕ → Text → Bool
lacks b s = all (λ c. not (c == b)) s

module _ (b : ℕ) (pat rep : Text) where
  pub replace_from-append_of_lacks :
      (s t : Text)
      → lacks b s ≡ true
      → replace_from (b ∷ pat) rep 0 (s ++ t) ≡ s ++ replace_from (b ∷ pat) rep 0 t
  unfolding replace_from
  replace_from-append_of_lacks [] t h = refl
  replace_from-append_of_lacks (c ∷ s) t h = ground (arith, replace_from-append_of_lacks s t)

  pub replace_from_of_lacks : (s : Text) → lacks b s ≡ true → replace_from (b ∷ pat) rep 0 s ≡ s
  unfolding replace_from
  replace_from_of_lacks [] h = refl
  replace_from_of_lacks (c ∷ s) h = ground (arith, replace_from_of_lacks s)

  pub replace_of_lacks : (s : Text) → lacks b s ≡ true → replace s (b ∷ pat) rep ≡ s
  unfolding replace
  replace_of_lacks s h = replace_from_of_lacks s h

  pub replace-append_of_lacks :
      (s t : Text)
      → lacks b s ≡ true
      → replace (s ++ t) (b ∷ pat) rep ≡ s ++ replace t (b ∷ pat) rep
  unfolding replace
  replace-append_of_lacks s t h = replace_from-append_of_lacks s t h

pub lacks-append :
    (b : ℕ) (s t : Text) → lacks b s ≡ true → lacks b t ≡ true → lacks b (s ++ t) ≡ true
lacks-append b s t h k = rw (all-append (λ c. not (c == b)) s t, h, k)
