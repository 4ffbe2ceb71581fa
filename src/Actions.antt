-- ===== src/Actions.antt =====
-- Actions of the program on the machine: state passing with the error of error.rs.
use nixos_router_module.Base.{refl, ◌≡◌}
use nixos_router_module.Errors.{IoError, IoResult, PxeBootError, Result, err, map_err, ok}

-- An action of the program: a result, and the machine afterwards.
abbrev pub Action : Type 0 → Type 0 → Type 0
Action S A = S → Result A × S

module _ {S : Type 0} where
  infixl 5 ◌>>=◌ ◌>>◌
  abbrev pub ◌>>=◌ : {A B : Type 0} → Action S A → (A → Action S B) → Action S B
  ◌>>=◌ m f s = let (r, t) = m s in elim r [ ok a ↦ f a t | err e ↦ (err e, t) ]

  abbrev pub ◌>>◌ : {B : Type 0} → Action S (Unit {0}) → Action S B → Action S B
  m >> k = m >>= λ _. k

  abbrev pub pure : {A : Type 0} → A → Action S A
  pure a s = (ok a, s)

  -- an action of the system, with its error converted
  abbrev pub attempt : {A : Type 0} → (IoError → PxeBootError) → (S → IoResult A × S) → Action S A
  attempt f m s = let (r, t) = m s in (map_err f r, t)

  -- `if let Err(e) = m`, which only logs
  abbrev pub ignore_error : Action S (Unit {0}) → Action S (Unit {0})
  ignore_error m s = (ok tt, (m s).1)

-- Both steps of a chain that succeeds have succeeded.
pub >>-eq-ok :
    {S : Type 0} (m k : Action S (Unit {0})) (s u : S)
    → (m >> k) s ≡ (ok tt, u)
    → (t : S) × (m s ≡ (ok tt, t)) × (k t ≡ (ok tt, u))
>>-eq-ok {S} m k s u h = go (m s) refl h
  where
    go :
        (p : Result (Unit {0}) × S)
        → m s ≡ p
        → ◌>>◌ (λ t. p) k s ≡ (ok tt, u)
        → (t : S) × (m s ≡ (ok tt, t)) × (k t ≡ (ok tt, u))
    go (ok a, t) e g = (t, e, g)
    go (err x, t) e g = cc

-- The same for steps with values.
pub >>=-succeeds :
    {S A B : Type 0} (m : Action S A) (f : A → Action S B) (s u : S) (b : B)
    → (m >>= f) s ≡ (ok b, u)
    → (a : A) × (t : S) × (m s ≡ (ok a, t)) × (f a t ≡ (ok b, u))
>>=-succeeds {S} {A} {B} m f s u b h = go (m s) refl h
  where
    go :
        (p : Result A × S)
        → m s ≡ p
        → ◌>>=◌ (λ t. p) f s ≡ (ok b, u)
        → (a : A) × (t : S) × (m s ≡ (ok a, t)) × (f a t ≡ (ok b, u))
    go (ok a, t) e g = (a, t, e, g)
    go (err x, t) e g = cc
