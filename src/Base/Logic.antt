-- ===== src/Base/Logic.antt =====
-- Boolean tests against the statements that they decide.
use Prim.Native.Nat.{ℕ, zero, suc}
use mathlib.Core.Path.{◌≡◌, refl, ap, subst, sym, ◌∙◌}
use mathlib.Core.Option.{some, some-injective}
use mathlib.Core.Logic.{◌↔◌, ◌≢◌}
use mathlib.Core.Bool.{Bool, true, false, not, ◌&&◌}
use mathlib.Core.List.{List, [], ◌∷◌, map}
use native.Mathlib.Omega.{arith}
use nixos_router_module.Base.Lists.{All, all, get_elem?}
use nixos_router_module.Base.Equality.{Eq, contains}

pub &&-iff : (a b : Bool) → ((a && b) ≡ true) ↔ ((a ≡ true) × (b ≡ true))
&&-iff true b = ground arith
&&-iff false b = ground arith

module _ {ℓ} {A : Type ℓ} (p : A → Bool) where
  pub all-All : (xs : List A) → all p xs ≡ true → All (λ x. p x ≡ true) xs
  all-All [] h = tt
  all-All (x ∷ xs) h = let (a, b) = (&&-iff (p x) (all p xs)).0 h in (a, all-All xs b)

  pub All-all : (xs : List A) → All (λ x. p x ≡ true) xs → all p xs ≡ true
  All-all [] h = refl
  All-all (x ∷ xs) (a, h) = (&&-iff (p x) (all p xs)).1 (a, All-all xs h)

-- No element stands twice.
abbrev pub Distinct {ℓ} : {A : Type ℓ} → List A → Type ℓ
Distinct [] = Unit
Distinct (x ∷ xs) = All (λ y. x ≢ y) xs × Distinct xs

module _ {ℓ} {A : Type ℓ} ⦃e : Eq A⦄ where
  abbrev pub distinct : List A → Bool
  distinct [] = true
  distinct (x ∷ xs) = not (contains xs x) && distinct xs

  pub contains-All : (x : A) (xs : List A) → not (contains xs x) ≡ true → All (λ y. x ≢ y) xs
  contains-All x [] h = tt
  contains-All x (y ∷ ys) h =
      ((λ same. ground (arith, e.beq_iff y x)), contains-All x ys (ground arith))

  pub All-contains : (x : A) (xs : List A) → All (λ y. x ≢ y) xs → not (contains xs x) ≡ true
  All-contains x [] h = refl
  All-contains x (y ∷ ys) (a, h) = ground (arith, e.beq_iff y x, All-contains x ys h)

  pub distinct-Distinct : (xs : List A) → distinct xs ≡ true → Distinct xs
  distinct-Distinct [] h = tt
  distinct-Distinct (x ∷ xs) h =
      let (a, b) = (&&-iff (not (contains xs x)) (distinct xs)).0 h in
      (contains-All x xs a, distinct-Distinct xs b)

  pub Distinct-distinct : (xs : List A) → Distinct xs → distinct xs ≡ true
  Distinct-distinct [] h = refl
  Distinct-distinct (x ∷ xs) (a, h) =
      (&&-iff (not (contains xs x)) (distinct xs)).1 (All-contains x xs a, Distinct-distinct xs h)

pub &&-true : (b : Bool) → (b && true) ≡ b
&&-true true = refl
&&-true false = refl

pub &&-false : (b : Bool) → (b && false) ≡ false
&&-false true = refl
&&-false false = refl

pub All-of_map {ℓ κ μ} :
    {A : Type ℓ} {B : Type κ} (P : B → Type μ) (f : A → B) (xs : List A)
    → All P (map f xs)
    → All (λ x. P (f x)) xs
All-of_map P f [] h = tt
All-of_map P f (x ∷ xs) (a, h) = (a, All-of_map P f xs h)

-- What holds of all elements holds of the one at a position.
pub All-get_elem? {ℓ κ} :
    {A : Type ℓ} (P : A → Type κ) (xs : List A) (k : ℕ) (a : A)
    → All P xs
    → get_elem? xs k ≡ some a
    → P a
All-get_elem? P [] k a h e = cc
All-get_elem? P (x ∷ xs) zero a (h, g) e = subst P (some-injective _ _ e) h
All-get_elem? P (x ∷ xs) (suc k) a (h, g) e = All-get_elem? P xs k a g e

pub All-of_get_elem? {ℓ κ} :
    {A : Type ℓ} (P : A → Type κ) (xs : List A)
    → ((k : ℕ) (a : A) → get_elem? xs k ≡ some a → P a)
    → All P xs
All-of_get_elem? P [] h = tt
All-of_get_elem? P (x ∷ xs) h = (h zero x refl, All-of_get_elem? P xs (λ k a at. h (suc k) a at))

-- Elements at two positions have different images.
pub Distinct-get_elem? {ℓ κ} :
    {A : Type ℓ} {B : Type κ} (f : A → B) (xs : List A) (j k : ℕ) (a b : A)
    → Distinct (map f xs)
    → get_elem? xs j ≡ some a
    → get_elem? xs k ≡ some b
    → j ≢ k
    → f a ≢ f b
Distinct-get_elem? f [] j k a b h d e ne = cc
Distinct-get_elem? f (x ∷ xs) zero zero a b (h, g) d e ne = absurd (ne refl)
Distinct-get_elem? f (x ∷ xs) zero (suc k) a b (h, g) d e ne =
    subst (λ z. f z ≢ f b) (some-injective _ _ d)
      (All-get_elem? (λ y. f x ≢ f y) xs k b (All-of_map (λ z. f x ≢ z) f xs h) e)
Distinct-get_elem? f (x ∷ xs) (suc j) zero a b (h, g) d e ne = λ same.
    All-get_elem? (λ y. f x ≢ f y) xs j a (All-of_map (λ z. f x ≢ z) f xs h) d
      (ap f (some-injective _ _ e) ∙ sym same)
Distinct-get_elem? f (x ∷ xs) (suc j) (suc k) a b (h, g) d e ne =
    Distinct-get_elem? f xs j k a b g d e (λ same. ne (ap suc same))

pub zero-ne-suc : (k : ℕ) → zero ≢ suc k
zero-ne-suc k e = omega arith

pub suc-injective : {j k : ℕ} → suc j ≡ suc k → j ≡ k
suc-injective e = omega arith

pub by_number {ℓ} : (P : ℕ → Type ℓ) → P 0 → ((k : ℕ) → P (suc k)) → (k : ℕ) → P k
by_number P h g zero = h
by_number P h g (suc k) = g k
