-- ===== src/Text/Digits.antt =====
-- `decimal`: its bytes are digits, and different numbers have different texts.
use nixos_router_module.Base.{
  Bool-cases, [], ap, arith, inl, inr, ltb, refl, suc, sym, true, zero, ℕ, ◌%◌, ◌*◌, ◌++◌, ◌+◌, ◌-◌,
  ◌/◌, ◌<◌, ◌∙◌, ◌∷◌, ◌≡◌, ◌≢◌, ◌⊎◌,
}
use nixos_router_module.Text.{Text, decimal, digits_from}
use nixos_router_module.Text.Replace.{lacks, lacks-append}

-- A byte that is no digit.
abbrev pub IsNoDigit : ℕ → Type 0
IsNoDigit b = (b < b'0') ⊎ (b'9' < b)

lacks-digits_from : (b f n : ℕ) → IsNoDigit b → lacks b (digits_from f n) ≡ true
unfolding digits_from
lacks-digits_from b zero n h = refl
lacks-digits_from b (suc f) n h = elim (Bool-cases (ltb n 10)) [
  | inl small ↦ rw small (ground arith)
  | inr large ↦ rw large (
      lacks-append b (digits_from f (n / 10)) ((b'0' + n % 10) ∷ [])
        (lacks-digits_from b f (n / 10) h) (ground arith))
]

pub lacks-decimal : (b n : ℕ) → IsNoDigit b → lacks b (decimal n) ≡ true
unfolding decimal
lacks-decimal b n h = lacks-digits_from b (suc n) n h

pub decimal-ne-nil : (n : ℕ) → decimal n ≢ []
unfolding decimal digits_from
decimal-ne-nil n h = elim (Bool-cases (ltb n 10)) [
  | inl small ↦ nonempty [] (rw (small, decimal) at h)
  | inr large ↦ nonempty (digits_from n (n / 10)) (rw (large, decimal) at h)
]
  where
    nonempty : (s : Text) → s ++ (b'0' + n % 10) ∷ [] ≢ []
    nonempty [] k = cc
    nonempty (c ∷ s) k = cc

-- The number that digits stand for, from what was read before.
pub value_from : ℕ → Text → ℕ
value_from acc [] = acc
value_from acc (c ∷ s) = value_from (acc * 10 + (c - b'0')) s

value_from-append :
    (acc : ℕ) (s t : Text) → value_from acc (s ++ t) ≡ value_from (value_from acc s) t
unfolding value_from
value_from-append acc [] t = refl
value_from-append acc (c ∷ s) t = value_from-append (acc * 10 + (c - b'0')) s t

value_from-digits_from : (f n : ℕ) → n < f → value_from 0 (digits_from f n) ≡ n
unfolding digits_from value_from
value_from-digits_from zero n h = elim h [ ]
value_from-digits_from (suc f) n h = elim (Bool-cases (ltb n 10)) [
  | inl small ↦ rw small (ground arith)
  | inr large ↦
      rw
        (
          large,
          value_from-append 0 (digits_from f (n / 10)) ((b'0' + n % 10) ∷ []),
          value_from-digits_from f (n / 10) (ground arith),
        )
        (omega arith)
]

-- The digits of a number are read back as the number.
pub value_from-decimal : (n : ℕ) → value_from 0 (decimal n) ≡ n
unfolding decimal
value_from-decimal n = value_from-digits_from (suc n) n (omega arith)

pub decimal-injective : (m n : ℕ) → decimal m ≡ decimal n → m ≡ n
decimal-injective m n h = sym (value_from-decimal m) ∙ (ap (value_from 0) h ∙ value_from-decimal n)
