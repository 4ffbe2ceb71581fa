-- ===== src/Text.antt =====
-- Rust's `str`: a text is its UTF-8 bytes. The methods of the standard library that the program
-- calls, as they act on bytes.
pub mod Replace
pub mod Digits
pub mod Blank
use Prim.Native.Char.{code}
use nixos_router_module.Base.{
  Bool, List, Option, String, [], false, flat_map, if◌then◌else◌, leb, length, ltb, map, nat_eq,
  none, pred, some, suc, true, zero, ℕ, ◌%◌, ◌&&◌, ◌++◌, ◌+◌, ◌/◌, ◌==◌, ◌||◌, ◌∷◌,
}

abbrev pub Text : Type 0
Text = List ℕ

-- The bytes of a literal, which is ASCII wherever the program writes one.
abbrev pub text : String → Text
text String.[] = []
text (String.◌∷◌ c s) = code c ∷ text s

-- `str::starts_with`
abbrev pub starts_with : Text → Text → Bool
starts_with s [] = true
starts_with [] (p ∷ ps) = false
starts_with (c ∷ s) (p ∷ ps) = c == p && starts_with s ps

-- `str::strip_prefix`
unfoldable pub strip_prefix : Text → Text → Option Text
strip_prefix s [] = some s
strip_prefix [] (p ∷ ps) = none
strip_prefix (c ∷ s) (p ∷ ps) = let rest = strip_prefix s ps in if c == p then rest else none

-- `str::contains` with a text
unfoldable pub contains_text : Text → Text → Bool
contains_text [] pat = starts_with [] pat
contains_text (c ∷ s) pat = starts_with (c ∷ s) pat || contains_text s pat

-- The scan of `str::replace`. The number counts the bytes of a match that are still to be dropped.
pub replace_from : Text → Text → ℕ → Text → Text
replace_from pat rep k [] = []
replace_from pat rep (suc k) (c ∷ s) = replace_from pat rep k s
replace_from pat rep zero (c ∷ s) =
    let hit = starts_with (c ∷ s) pat in
    (if hit then rep else c ∷ []) ++ replace_from pat rep (if hit then pred (length pat) else 0) s

-- `str::replace` of a text that is not empty
unfoldable pub replace : Text → Text → Text → Text
unfolding replace_from
replace s pat rep = replace_from pat rep 0 s

-- `str::replace` of one byte
abbrev pub replace_byte : Text → ℕ → Text → Text
replace_byte s b rep = flat_map (λ c. if c == b then rep else c ∷ []) s

-- `to_lowercase` on the ASCII letters; other bytes stay.
abbrev pub to_lower : ℕ → ℕ
to_lower c = if leb b'A' c && leb c b'Z' then c + 32 else c

unfoldable pub to_lowercase : Text → Text
to_lowercase = map to_lower

-- `str::split_once` with one byte
pub split_once : ℕ → Text → Option (Text × Text)
split_once b [] = none
split_once b (c ∷ s) =
    let rest = split_once b s in
    if c == b then some ([], s) else elim rest [ none ↦ none | some p ↦ some (c ∷ p.0, p.1) ]

-- `str::trim_start_matches` with one byte
unfoldable pub trim_start_matches : ℕ → Text → Text
trim_start_matches b [] = []
trim_start_matches b (c ∷ s) = let rest = trim_start_matches b s in if c == b then rest else c ∷ s

-- `slice::join`
unfoldable pub join_text : Text → List Text → Text
join_text sep [] = []
join_text sep (s ∷ []) = s
join_text sep (s ∷ r ∷ rest) = s ++ (sep ++ join_text sep (r ∷ rest))

-- The decimal digits of a number, by the fuel, which is more than the number.
pub digits_from : ℕ → ℕ → Text
digits_from zero n = []
digits_from (suc f) n =
    let rest = digits_from f (n / 10) in (if ltb n 10 then [] else rest) ++ (b'0' + n % 10) ∷ []

-- `Display` of an unsigned integer
pub decimal : ℕ → Text
unfolding digits_from
decimal n = digits_from (suc n) n
