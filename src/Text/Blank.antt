-- ===== src/Text/Blank.antt =====
-- Rust's `str::lines`, `split_whitespace` and `trim` on UTF-8 bytes.
use nixos_router_module.Base.{
  Bool, List, [], if◌then◌else◌, leb, list_eq, nat_eq, pred, suc, zero, ℕ, ◌&&◌, ◌==◌, ◌||◌, ◌∷◌,
}
use nixos_router_module.Text.{Text, starts_with}

abbrev pub is_blank : ℕ → Bool
is_blank a = (leb 9 a && leb a 13) || a == 32

-- U+0085 and U+00A0
abbrev pub is_narrow_blank : ℕ → ℕ → Bool
is_narrow_blank a b = a == 194 && (b == 133 || b == 160)

-- U+1680, U+2000 to U+200A, U+2028, U+2029, U+202F, U+205F and U+3000
abbrev pub is_wide_blank : ℕ → ℕ → ℕ → Bool
is_wide_blank a b c =
    (a == 225 && b == 154 && c == 128)
    || (a == 226 && b == 128 && (leb c 138 || c == 168 || c == 169 || c == 175))
    || (a == 226 && b == 129 && c == 159)
    || (a == 227 && b == 128 && c == 128)

-- How many bytes the white space has that a text starts with, 0 if it starts with none.
unfoldable pub blank_length : Text → ℕ
blank_length [] = 0
blank_length (a ∷ []) = if is_blank a then 1 else 0
blank_length (a ∷ b ∷ []) = if is_blank a then 1 else if is_narrow_blank a b then 2 else 0
blank_length (a ∷ b ∷ c ∷ s) =
    if is_blank a
    then 1
    else if is_narrow_blank a b
    then 2
    else if is_wide_blank a b c
    then 3
    else 0

abbrev pub push : ℕ → List Text → List Text
push c [] = (c ∷ []) ∷ []
push c (w ∷ ws) = (c ∷ w) ∷ ws

-- The pieces between white spaces, empty ones too. The number counts the bytes of a white space
-- that are still to be dropped.
unfoldable pub split_from : ℕ → Text → List Text
unfolding blank_length
split_from k [] = [] ∷ []
split_from (suc k) (c ∷ s) = split_from k s
split_from zero (c ∷ s) =
    let n = blank_length (c ∷ s) in
    let rest = split_from (pred n) s in if n == 0 then push c rest else [] ∷ rest

unfoldable pub nonempty_pieces : List Text → List Text
nonempty_pieces [] = []
nonempty_pieces ([] ∷ rest) = nonempty_pieces rest
nonempty_pieces ((c ∷ s) ∷ rest) = (c ∷ s) ∷ nonempty_pieces rest

unfoldable pub split_whitespace : Text → List Text
unfolding split_from nonempty_pieces
split_whitespace s = nonempty_pieces (split_from 0 s)

pub trim_start_from : ℕ → Text → Text
unfolding blank_length
trim_start_from k [] = []
trim_start_from (suc k) (c ∷ s) = trim_start_from k s
trim_start_from zero (c ∷ s) =
    let n = blank_length (c ∷ s) in
    let rest = trim_start_from (pred n) s in if n == 0 then c ∷ s else rest

pub trim_end : Text → Text
unfolding trim_start_from
trim_end [] = []
trim_end (c ∷ s) = let rest = trim_end s in if trim_start_from 0 (c ∷ s) == [] then [] else c ∷ rest

unfoldable pub trim : Text → Text
unfolding trim_end
trim s = trim_end (trim_start_from 0 s)

-- A carriage return goes with the line end that follows it.
unfoldable pub lines : Text → List Text
lines [] = []
lines (c ∷ s) =
    let rest = lines s in
    if c == b'\n'
    then [] ∷ rest
    else if c == b'\r' && starts_with s (b'\n' ∷ [])
    then rest
    else push c rest
