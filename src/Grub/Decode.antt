-- ===== src/Grub/Decode.antt =====
-- grub/entry.rs: `url_encode_segment` against a decoder, and the alphabet of its result.
use nixos_router_module.Base.{
  All, Bool, Bool-cases, [], all, all-append, ap, append_assoc, arith, flat_map, if◌then◌else◌, inl,
  inr, leb, list_eq, nat_eq, refl, true, ℕ, ◌&&◌, ◌*◌, ◌++◌, ◌+◌, ◌-◌, ◌<◌, ◌==◌, ◌||◌, ◌∙◌, ◌∷◌,
  ◌≡◌, ◌≢◌,
}
use nixos_router_module.Grub.Entry.Encode.{encode_byte, is_unreserved, url_encode_segment}
use nixos_router_module.Text.{Text}
use nixos_router_module.Text.Replace.{lacks}

abbrev hex_value : ℕ → ℕ
hex_value d = if leb d b'9' then d - b'0' else d - 55

-- Percent decoding, as an HTTP server does it.
pub url_decode : Text → Text
url_decode [] = []
url_decode (c ∷ []) = c ∷ []
url_decode (c ∷ h ∷ []) = c ∷ h ∷ []
url_decode (c ∷ h ∷ l ∷ s) =
    let byte = (hex_value h * 16 + hex_value l) ∷ url_decode s in
    let literal = c ∷ url_decode (h ∷ l ∷ s) in if c == b'%' then byte else literal

abbrev pub IsByte : ℕ → Type 0
IsByte c = c < 256

url_decode_literal : (c : ℕ) (t : Text) → c ≢ b'%' → url_decode (c ∷ t) ≡ c ∷ url_decode t
unfolding url_decode
url_decode_literal c [] h = refl
url_decode_literal c (a ∷ []) h = refl
url_decode_literal c (a ∷ b ∷ t) h = ground arith

url_decode-encode_byte :
    (c : ℕ) (t : Text) → c < 256 → url_decode (encode_byte c ++ t) ≡ c ∷ url_decode t
url_decode-encode_byte c t h = elim (Bool-cases (is_unreserved c)) [
  | inl yes' ↦ unfold encode_byte in rw yes' (url_decode_literal c t (ground arith))
  | inr no' ↦ unfold encode_byte url_decode in rw no' (ground arith)
]

-- Percent decoding gets every text of bytes back from its encoding.
pub url_decode-url_encode_segment :
    (s : Text) → All IsByte s → url_decode (url_encode_segment s) ≡ s
unfolding url_encode_segment
url_decode-url_encode_segment [] h = unfold url_decode in refl
url_decode-url_encode_segment (c ∷ s) (b, h) =
    rw (url_decode-encode_byte c (flat_map encode_byte s) b, url_decode-url_encode_segment s h)

-- The same in front of another text.
pub url_decode-append_url_encode_segment :
    (s t : Text) → All IsByte s → url_decode (url_encode_segment s ++ t) ≡ s ++ url_decode t
unfolding url_encode_segment
url_decode-append_url_encode_segment [] t h = refl
url_decode-append_url_encode_segment (c ∷ s) t (b, h) = rw (
  append_assoc (encode_byte c) (flat_map encode_byte s) t,
  url_decode-encode_byte c (flat_map encode_byte s ++ t) b,
  url_decode-append_url_encode_segment s t h,
)

pub url_decode-append_of_lacks :
    (s t : Text) → lacks b'%' s ≡ true → url_decode (s ++ t) ≡ s ++ url_decode t
url_decode-append_of_lacks [] t h = refl
url_decode-append_of_lacks (c ∷ s) t h =
    url_decode_literal c (s ++ t) (ground arith)
    ∙ ap (λ u. c ∷ u) (url_decode-append_of_lacks s t (ground arith))

-- The unreserved characters of RFC 3986, by their codes, and the percent sign: `-`, `.`, the digits,
-- the capitals, `_`, the small letters and `~`.
abbrev pub is_url_safe : ℕ → Bool
is_url_safe c =
    c == 37
    || (leb 45 c && leb c 46)
    || (leb 48 c && leb c 57)
    || (leb 65 c && leb c 90)
    || c == 95
    || (leb 97 c && leb c 122)
    || c == 126

is_url_safe-unreserved : (c : ℕ) → is_unreserved c ≡ true → is_url_safe c ≡ true
is_url_safe-unreserved c h = ground arith

all-is_url_safe-encode_byte : (c : ℕ) → c < 256 → all is_url_safe (encode_byte c) ≡ true
unfolding encode_byte
all-is_url_safe-encode_byte c h = elim (Bool-cases (is_unreserved c)) [
  | inl yes' ↦ rw (yes', is_url_safe-unreserved c yes') refl
  | inr no' ↦ rw no' (ground arith)
]

-- A text of bytes is encoded with the unreserved characters of RFC 3986 and percent signs only:
-- letters, digits and `-_.~%`.
pub all-is_url_safe-url_encode_segment :
    (s : Text) → All IsByte s → all is_url_safe (url_encode_segment s) ≡ true
unfolding url_encode_segment
all-is_url_safe-url_encode_segment [] h = refl
all-is_url_safe-url_encode_segment (c ∷ s) (b, h) = rw (
  all-append is_url_safe (encode_byte c) (flat_map encode_byte s),
  all-is_url_safe-encode_byte c b,
  all-is_url_safe-url_encode_segment s h,
)
