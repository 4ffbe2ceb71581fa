-- ===== src/Grub/Entry/Encode.antt =====
-- grub/entry.rs: `url_encode_segment`. `utf8_percent_encode` writes a byte of the set as `%` and
-- two upper case hexadecimal digits, and leaves every other byte as it is.
use nixos_router_module.Base.{
  Bool, [], flat_map, if◌then◌else◌, leb, list_eq, ltb, nat_eq, ℕ, ◌%◌, ◌&&◌, ◌+◌, ◌-◌, ◌/◌, ◌==◌,
  ◌||◌, ◌∷◌,
}
use nixos_router_module.Text.{Text}

-- What is not in `URL_SEGMENT`: letters, digits and `-_.~`.
abbrev pub is_unreserved : ℕ → Bool
is_unreserved c =
    (leb b'a' c && leb c b'z')
    || (leb b'A' c && leb c b'Z')
    || (leb b'0' c && leb c b'9')
    || c == b'-'
    || c == b'_'
    || c == b'.'
    || c == b'~'

abbrev pub hex_digit : ℕ → ℕ
hex_digit n = if ltb n 10 then b'0' + n else b'A' + (n - 10)

unfoldable pub encode_byte : ℕ → Text
encode_byte c =
    if is_unreserved c then c ∷ [] else b'%' ∷ hex_digit (c / 16) ∷ hex_digit (c % 16) ∷ []

unfoldable pub url_encode_segment : Text → Text
unfolding encode_byte
url_encode_segment s = flat_map encode_byte s
