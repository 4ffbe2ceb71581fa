-- ===== src/Iso/Mount/Field.antt =====
-- iso/mount.rs: `unescape_mount_field`. A result that is not UTF-8 is kept as its bytes, where the
-- source puts a replacement character.
use nixos_router_module.Base.{
  Bool, [], if◌then◌else◌, leb, list_eq, ltb, nat_eq, ℕ, ◌&&◌, ◌*◌, ◌+◌, ◌-◌, ◌==◌, ◌∷◌,
}
use nixos_router_module.Text.{Text}

abbrev pub is_octal : ℕ → Bool
is_octal b = leb b'0' b && leb b b'7'

abbrev pub octal_value : ℕ → ℕ → ℕ → ℕ
octal_value a b c = (a - b'0') * 64 + ((b - b'0') * 8 + (c - b'0'))

-- `from_str_radix(..., 8).unwrap_or(bytes[i])`, for a `u8`
abbrev pub octal_byte : ℕ → ℕ → ℕ → ℕ
octal_byte a b c = if ltb (octal_value a b c) 256 then octal_value a b c else b'\\'

-- The loop over the bytes.
unfoldable pub unescape_mount_field : Text → Text
unescape_mount_field [] = []
unescape_mount_field (x ∷ []) = x ∷ []
unescape_mount_field (x ∷ a ∷ []) = x ∷ a ∷ []
unescape_mount_field (x ∷ a ∷ b ∷ []) = x ∷ a ∷ b ∷ []
unescape_mount_field (x ∷ a ∷ b ∷ c ∷ s) =
    let decoded = octal_byte a b c ∷ unescape_mount_field s in
    let literal = x ∷ unescape_mount_field (a ∷ b ∷ c ∷ s) in
    if x == b'\\' && (is_octal a && (is_octal b && is_octal c)) then decoded else literal
