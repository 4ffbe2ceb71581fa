-- ===== src/Iso/Fields.antt =====
-- iso/mount.rs: `unescape_mount_field` against the way the kernel writes a field of /proc/mounts.
use nixos_router_module.Base.{
  list_eq, nat_eq, Bool, Bool-cases, [], arith, flat_map, if◌then◌else◌, inl, inr, list_eq, nat_eq,
  refl, ℕ, ◌%◌, ◌++◌, ◌+◌, ◌/◌, ◌==◌, ◌||◌, ◌∷◌, ◌≡◌, ◌≢◌,
}
use nixos_router_module.Iso.Mount.Field.{unescape_mount_field}
use nixos_router_module.Text.{Text}

-- The bytes that the kernel escapes: space, tab, line end and backslash.
abbrev pub is_escaped : ℕ → Bool
is_escaped c = c == b' ' || c == b'\t' || c == b'\n' || c == b'\\'

-- A backslash and three octal digits.
abbrev pub escape_field_byte : ℕ → Text
escape_field_byte c =
    if is_escaped c
    then b'\\' ∷ (b'0' + c / 64) ∷ (b'0' + c / 8 % 8) ∷ (b'0' + c % 8) ∷ []
    else c ∷ []

unfoldable pub escape_mount_field : Text → Text
escape_mount_field s = flat_map escape_field_byte s

unescape_mount_field_literal :
    (c : ℕ) (t : Text) → c ≢ b'\\' → unescape_mount_field (c ∷ t) ≡ c ∷ unescape_mount_field t
unfolding unescape_mount_field
unescape_mount_field_literal c [] h = refl
unescape_mount_field_literal c (x ∷ []) h = refl
unescape_mount_field_literal c (x ∷ y ∷ []) h = refl
unescape_mount_field_literal c (x ∷ y ∷ z ∷ t) h = ground arith

unescape_mount_field-escape_field_byte :
    (c : ℕ) (t : Text)
    → unescape_mount_field (escape_field_byte c ++ t) ≡ c ∷ unescape_mount_field t
unescape_mount_field-escape_field_byte c t = elim (Bool-cases (is_escaped c)) [
  | inl yes' ↦ unfold unescape_mount_field in rw yes' (ground arith)
  | inr no' ↦ rw no' (unescape_mount_field_literal c t (ground arith))
]

-- A field that the kernel has escaped is read back as the text it was, so a mount point with a
-- space, tab, line end or backslash is found.
pub unescape_mount_field-escape_mount_field :
    (s : Text) → unescape_mount_field (escape_mount_field s) ≡ s
unfolding escape_mount_field
unescape_mount_field-escape_mount_field [] = unfold unescape_mount_field in refl
unescape_mount_field-escape_mount_field (c ∷ s) = rw (
  unescape_mount_field-escape_field_byte c (flat_map escape_field_byte s),
  unescape_mount_field-escape_mount_field s,
)
