-- ===== src/Iso/MountTable/Lines.antt =====
-- iso/mount.rs: a line of /proc/mounts is taken apart into its fields.
use nixos_router_module.Base.{
  &&-iff, Bool, Bool-cases, List, [], all, all-append, ap, arith, false, flat_map, inl, inr,
  list_eq, nat_eq, not, refl, true, false, ℕ, ◌≤◌, ◌+◌, ◌/◌, ◌%◌, ◌++◌, ◌==◌, ◌||◌, ◌∙◌, ◌∷◌, ◌≡◌,
  ◌≢◌,
}
use nixos_router_module.Iso.Fields.{escape_field_byte, escape_mount_field, is_escaped}
use nixos_router_module.Iso.MountTable.{IsPlainMount, Mount, is_plain, mount_line, stays_on_line}
use nixos_router_module.Text.{Text}
use nixos_router_module.Text.Blank.{
  blank_length, lines, nonempty_pieces, push, split_from, split_whitespace,
}

false_of_not : (b : Bool) → not b ≡ true → b ≡ false
false_of_not true h = cc
false_of_not false h = refl

pub lines-append : (l t : Text) → all stays_on_line l ≡ true → lines (l ++ b'\n' ∷ t) ≡ l ∷ lines t
unfolding lines
lines-append [] t h = refl
lines-append (c ∷ l) t h =
    let (stays, later) = (&&-iff (stays_on_line c) (all stays_on_line l)).0 h in
    let (a, b) = (&&-iff (not (c == b'\n')) (not (c == b'\r'))).0 stays in
    rw (false_of_not (c == b'\n') a, false_of_not (c == b'\r') b, lines-append l t later) refl

blank_length-plain : (c : ℕ) (s : Text) → is_plain c ≡ true → blank_length (c ∷ s) ≡ 0
unfolding blank_length
blank_length-plain c [] h = ground arith
blank_length-plain c (x ∷ []) h = ground arith
blank_length-plain c (x ∷ y ∷ s) h = ground arith

blank_length-space : (s : Text) → blank_length (b' ' ∷ s) ≡ 1
unfolding blank_length
blank_length-space [] = refl
blank_length-space (x ∷ []) = refl
blank_length-space (x ∷ y ∷ s) = refl

split_from-append :
    (w t : Text) → all is_plain w ≡ true → split_from 0 (w ++ b' ' ∷ t) ≡ w ∷ split_from 0 t
unfolding split_from
split_from-append [] t h = rw (blank_length-space t) refl
split_from-append (c ∷ w) t h =
    let (plain, later) = (&&-iff (is_plain c) (all is_plain w)).0 h in
    rw (blank_length-plain c (w ++ b' ' ∷ t) plain) (ap (push c) (split_from-append w t later))

nonempty_pieces-cons :
    (w : Text) (rest : List Text) → w ≢ [] → nonempty_pieces (w ∷ rest) ≡ w ∷ nonempty_pieces rest
unfolding nonempty_pieces
nonempty_pieces-cons [] rest h = absurd (h refl)
nonempty_pieces-cons (c ∷ w) rest h = refl

all-impl :
    (p q : ℕ → Bool) (s : Text)
    → ((c : ℕ) → p c ≡ true → q c ≡ true)
    → all p s ≡ true
    → all q s ≡ true
all-impl p q [] imp h = refl
all-impl p q (c ∷ s) imp h =
    let (a, b) = (&&-iff (p c) (all p s)).0 h in
    (&&-iff (q c) (all q s)).1 (imp c a, all-impl p q s imp b)

stays_on_line-plain : (c : ℕ) → is_plain c ≡ true → stays_on_line c ≡ true
stays_on_line-plain c h = ground arith

digit_plain : (d : ℕ) → d ≤ 7 → is_plain (b'0' + d) ≡ true
digit_plain d h = ground arith

escaped_le : (c : ℕ) → is_escaped c ≡ true → c ≤ 92
escaped_le c h = ground arith

escape_field_byte-plain :
    (c : ℕ) → (is_plain c || is_escaped c) ≡ true → all is_plain (escape_field_byte c) ≡ true
escape_field_byte-plain c h = elim (Bool-cases (is_escaped c)) [
  | inl yes' ↦
      let small : c ≤ 92 = escaped_le c yes' in
      rw
        (
          yes',
          digit_plain (c / 64) (omega arith),
          digit_plain (c / 8 % 8) (omega arith),
          digit_plain (c % 8) (omega arith),
        )
        refl
  | inr no' ↦ rw no' (ground arith)
]

escape_mount_field-plain :
    (s : Text)
    → all (λ c. is_plain c || is_escaped c) s ≡ true
    → all is_plain (escape_mount_field s) ≡ true
unfolding escape_mount_field
escape_mount_field-plain [] h = refl
escape_mount_field-plain (c ∷ s) h =
    let (a, b) =
      (&&-iff (is_plain c || is_escaped c) (all (λ d. is_plain d || is_escaped d) s)).0 h in
    all-append is_plain (escape_field_byte c) (flat_map escape_field_byte s)
    ∙ (&&-iff (all is_plain (escape_field_byte c)) (all is_plain (flat_map escape_field_byte s))).1
        (escape_field_byte-plain c a, escape_mount_field-plain s b)

escape_mount_field-nonempty : (s : Text) → s ≢ [] → escape_mount_field s ≢ []
unfolding escape_mount_field
escape_mount_field-nonempty [] h = λ e. h refl
escape_mount_field-nonempty (c ∷ s) h = λ e. elim (Bool-cases (is_escaped c)) [
  | inl yes' ↦ let g = rw yes' at e in cc
  | inr no' ↦ let g = rw no' at e in cc
]

module _ (m : Mount) (plain : IsPlainMount m) where
  abbrev field : Text
  field = escape_mount_field m.point

  pub split_whitespace-mount_line :
      (fields : List Text) × (split_whitespace (mount_line m) ≡ m.device ∷ field ∷ fields)
  unfolding split_whitespace
  split_whitespace-mount_line = (
    nonempty_pieces (split_from 0 m.options),
    ap nonempty_pieces (
          split_from-append m.device (field ++ b' ' ∷ m.options) plain.device_bytes
          ∙ ap (λ rest. m.device ∷ rest)
              (split_from-append field m.options
                (escape_mount_field-plain m.point plain.point_bytes)))
        ∙ (nonempty_pieces-cons m.device (field ∷ split_from 0 m.options) plain.device_nonempty
            ∙ ap (λ rest. m.device ∷ rest)
                (nonempty_pieces-cons field (split_from 0 m.options)
                  (escape_mount_field-nonempty m.point plain.point_nonempty))),
  )

  pub stays_on_line-mount_line : all stays_on_line (mount_line m) ≡ true
  stays_on_line-mount_line =
      all-append stays_on_line m.device (b' ' ∷ (field ++ b' ' ∷ m.options))
      ∙ (&&-iff (all stays_on_line m.device) (all stays_on_line (field ++ b' ' ∷ m.options))).1 (
        all-impl is_plain stays_on_line m.device stays_on_line-plain plain.device_bytes,
        all-append stays_on_line field (b' ' ∷ m.options)
            ∙ (&&-iff (all stays_on_line field) (all stays_on_line m.options)).1 (
              all-impl is_plain stays_on_line field stays_on_line-plain
                  (escape_mount_field-plain m.point plain.point_bytes),
              plain.option_bytes,
            ),
      )
