-- ===== src/Grub/Escape.antt =====
-- grub/menu.rs: `escape_grub_string` against a reader of GRUB's double quoted strings.
use nixos_router_module.Base.{
  Bool, Option, [], append_assoc, arith, false, if◌then◌else◌, list_eq, map, nat_eq, none, refl,
  some, true, ℕ, ◌++◌, ◌==◌, ◌||◌, ◌∷◌, ◌≡◌,
}
use nixos_router_module.Grub.Menu.{blank_newline, escape_grub_string}
use nixos_router_module.Text.{Text, text}

abbrev pub cons_read : ℕ → Option (Text × Text) → Option (Text × Text)
cons_read c none = none
cons_read c (some (s, rest)) = some (c ∷ s, rest)

-- What stands between a quote that was opened and the quote that closes it, and what follows.
-- A line must not end inside. The flag is set behind a backslash, which only escapes itself and a
-- quote. Variables are not expanded.
unfoldable pub read_quoted : Bool → Text → Option (Text × Text)
read_quoted escaped [] = none
read_quoted true (c ∷ s) =
    let literal = cons_read c (read_quoted false s) in
    let both = cons_read b'\\' literal in if c == b'\\' || c == b'"' then literal else both
read_quoted false (c ∷ s) =
    let escaped = read_quoted true s in
    let plain = cons_read c (read_quoted false s) in
    if c == b'"'
    then some ([], s)
    else if c == b'\n' || c == b'\r'
    then none
    else if c == b'\\'
    then escaped
    else plain

abbrev escape_byte : ℕ → Text
escape_byte c =
    if c == b'\\' then text "\\\\" else if c == b'"' then text "\\\"" else blank_newline c ∷ []

escape_grub_string-cons :
    (c : ℕ) (s : Text) → escape_grub_string (c ∷ s) ≡ escape_byte c ++ escape_grub_string s
unfolding escape_grub_string
escape_grub_string-cons c s = ground arith

read_quoted-escape_byte :
    (c : ℕ) (t : Text)
    → read_quoted false (escape_byte c ++ t) ≡ cons_read (blank_newline c) (read_quoted false t)
unfolding read_quoted
read_quoted-escape_byte c t = ground arith

-- An escaped text, with a quote behind it, is read as one string: the text with its line ends
-- blanked. The reader stops at that quote, whatever the text. It does not expand variables.
pub read_quoted-escape_grub_string :
    (s rest : Text)
    → read_quoted false (escape_grub_string s ++ b'"' ∷ rest) ≡ some (map blank_newline s, rest)
read_quoted-escape_grub_string [] rest = unfold read_quoted escape_grub_string in refl
read_quoted-escape_grub_string (c ∷ s) rest = rw (
  escape_grub_string-cons c s,
  append_assoc,
  read_quoted-escape_byte,
  read_quoted-escape_grub_string s rest,
)
