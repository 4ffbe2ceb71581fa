-- ===== src/Grub/Header.antt =====
-- grub/menu.rs: the line of a menu that sets the default entry, as a reader finds it.
use nixos_router_module.Base.{
  Bool, Option, [], ap, arith, if◌then◌else◌, list_eq, nat_eq, none, refl, some, true, ℕ, ◌&&◌,
  ◌++◌, ◌==◌, ◌∙◌, ◌∷◌, ◌≡◌, ap₂, append_assoc, false, inl, suc, zero,
}
use nixos_router_module.Grub.Menu.{default_line, override_check, preamble, timeout_lines}
use nixos_router_module.Text.{Text, decimal, starts_with, text}
use nixos_router_module.Text.Digits.{lacks-decimal, value_from, value_from-decimal}
use nixos_router_module.Text.Replace.{lacks}

pub take_line : Text → Text
take_line [] = []
take_line (c ∷ s) = let more = take_line s in if c == 10 then [] else c ∷ more

pub drop_line : Text → Text
drop_line [] = []
drop_line (c ∷ s) = let more = drop_line s in if c == 10 then s else more

pub skip : ℕ → Text → Text
skip zero s = s
skip (suc n) [] = []
skip (suc n) (c ∷ s) = skip n s

-- The first line that sets the default, or is the comment in its place: the position that it sets,
-- if it does, and the text behind the line. The flag says that a line begins.
pub find_default : Bool → Text → Option (Option ℕ × Text)
unfolding take_line drop_line skip
find_default begins [] = none
find_default begins (c ∷ s) =
    let later = find_default (c == 10) s in
    if begins && starts_with (c ∷ s) (text "set default=")
    then some (some (value_from 0 (take_line (skip 11 s))), drop_line s)
    else if begins && starts_with (c ∷ s) (text "# set default=")
    then some (none, drop_line s)
    else later

take_line-append : (s t : Text) → lacks 10 s ≡ true → take_line (s ++ 10 ∷ t) ≡ s
unfolding take_line
take_line-append [] t h = refl
take_line-append (c ∷ s) t h = ground (arith, take_line-append s t)

drop_line-append : (s t : Text) → lacks 10 s ≡ true → drop_line (s ++ 10 ∷ t) ≡ t
unfolding drop_line
drop_line-append [] t h = refl
drop_line-append (c ∷ s) t h = ground (arith, drop_line-append s t)

find_default-append :
    (s t : Text) → lacks 10 s ≡ true → find_default false (s ++ t) ≡ find_default false t
unfolding find_default
find_default-append [] t h = refl
find_default-append (c ∷ s) t h = ground (arith, find_default-append s t)

-- No digit ends a line.
lacks_line_end : (n : ℕ) → lacks 10 (decimal n) ≡ true
lacks_line_end n = lacks-decimal 10 n (inl (omega arith))

find_default-some :
    (n : ℕ) (body : Text)
    → find_default true (default_line (some n) ++ body) ≡ some (some n, 10 ∷ body)
unfolding find_default skip
find_default-some n body = rw append_assoc (
    ap₂ (λ v rest. some (some v, rest))
      (ap (value_from 0) (take_line-append (decimal n) (10 ∷ body) (lacks_line_end n))
        ∙ value_from-decimal n)
      (drop_line-append (decimal n) (10 ∷ body) (lacks_line_end n)))

find_default-line :
    (position : Option ℕ) (body : Text)
    → find_default true (default_line position ++ body) ≡ some (position, 10 ∷ body)
unfolding find_default drop_line
find_default-line none body = refl
find_default-line (some n) body = find_default-some n body

find_default-timeout :
    (timeout : Option ℕ) (rest : Text)
    → find_default true (timeout_lines timeout ++ rest) ≡ find_default true rest
unfolding find_default
find_default-timeout none rest = refl
find_default-timeout (some k) rest =
    let tail = text "\nfi\n\n" in
    let middle = text "\nelse\n  set timeout=" in
    ap (find_default false) (append_assoc (decimal k) (middle ++ (decimal k ++ tail)) rest)
    ∙ (find_default-append (decimal k) ((middle ++ (decimal k ++ tail)) ++ rest) (lacks_line_end k)
        ∙ (ap (find_default false) (append_assoc (decimal k) tail rest)
            ∙ find_default-append (decimal k) (tail ++ rest) (lacks_line_end k)))

-- In the header of a menu, whatever its timeout, that line is the one for its default.
pub find_default-header :
    (timeout position : Option ℕ) (body : Text)
    → find_default true
        (preamble ++ (override_check ++ (timeout_lines timeout ++ (default_line position ++ body))))
      ≡ some (position, 10 ∷ body)
unfolding find_default
find_default-header timeout position body =
    find_default-timeout timeout (default_line position ++ body) ∙ find_default-line position body
