-- ===== src/Paths/Names.antt =====
-- Paths that are named by a single text.
use nixos_router_module.Base.{
  Bool, [], ap, arith, false, inl, list_beq_iff, list_eq, nat_eq, not, refl, some, true, ℕ, ◌&&◌,
  ◌++◌, ◌==◌, ◌∙◌, ◌∷◌, ◌≡◌, ◌≢◌,
}
use nixos_router_module.Paths.{
  FilePath, component, components, file_name, join, join_text_path, normal, path_of, split_slash,
}
use nixos_router_module.Text.{Text, decimal, starts_with, text}
use nixos_router_module.Text.Digits.{decimal-ne-nil, lacks-decimal}
use nixos_router_module.Text.Replace.{lacks}

split_slash_of_lacks : (s : Text) → lacks b'/' s ≡ true → split_slash s ≡ s ∷ []
unfolding split_slash
split_slash_of_lacks [] h = refl
split_slash_of_lacks (c ∷ s) h = ground (arith, split_slash_of_lacks s)

-- A text without a separator that is neither empty nor made of dots is one name.
pub record IsName (s : Text) : Type 0 where
  pub no_slash : lacks b'/' s ≡ true
  pub nonempty : s ≢ []
  pub not_dot : s ≢ text "."
  pub not_dots : s ≢ text ".."

-- The same as a test.
abbrev pub is_name : Text → Bool
is_name s = lacks b'/' s && (not (s == []) && (not (s == text ".") && not (s == text "..")))

pub IsName-of_is_name : (s : Text) → is_name s ≡ true → IsName s
IsName-of_is_name s h = record {
  no_slash = ground arith;
  nonempty = λ same. ground (arith, (list_beq_iff s []).1 same);
  not_dot = λ same. ground (arith, (list_beq_iff s (text ".")).1 same);
  not_dots = λ same. ground (arith, (list_beq_iff s (text "..")).1 same);
}

starts_with-slash_of_lacks : (s : Text) → lacks b'/' s ≡ true → starts_with s (text "/") ≡ false
starts_with-slash_of_lacks [] h = refl
starts_with-slash_of_lacks (c ∷ s) h = ground arith

starts_with-dot_slash_of_lacks :
    (s : Text) → lacks b'/' s ≡ true → starts_with s (text "./") ≡ false
starts_with-dot_slash_of_lacks [] h = refl
starts_with-dot_slash_of_lacks (c ∷ []) h = ground arith
starts_with-dot_slash_of_lacks (c ∷ d ∷ s) h = ground arith

pub path_of_name : (s : Text) → IsName s → path_of s ≡ normal s ∷ []
unfolding path_of components component
path_of_name s h =
    rw
      (
        starts_with-slash_of_lacks s h.no_slash,
        starts_with-dot_slash_of_lacks s h.no_slash,
        split_slash_of_lacks s h.no_slash,
      )
      (ground (
        arith,
        h.nonempty,
        h.not_dot,
        h.not_dots,
        list_beq_iff s [],
        list_beq_iff s (text "."),
        list_beq_iff s (text ".."),
      ))

pub join-normal : (p : FilePath) (s : Text) → join p (normal s ∷ []) ≡ p ++ normal s ∷ []
unfolding join
join-normal [] s = refl
join-normal (c ∷ p) s = refl

pub join_text_path_name :
    (p : FilePath) (s : Text) → IsName s → join_text_path p s ≡ p ++ normal s ∷ []
unfolding join_text_path
join_text_path_name p s h = ap (join p) (path_of_name s h) ∙ join-normal p s

pub decimal-IsName : (n : ℕ) → IsName (decimal n)
decimal-IsName n = record {
  no_slash = lacks-decimal b'/' n (inl (omega arith));
  nonempty = decimal-ne-nil n;
  not_dot = λ h. cc (lacks-decimal b'.' n (inl (omega arith)));
  not_dots = λ h. cc (lacks-decimal b'.' n (inl (omega arith)));
}

pub file_name-append : (p : FilePath) (s : Text) → file_name (p ++ normal s ∷ []) ≡ some s
unfolding file_name
file_name-append [] s = refl
file_name-append (c ∷ []) s = refl
file_name-append (c ∷ d ∷ p) s = file_name-append (d ∷ p) s

pub file_name-join_text_path :
    (p : FilePath) (s : Text) → IsName s → file_name (join_text_path p s) ≡ some s
file_name-join_text_path p s h = ap file_name (join_text_path_name p s h) ∙ file_name-append p s
