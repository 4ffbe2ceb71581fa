-- ===== src/Paths.antt =====
-- Rust's `Path` and `PathBuf`: a path is its components, which is what equality, order, `join`,
-- `file_name` and `strip_prefix` of the standard library read. Doubled separators are not kept.
pub mod Laws
pub mod Below
pub mod Names
use nixos_router_module.Base.{
  Bool, Eq, List, Option, [], arith, false, if◌then◌else◌, list_beq_iff, list_eq, map, nat_eq, none,
  some, true, ◌++◌, ◌==◌, ◌||◌, ◌↔◌, ◌∷◌, ◌≡◌,
}
use nixos_router_module.Text.{Text, join_text, starts_with, text}

pub data Component : Type 0 where
  root_dir cur_dir parent_dir : Component
  normal : Text → Component

abbrev pub component_beq : Component → Component → Bool
component_beq root_dir root_dir = true
component_beq cur_dir cur_dir = true
component_beq parent_dir parent_dir = true
component_beq (normal a) (normal b) = a == b
component_beq _ _ = false

pub component_beq_iff : (a b : Component) → (component_beq a b ≡ true) ↔ (a ≡ b)
component_beq_iff (normal a) (normal b) = ground (arith, list_beq_iff a b)
component_beq_iff root_dir root_dir = ground arith
component_beq_iff root_dir cur_dir = ground arith
component_beq_iff root_dir parent_dir = ground arith
component_beq_iff root_dir (normal b) = ground arith
component_beq_iff cur_dir root_dir = ground arith
component_beq_iff cur_dir cur_dir = ground arith
component_beq_iff cur_dir parent_dir = ground arith
component_beq_iff cur_dir (normal b) = ground arith
component_beq_iff parent_dir root_dir = ground arith
component_beq_iff parent_dir cur_dir = ground arith
component_beq_iff parent_dir parent_dir = ground arith
component_beq_iff parent_dir (normal b) = ground arith
component_beq_iff (normal a) root_dir = ground arith
component_beq_iff (normal a) cur_dir = ground arith
component_beq_iff (normal a) parent_dir = ground arith

instance abbrev pub component_eq : Eq Component
component_eq = record { beq = component_beq; beq_iff = component_beq_iff }

abbrev pub FilePath : Type 0
FilePath = List Component

-- The pieces between the separators.
pub split_slash : Text → List Text
split_slash [] = [] ∷ []
split_slash (c ∷ s) =
    let rest = split_slash s in
    if c == b'/'
    then [] ∷ rest
    else elim rest [ [] ↦ (c ∷ []) ∷ [] | piece ∷ more ↦ (c ∷ piece) ∷ more ]

pub component : Text → Component
component s = if s == text ".." then parent_dir else normal s

-- The components of pieces that stand behind another piece: empty ones and `.` are dropped.
pub components : List Text → FilePath
unfolding component
components [] = []
components (s ∷ rest) =
    let more = components rest in if s == [] || s == text "." then more else component s ∷ more

-- `Path::new`
unfoldable pub path_of : Text → FilePath
unfolding split_slash components
path_of s =
    if starts_with s (text "/")
    then root_dir ∷ components (split_slash s)
    else if s == text "." || starts_with s (text "./")
    then cur_dir ∷ components (split_slash s)
    else components (split_slash s)

-- `Path::join`: an absolute second path replaces the first, and a `.` in front is dropped
-- unless the first is empty.
unfoldable pub join : FilePath → FilePath → FilePath
join p (root_dir ∷ q) = root_dir ∷ q
join [] q = q
join (c ∷ p) (cur_dir ∷ q) = c ∷ p ++ q
join p q = p ++ q

unfoldable pub join_text_path : FilePath → Text → FilePath
unfolding join path_of
join_text_path p s = join p (path_of s)

-- `Path::file_name`
unfoldable pub file_name : FilePath → Option Text
file_name [] = none
file_name (normal s ∷ []) = some s
file_name (_ ∷ []) = none
file_name (_ ∷ c ∷ p) = file_name (c ∷ p)

-- `Path::strip_prefix`
unfoldable pub strip_path : FilePath → FilePath → Option FilePath
strip_path p [] = some p
strip_path [] (b ∷ base) = none
strip_path (c ∷ p) (b ∷ base) = let rest = strip_path p base in if c == b then rest else none

abbrev pub component_text : Component → Text
component_text root_dir = []
component_text cur_dir = text "."
component_text parent_dir = text ".."
component_text (normal s) = s

-- `Path::display` and `to_string_lossy` of a path with valid UTF-8
unfoldable pub display_path : FilePath → Text
unfolding join_text
display_path (root_dir ∷ []) = text "/"
display_path p = join_text (text "/") (map component_text p)
