-- ===== src/Iso/Discovery.antt =====
-- iso/discovery.rs: the search for images in the configured folders. The blocking task that it runs
-- in is taken not to panic.
use nixos_router_module.Base.{
  list_eq, nat_eq, Bool, List, Option, [], any, false, if◌then◌else◌, leb, list_eq, ltb, nat_eq,
  none, some, true, ℕ, ◌&&◌, ◌==◌, ◌∷◌,
}
use nixos_router_module.Errors.{IoResult, err, ok}
use nixos_router_module.Os.{Os}
use nixos_router_module.Paths.{
  Component, component_eq, FilePath, cur_dir, file_name, normal, parent_dir, root_dir,
}
use nixos_router_module.Text.{Text, text, to_lowercase}

-- `Path::extension`: what follows the last dot of the file name, unless nothing is before it.
pub last_dot : Text → Option (Text × Text)
last_dot [] = none
last_dot (c ∷ s) = elim (last_dot s) [
  | some p ↦ some (c ∷ p.0, p.1)
  | none ↦ if c == b'.' then some ([], s) else none
]

abbrev pub after_stem : Option (Text × Text) → Option Text
after_stem none = none
after_stem (some ([], rest)) = none
after_stem (some (c ∷ stem, rest)) = some rest

unfoldable pub extension : FilePath → Option Text
unfolding last_dot
extension path = elim (file_name path) [ none ↦ none | some name ↦ after_stem (last_dot name) ]

abbrev pub is_iso_extension : Option Text → Bool
is_iso_extension none = false
is_iso_extension (some ext) = to_lowercase ext == text "iso"

-- The derived order of components, and that of paths.
abbrev pub component_rank : Component → ℕ
component_rank root_dir = 1
component_rank cur_dir = 2
component_rank parent_dir = 3
component_rank (normal s) = 4

unfoldable pub text_leb : Text → Text → Bool
text_leb [] t = true
text_leb (c ∷ s) [] = false
text_leb (c ∷ s) (d ∷ t) = let rest = text_leb s t in if c == d then rest else ltb c d

unfoldable pub component_leb : Component → Component → Bool
unfolding text_leb
component_leb (normal s) (normal t) = text_leb s t
component_leb a b = leb (component_rank a) (component_rank b)

unfoldable pub path_leb : FilePath → FilePath → Bool
unfolding component_leb
path_leb [] q = true
path_leb (a ∷ p) [] = false
path_leb (a ∷ p) (b ∷ q) = let rest = path_leb p q in if a == b then rest else component_leb a b

unfoldable pub insert_path : FilePath → List FilePath → List FilePath
unfolding path_leb
insert_path p [] = p ∷ []
insert_path p (q ∷ rest) =
    let later = insert_path p rest in if path_leb p q then p ∷ q ∷ rest else q ∷ later

-- `sort`
unfoldable pub sort_paths : List FilePath → List FilePath
unfolding insert_path
sort_paths [] = []
sort_paths (p ∷ rest) = insert_path p (sort_paths rest)

-- `file_name` with `unwrap_or_default`
unfoldable pub name_of : FilePath → Text
name_of path = elim (file_name path) [ none ↦ [] | some name ↦ name ]

module _ (os : Os) (s : os.State) where
  -- The loop over the entries of one folder.
  pub iso_files : List (IoResult FilePath) → List FilePath
  unfolding extension
  iso_files [] = []
  iso_files (err e ∷ rest) = iso_files rest
  iso_files (ok path ∷ rest) =
      let later = iso_files rest in
      if os.is_file s path && is_iso_extension (extension path) then path ∷ later else later

  pub found_in : FilePath → List FilePath
  unfolding iso_files sort_paths
  found_in folder = sort_paths (iso_files (os.walk s folder (some 1)))

-- The map `seen` as the paths in it, the last one first; a path stands under its file name.
abbrev pub has_name : List FilePath → Text → Bool
has_name seen name = any (λ p. name_of p == name) seen

unfoldable pub keep_first : List FilePath → List FilePath → List FilePath
keep_first seen [] = seen
keep_first seen (p ∷ rest) =
    let skipped = keep_first seen rest in
    let kept = keep_first (p ∷ seen) rest in if has_name seen (name_of p) then skipped else kept

module _ (os : Os) (s : os.State) where
  unfoldable pub keep_all : List FilePath → List FilePath → List FilePath
  unfolding found_in keep_first
  keep_all seen [] = seen
  keep_all seen (folder ∷ rest) = keep_all (keep_first seen (found_in os s folder)) rest

  unfoldable pub discover_isos : List FilePath → List FilePath
  unfolding keep_all
  discover_isos iso_folders = sort_paths (keep_all [] iso_folders)
