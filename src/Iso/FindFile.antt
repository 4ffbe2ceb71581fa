-- ===== src/Iso/FindFile.antt =====
-- iso/info.rs: `find_file`. The blocking task that it runs in is taken not to panic.
use nixos_router_module.Base.{
  Bool, List, Option, [], any, false, if◌then◌else◌, list_eq, nat_eq, none, some, ◌&&◌, ◌==◌, ◌||◌,
  ◌∷◌,
}
use nixos_router_module.Errors.{IoResult, Result, err, file_not_found, ok}
use nixos_router_module.Os.{Os}
use nixos_router_module.Paths.{FilePath, display_path, file_name, strip_path}
use nixos_router_module.Text.{Text, to_lowercase}

-- `strip_prefix(&base).unwrap_or(path)`
abbrev pub relative_to : FilePath → FilePath → FilePath
relative_to base path = elim (strip_path path base) [ none ↦ path | some q ↦ q ]

abbrev pub named : Option Text → Text → Bool
named none pattern = false
named (some name) pattern = to_lowercase name == to_lowercase pattern

-- The test inside the loop over the entries, for all patterns.
pub entry_matches : FilePath → List Text → FilePath → Bool
entry_matches base patterns path =
    any
      (λ pattern.
        to_lowercase (display_path (relative_to base path)) == to_lowercase pattern
        || named (file_name path) pattern)
      patterns

module _ (os : Os) (s : os.State) where
  unfoldable pub find_from : FilePath → List Text → List (IoResult FilePath) → Result FilePath
  unfolding entry_matches
  find_from base patterns [] = err (file_not_found base)
  find_from base patterns (err e ∷ rest) = find_from base patterns rest
  find_from base patterns (ok path ∷ rest) =
      let later = find_from base patterns rest in
      if os.is_file s path && entry_matches base patterns path then ok path else later

  unfoldable pub find_file : FilePath → List Text → Result FilePath
  unfolding find_from
  find_file base patterns = find_from base patterns (os.walk s base none)
