-- ===== src/Iso/Links.antt =====
-- iso/serve_tree.rs: how links behave, for the links that stand in the serving tree.
pub mod AnyOrder
pub mod Built
pub mod Failed
pub mod Rebuilt
use nixos_router_module.Base.{
  Bool-cases, All, List, Option, [], ap, arith, false, flat_map, if◌then◌else◌, inl, inr,
  list_beq_iff, list_eq, nat_eq, none, refl, some, subst, sym, true, ◌++◌, ◌==◌, ◌∙◌, ◌∷◌, ◌≡◌, ◌≢◌,
}
use nixos_router_module.Actions.{>>-eq-ok, Action, attempt, ◌>>◌}
use nixos_router_module.Errors.{
  IoError, IoResult, PxeBootError, Result, err, first_error, io_path, is_ok, map_err, ok,
}
use nixos_router_module.Iso.Discovery.{discover_isos, found_in, name_of}
use nixos_router_module.Iso.FirstMatch.{at_name, at_name-discover_isos, first_of}
use nixos_router_module.Iso.ServeTree.{
  build_tree, isos_dir, link_all, link_tree, rebuild, remove_dir_if_exists, swap_tree, tmp_dir_of,
}
use nixos_router_module.Iso.TreeDirs.{new-beside-isos}
use nixos_router_module.Os.{Os}
use nixos_router_module.Paths.{FilePath, file_name, join_text_path, normal, strip_path}
use nixos_router_module.Paths.Names.{IsName, file_name-append, join_text_path_name}
use nixos_router_module.Text.{Text, text}

-- How the system keeps links, where different paths are different places: what a link that stands
-- at a path points to, and how the actions of the program change that.
pub record LinksFiles (os : Os) : Type 0 where
  pub target : os.State → FilePath → Option FilePath
  pub link_reads :
      (dest p : FilePath) (s : os.State)
      → is_ok (os.symlink dest p s).0 ≡ true
      → target (os.symlink dest p s).1 p ≡ some dest
  pub link_keeps :
      (dest p q : FilePath) (s : os.State) → p ≢ q → target (os.symlink dest p s).1 q ≡ target s q
  pub create_keeps :
      (p q : FilePath) (s : os.State) → target (os.create_dir_all p s).1 q ≡ target s q
  pub missing :
      (p : FilePath) (n : Text) (s : os.State)
      → os.exists s p ≡ false
      → target s (p ++ normal n ∷ []) ≡ none
  pub remove_clears :
      (p : FilePath) (n : Text) (s : os.State)
      → is_ok (os.remove_dir_all p s).0 ≡ true
      → target (os.remove_dir_all p s).1 (p ++ normal n ∷ []) ≡ none
  pub remove_keeps :
      (p q : FilePath) (s : os.State)
      → strip_path q p ≡ none
      → target (os.remove_dir_all p s).1 q ≡ target s q
  pub rename_moves :
      (old new : FilePath) (n : Text) (s : os.State)
      → is_ok (os.rename old new s).0 ≡ true
      → target (os.rename old new s).1 (new ++ normal n ∷ []) ≡ target s (old ++ normal n ∷ [])

-- The path ends in the name of one component.
abbrev pub IsNamed : FilePath → Type 0
IsNamed p = (name : Text) × IsName name × (file_name p ≡ some name)

abbrev pub AtMostOne : Text → List FilePath → Type 0
AtMostOne n xs = at_name n xs ≡ first_of (at_name n xs)

-- The first path of a list, or what is given in place of it.
abbrev pub head_or : List FilePath → Option FilePath → Option FilePath
head_or [] d = d
head_or (p ∷ rest) d = some p

abbrev pub head_of : List FilePath → Option FilePath
head_of xs = head_or xs none
