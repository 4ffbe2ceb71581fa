-- ===== src/Iso/Links/Rebuilt.antt =====
-- iso/serve_tree.rs: the links that stand in the serving tree after `rebuild`.
use nixos_router_module.Base.{
  Bool-cases, All, List, [], ap, inl, inr, list_eq, nat_eq, none, refl, sym, ◌++◌, ◌∙◌, ◌∷◌, ◌≡◌,
}
use nixos_router_module.Actions.{>>-eq-ok, Action, attempt}
use nixos_router_module.Errors.{io_path, is_ok, ok}
use nixos_router_module.Iso.FirstMatch.{at_name, first_of}
use nixos_router_module.Iso.ServeTree.{
  build_tree, isos_dir, rebuild, remove_dir_if_exists, swap_tree, tmp_dir_of,
}
use nixos_router_module.Iso.TreeDirs.{new-beside-isos}
use nixos_router_module.Os.{Os}
use nixos_router_module.Paths.{FilePath, normal, strip_path}
use nixos_router_module.Text.{Text}
use nixos_router_module.Iso.Links.{AtMostOne, IsNamed, LinksFiles, head_of}
use nixos_router_module.Iso.Links.Built.{build_tree-target, is_ok-map_err}

module _ (os : Os) (links : LinksFiles os) where
  open links use {target}

  remove_dir_if_exists-keeps :
      (dir q : FilePath) (s t : os.State)
      → strip_path q dir ≡ none
      → remove_dir_if_exists os dir s ≡ (ok tt, t)
      → target t q ≡ target s q
  unfolding remove_dir_if_exists
  remove_dir_if_exists-keeps dir q s t beside done =
      ap (λ m. target m.1 q) (sym done) ∙ (elim (Bool-cases (os.exists s dir)) [
        | inl there ↦ rw there (links.remove_keeps dir q s beside)
        | inr gone ↦ rw gone refl
      ])

  swap_tree-target :
      (tmp_dir dir : FilePath) (s t : os.State) (n : Text)
      → strip_path (tmp_dir ++ normal n ∷ []) dir ≡ none
      → swap_tree os tmp_dir dir s ≡ (ok tt, t)
      → target t (dir ++ normal n ∷ []) ≡ target s (tmp_dir ++ normal n ∷ [])
  unfolding swap_tree
  swap_tree-target tmp_dir dir s t n beside done =
      let move : Action os.State (Unit {0}) = attempt (io_path dir) (os.rename tmp_dir dir) in
      let (u, removed, moved) = >>-eq-ok (remove_dir_if_exists os dir) move s t done in
      ap (λ m. target m.1 (dir ++ normal n ∷ [])) (sym moved)
      ∙ (links.rename_moves tmp_dir dir n u (
            sym (is_ok-map_err (io_path dir) (os.rename tmp_dir dir u).0)
            ∙ ap (λ m. is_ok m.0) moved)
          ∙ remove_dir_if_exists-keeps dir (tmp_dir ++ normal n ∷ []) s u beside removed)

-- After a `rebuild` that succeeds, whatever an earlier run left, the serving directory has under
-- each name a link to the image with that file name, and none under a name that no image has. Links
-- behave as `LinksFiles` says, every image has a file name, and no two have the same.
pub rebuild-target :
    (os : Os) (links : LinksFiles os) (root : FilePath) (iso_paths : List FilePath) (s t : os.State)
    (n : Text)
    → All IsNamed iso_paths
    → AtMostOne n iso_paths
    → rebuild os root iso_paths s ≡ (ok tt, t)
    → links.target t (isos_dir root ++ normal n ∷ []) ≡ head_of (at_name n iso_paths)
unfolding rebuild
rebuild-target os links root iso_paths s t n named once done =
    let (u, built, swapped) =
      >>-eq-ok (build_tree os (tmp_dir_of root) iso_paths)
        (swap_tree os (tmp_dir_of root) (isos_dir root)) s t done in
    swap_tree-target os links (tmp_dir_of root) (isos_dir root) u t n (new-beside-isos root n)
      swapped
    ∙ build_tree-target os links (tmp_dir_of root) iso_paths s u n named once built

pub head_of-first_of : (xs : List FilePath) → head_of (first_of xs) ≡ head_of xs
head_of-first_of [] = refl
head_of-first_of (p ∷ rest) = refl

pub first_of_twice : (xs : List FilePath) → first_of xs ≡ first_of (first_of xs)
first_of_twice [] = refl
first_of_twice (p ∷ rest) = refl
