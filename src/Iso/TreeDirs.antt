-- ===== src/Iso/TreeDirs.antt =====
-- iso/serve_tree.rs: the two directories of the serving tree.
use nixos_router_module.Base.{
  ==-refl, [], ap, ap₂, append_assoc, false, list_eq, nat_eq, none, refl, some, ◌++◌, ◌==◌, ◌∙◌,
  ◌∷◌, ◌≡◌,
}
use nixos_router_module.Iso.ServeTree.{drop_last, isos_dir, tmp_dir_of, with_file_name}
use nixos_router_module.Paths.{
  Component, FilePath, component_eq, file_name, join_text_path, normal, strip_path,
}
use nixos_router_module.Paths.Names.{
  IsName, IsName-of_is_name, file_name-join_text_path, join_text_path_name,
}
use nixos_router_module.Text.{Text, text}

pub drop_last-append : (p : FilePath) (a : Component) → drop_last (p ++ a ∷ []) ≡ p
drop_last-append [] a = refl
drop_last-append (c ∷ []) a = refl
drop_last-append (c ∷ d ∷ p) a = ap (λ q. c ∷ q) (drop_last-append (d ∷ p) a)

isos-IsName : IsName (text "isos")
isos-IsName = IsName-of_is_name (text "isos") refl

new-IsName : IsName (text "isos.new")
new-IsName = IsName-of_is_name (text "isos.new") refl

pub isos_dir_lem : (root : FilePath) → isos_dir root ≡ root ++ normal (text "isos") ∷ []
isos_dir_lem root = join_text_path_name root (text "isos") isos-IsName

with_file_name-named :
    (p : FilePath) (old name : Text)
    → file_name p ≡ some old
    → with_file_name p name ≡ join_text_path (drop_last p) name
unfolding with_file_name
with_file_name-named p old name h = rw (h, with_file_name) refl

-- The new tree stands beside the old one.
pub tmp_dir_of_lem : (root : FilePath) → tmp_dir_of root ≡ root ++ normal (text "isos.new") ∷ []
tmp_dir_of_lem root =
    with_file_name-named (isos_dir root) (text "isos") (text "isos.new")
      (file_name-join_text_path root (text "isos") isos-IsName)
    ∙ (ap (λ p. join_text_path (drop_last p) (text "isos.new")) (isos_dir_lem root)
        ∙ (ap (λ p. join_text_path p (text "isos.new"))
              (drop_last-append root (normal (text "isos")))
            ∙ join_text_path_name root (text "isos.new") new-IsName))

-- A path beside another one is not below it.
pub strip_path-beside :
    (root q : FilePath) (a b : Component)
    → (b == a) ≡ false
    → strip_path (root ++ b ∷ q) (root ++ a ∷ []) ≡ none
unfolding strip_path
strip_path-beside [] q a b h = rw h refl
strip_path-beside (c ∷ root) q a b h = rw (==-refl c) (strip_path-beside root q a b h)

pub new-beside-isos :
    (root : FilePath) (n : Text)
    → strip_path (tmp_dir_of root ++ normal n ∷ []) (isos_dir root) ≡ none
new-beside-isos root n =
    ap₂ strip_path
      (ap (λ p. p ++ normal n ∷ []) (tmp_dir_of_lem root)
        ∙ append_assoc root (normal (text "isos.new") ∷ []) (normal n ∷ []))
      (isos_dir_lem root)
    ∙ strip_path-beside root (normal n ∷ []) (normal (text "isos")) (normal (text "isos.new")) refl

pub isos-beside-new :
    (root : FilePath) (n : Text)
    → strip_path (isos_dir root ++ normal n ∷ []) (tmp_dir_of root) ≡ none
isos-beside-new root n =
    ap₂ strip_path
      (ap (λ p. p ++ normal n ∷ []) (isos_dir_lem root)
        ∙ append_assoc root (normal (text "isos") ∷ []) (normal n ∷ []))
      (tmp_dir_of_lem root)
    ∙ strip_path-beside root (normal n ∷ []) (normal (text "isos.new")) (normal (text "isos")) refl
