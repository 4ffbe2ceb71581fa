-- ===== src/Iso/Order.antt =====
-- iso/discovery.rs: the order of the images that are discovered.
use nixos_router_module.Base.{
  list_eq, nat_eq, Bool-cases, List, [], arith, false, inl, inr, refl, true, ◌∷◌, ◌≡◌,
}
use nixos_router_module.Iso.Discovery.{
  component_leb, discover_isos, insert_path, keep_all, path_leb, sort_paths, text_leb,
}
use nixos_router_module.Os.{Os}
use nixos_router_module.Paths.{
  Component, component_eq, FilePath, component_beq_iff, cur_dir, normal, parent_dir, root_dir,
}
use nixos_router_module.Text.{Text}

text_leb-total : (s t : Text) → text_leb s t ≡ false → text_leb t s ≡ true
unfolding text_leb
text_leb-total [] t h = cc
text_leb-total (c ∷ s) [] h = refl
text_leb-total (c ∷ s) (d ∷ t) h = ground (arith, text_leb-total s t)

component_leb-total : (a b : Component) → component_leb a b ≡ false → component_leb b a ≡ true
unfolding component_leb
component_leb-total (normal s) (normal t) h = text_leb-total s t h
component_leb-total (normal s) root_dir h = refl
component_leb-total (normal s) cur_dir h = refl
component_leb-total (normal s) parent_dir h = refl
component_leb-total root_dir root_dir h = refl
component_leb-total root_dir cur_dir h = cc
component_leb-total root_dir parent_dir h = cc
component_leb-total root_dir (normal t) h = cc
component_leb-total cur_dir root_dir h = refl
component_leb-total cur_dir cur_dir h = refl
component_leb-total cur_dir parent_dir h = cc
component_leb-total cur_dir (normal t) h = cc
component_leb-total parent_dir root_dir h = refl
component_leb-total parent_dir cur_dir h = refl
component_leb-total parent_dir parent_dir h = refl
component_leb-total parent_dir (normal t) h = cc

path_leb-total : (p q : FilePath) → path_leb p q ≡ false → path_leb q p ≡ true
unfolding path_leb
path_leb-total [] q h = cc
path_leb-total (a ∷ p) [] h = refl
path_leb-total (a ∷ p) (b ∷ q) h = ground (
  arith,
  path_leb-total p q,
  component_leb-total a b,
  component_beq_iff a b,
  component_beq_iff b a,
)

-- Each path is not greater than the next.
abbrev pub Ascending : List FilePath → Type 0
Ascending [] = Unit
Ascending (p ∷ []) = Unit
Ascending (p ∷ q ∷ rest) = (path_leb p q ≡ true) × Ascending (q ∷ rest)

insert_path-behind :
    (q p : FilePath) (rest : List FilePath)
    → path_leb q p ≡ true
    → Ascending (q ∷ rest)
    → Ascending (q ∷ insert_path p rest)
unfolding insert_path
insert_path-behind q p [] h k = (h, tt)
insert_path-behind q p (r ∷ rest) h (a, k) = elim (Bool-cases (path_leb p r)) [
  | inl below ↦ rw below (h, (below, k))
  | inr above ↦ rw above (a, insert_path-behind r p rest (path_leb-total p r above) k)
]

insert_path-Ascending :
    (p : FilePath) (ps : List FilePath) → Ascending ps → Ascending (insert_path p ps)
unfolding insert_path
insert_path-Ascending p [] h = tt
insert_path-Ascending p (q ∷ rest) h = elim (Bool-cases (path_leb p q)) [
  | inl below ↦ rw below (below, h)
  | inr above ↦ rw above (insert_path-behind q p rest (path_leb-total p q above) h)
]

sort_paths-Ascending : (ps : List FilePath) → Ascending (sort_paths ps)
unfolding sort_paths
sort_paths-Ascending [] = tt
sort_paths-Ascending (p ∷ rest) =
    insert_path-Ascending p (sort_paths rest) (sort_paths-Ascending rest)

-- The images are discovered in ascending order of their paths, whatever order the folders are read
-- in.
pub discover_isos-Ascending :
    (os : Os) (s : os.State) (folders : List FilePath) → Ascending (discover_isos os s folders)
unfolding discover_isos
discover_isos-Ascending os s folders = sort_paths-Ascending (keep_all os s [] folders)
