-- ===== src/Autoinstall/Places.antt =====
-- autoinstall/manager.rs: the places of the seeds below the directory of all seeds.
use nixos_router_module.Base.{List, [], ap, ap₂, map, refl, ◌++◌, ◌∙◌, ◌∷◌, ◌≡◌, append_assoc}
use nixos_router_module.Autoinstall.{iso_script_dir}
use nixos_router_module.Paths.{FilePath, join_text_path, normal}
use nixos_router_module.Paths.Laws.{strip_path-append}
use nixos_router_module.Paths.Names.{IsName, join_text_path_name}
use nixos_router_module.Text.{Text, text}

abbrev pub seeds_dir : FilePath → FilePath
seeds_dir runtime_root = join_text_path runtime_root (text "unattented-install")

-- The place with these names below the directory of all seeds.
abbrev pub place : FilePath → List Text → FilePath
place root names = seeds_dir root ++ map normal names

map-normal-injective : (ns ms : List Text) → map normal ns ≡ map normal ms → ns ≡ ms
map-normal-injective [] [] h = refl
map-normal-injective [] (m ∷ ms) h = cc
map-normal-injective (n ∷ ns) [] h = cc
map-normal-injective (n ∷ ns) (m ∷ ms) h =
    let rest : map normal ns ≡ map normal ms = cc in
    let first : n ≡ m = cc in ap₂ (λ x xs. x ∷ xs) first (map-normal-injective ns ms rest)

map-normal-append :
    (ns : List Text) (n : Text) → map normal ns ++ normal n ∷ [] ≡ map normal (ns ++ n ∷ [])
map-normal-append [] n = refl
map-normal-append (m ∷ ns) n = ap (λ p. normal m ∷ p) (map-normal-append ns n)

pub place-injective :
    (root : FilePath) (ns ms : List Text) → place root ns ≡ place root ms → ns ≡ ms
place-injective root ns ms h = map-normal-injective ns ms (
    cc (
      strip_path-append (seeds_dir root) (map normal ns),
      strip_path-append (seeds_dir root) (map normal ms),
    ))

-- One more name.
place-join :
    (root : FilePath) (ns : List Text) (p : FilePath) (n : Text)
    → IsName n
    → p ≡ place root ns
    → join_text_path p n ≡ place root (ns ++ n ∷ [])
place-join root ns p n h e =
    join_text_path_name p n h
    ∙ (ap (λ q. q ++ normal n ∷ []) e
        ∙ (append_assoc (seeds_dir root) (map normal ns) (normal n ∷ [])
            ∙ ap (λ q. seeds_dir root ++ q) (map-normal-append ns n)))

-- The place of a script; of an Ubuntu seed, its directory.
abbrev pub dest : FilePath → Text → Text → FilePath
dest root iso name = join_text_path (iso_script_dir root iso) name

module _ (root : FilePath) (iso name : Text) (iso-IsName : IsName iso)
    (name-IsName : IsName name) where
  pub dir-place : iso_script_dir root iso ≡ place root (iso ∷ [])
  dir-place = join_text_path_name (seeds_dir root) iso iso-IsName

  pub dest-place : dest root iso name ≡ place root (iso ∷ name ∷ [])
  dest-place = place-join root (iso ∷ []) (iso_script_dir root iso) name name-IsName dir-place

  pub file-place :
      (file : Text)
      → IsName file
      → join_text_path (dest root iso name) file ≡ place root (iso ∷ name ∷ file ∷ [])
  file-place file h = place-join root (iso ∷ name ∷ []) (dest root iso name) file h dest-place
