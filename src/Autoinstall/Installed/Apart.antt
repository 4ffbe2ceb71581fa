-- ===== src/Autoinstall/Installed/Apart.antt =====
-- autoinstall/manager.rs: the places that the tasks of two seeds change.
use nixos_router_module.Base.{List, [], ap, ap₂, map, none, subst, sym, ◌∙◌, ◌∷◌, ◌≡◌, ◌≢◌}
use nixos_router_module.Autoinstall.{iso_script_dir}
use nixos_router_module.Autoinstall.Installed.Tasks.{SeedTask}
use nixos_router_module.Autoinstall.Places.{
  dest, dest-place, dir-place, file-place, place, place-injective, seeds_dir,
}
use nixos_router_module.Autoinstall.Seeds.{meta-IsName, user-IsName}
use nixos_router_module.Paths.{FilePath, join_text_path, normal, strip_path}
use nixos_router_module.Paths.Laws.{strip_path-append}
use nixos_router_module.Paths.Names.{IsName}
use nixos_router_module.Text.{Text, text}

-- The names of the image and of the script are file names.
abbrev pub IsPlaced : SeedTask → Type 0
IsPlaced x = IsName x.iso_name × IsName x.script.name

-- The image and the script of a seed.
abbrev pub key : SeedTask → Text × Text
key x = (x.iso_name, x.script.name)

module _ (root : FilePath) where
  -- The source of a seed is not among the seeds.
  abbrev pub IsOutside : SeedTask → Type 0
  IsOutside x = strip_path x.script.script_path (seeds_dir root) ≡ none

  abbrev pub dir_of : SeedTask → FilePath
  dir_of x = iso_script_dir root x.iso_name

  abbrev pub dest_of : SeedTask → FilePath
  dest_of x = dest root x.iso_name x.script.name

  abbrev pub user_of : SeedTask → FilePath
  user_of x = join_text_path (dest_of x) (text "user-data")

  abbrev pub meta_of : SeedTask → FilePath
  meta_of x = join_text_path (dest_of x) (text "meta-data")

  -- No place that the task changes is this one.
  abbrev pub Untouched : SeedTask → FilePath → Type 0
  Untouched x q = (dir_of x ≢ q) × (dest_of x ≢ q) × (user_of x ≢ q) × (meta_of x ≢ q)

  place-Untouched :
      (x : SeedTask) (q : FilePath)
      → IsPlaced x
      → place root (x.iso_name ∷ []) ≢ q
      → place root (x.iso_name ∷ x.script.name ∷ []) ≢ q
      → ((file : Text) → place root (x.iso_name ∷ x.script.name ∷ file ∷ []) ≢ q)
      → Untouched x q
  place-Untouched x q (h, k) a b c = (
    λ e. a (sym (dir-place root x.iso_name x.script.name h k) ∙ e),
    λ e. b (sym (dest-place root x.iso_name x.script.name h k) ∙ e),
    λ e. c _ (sym (file-place root x.iso_name x.script.name h k _ user-IsName) ∙ e),
    λ e. c _ (sym (file-place root x.iso_name x.script.name h k _ meta-IsName) ∙ e),
  )

  pub outside-Untouched :
      (x : SeedTask) (p : FilePath)
      → IsPlaced x
      → strip_path p (seeds_dir root) ≡ none
      → Untouched x p
  outside-Untouched x p h out =
      place-Untouched x p h (outside (x.iso_name ∷ [])) (outside (x.iso_name ∷ x.script.name ∷ []))
        (λ file. outside (x.iso_name ∷ x.script.name ∷ file ∷ []))
    where
      outside : (ns : List Text) → place root ns ≢ p
      outside ns e = cc (
        ap (λ q. strip_path q (seeds_dir root)) e,
        strip_path-append (seeds_dir root) (map normal ns),
        out,
      )

  differ : (ns ms : List Text) → ns ≢ ms → place root ns ≢ place root ms
  differ ns ms apart e = apart (place-injective root ns ms e)

  same_key :
      (x y : SeedTask) (ns ms : List Text)
      → key y ≢ key x
      → (x.iso_name ∷ x.script.name ∷ ns) ≢ (y.iso_name ∷ y.script.name ∷ ms)
  same_key x y ns ms ne e =
      let iso : x.iso_name ≡ y.iso_name = cc in
      let name : x.script.name ≡ y.script.name = cc in ne (ap₂ (λ a b. (a, b)) (sym iso) (sym name))

  -- What another task leaves alone.
  pub dest-Untouched :
      (x y : SeedTask) → IsPlaced x → IsPlaced y → key y ≢ key x → Untouched x (dest_of y)
  dest-Untouched x y h (i, j) ne =
      subst (Untouched x) (sym (dest-place root y.iso_name y.script.name i j)) (
        place-Untouched x (place root (y.iso_name ∷ y.script.name ∷ [])) h
          (differ (x.iso_name ∷ []) (y.iso_name ∷ y.script.name ∷ []) (λ e. cc))
          (differ (x.iso_name ∷ x.script.name ∷ []) (y.iso_name ∷ y.script.name ∷ [])
            (same_key x y [] [] ne))
          (λ file.
            differ (x.iso_name ∷ x.script.name ∷ file ∷ []) (y.iso_name ∷ y.script.name ∷ [])
              (λ e. cc)))

  pub file-Untouched :
      (x y : SeedTask) (file : Text)
      → IsPlaced x
      → IsPlaced y
      → IsName file
      → key y ≢ key x
      → Untouched x (join_text_path (dest_of y) file)
  file-Untouched x y file h (i, j) k ne =
      let names = y.iso_name ∷ y.script.name ∷ file ∷ [] in
      subst (Untouched x) (sym (file-place root y.iso_name y.script.name i j file k)) (
        place-Untouched x (place root names) h (differ (x.iso_name ∷ []) names (λ e. cc))
          (differ (x.iso_name ∷ x.script.name ∷ []) names (λ e. cc))
          (λ f.
            differ (x.iso_name ∷ x.script.name ∷ f ∷ []) names
              (same_key x y (f ∷ []) (file ∷ []) ne)))
