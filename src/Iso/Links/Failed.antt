-- ===== src/Iso/Links/Failed.antt =====
-- iso/serve_tree.rs: the links of the serving tree after a `rebuild` that has failed.
use nixos_router_module.Base.{
  All, Bool-cases, List, [], ap, false, inl, inr, none, refl, sym, true, ◌++◌, ◌∙◌, ◌∷◌, ◌≡◌, ◌≢◌,
  ◌⊎◌,
}
use nixos_router_module.Actions.{Action, attempt, ◌>>◌}
use nixos_router_module.Errors.{PxeBootError, Result, err, io_path, is_ok, ok}
use nixos_router_module.Iso.Links.{IsNamed, LinksFiles}
use nixos_router_module.Iso.Links.Built.{is_ok-map_err}
use nixos_router_module.Iso.ServeTree.{
  build_tree, isos_dir, link_all, link_tree, rebuild, remove_dir_if_exists, swap_tree, tmp_dir_of,
}
use nixos_router_module.Iso.TreeDirs.{isos-beside-new}
use nixos_router_module.Os.{Os}
use nixos_router_module.Paths.{FilePath, join_text_path, normal, strip_path}
use nixos_router_module.Paths.Laws.{strip_path-append}
use nixos_router_module.Paths.Names.{join_text_path_name}
use nixos_router_module.Text.{Text}

-- What failing actions do to links: a removal, which may end half way, takes links away or leaves
-- them, and a renaming that fails changes none.
pub record FailsLinks (os : Os) (links : LinksFiles os) : Type 0 where
  pub remove_takes :
      (p q : FilePath) (s : os.State)
      → (links.target (os.remove_dir_all p s).1 q ≡ links.target s q)
        ⊎ (links.target (os.remove_dir_all p s).1 q ≡ none)
  pub rename_fails :
      (old new q : FilePath) (s : os.State)
      → is_ok (os.rename old new s).0 ≡ false
      → links.target (os.rename old new s).1 q ≡ links.target s q

-- A chain that fails has failed in its first step or in what follows it.
>>-eq-err :
    {S : Type 0} (m k : Action S (Unit {0})) (s u : S) (e : PxeBootError)
    → (m >> k) s ≡ (err e, u)
    → (m s ≡ (err e, u)) ⊎ ((t : S) × (m s ≡ (ok tt, t)) × (k t ≡ (err e, u)))
>>-eq-err {S} m k s u e h = go (m s) refl h
  where
    go :
        (p : Result (Unit {0}) × S)
        → m s ≡ p
        → ◌>>◌ (λ t. p) k s ≡ (err e, u)
        → (m s ≡ (err e, u)) ⊎ ((t : S) × (m s ≡ (ok tt, t)) × (k t ≡ (err e, u)))
    go (ok a, t) same g = inr (t, same, g)
    go (err x, t) same g = inl (same ∙ g)

module _ (os : Os) (links : LinksFiles os) (fails : FailsLinks os links) (root : FilePath)
    (n : Text) where
  open links use {target}

  abbrev tmp_dir : FilePath
  tmp_dir = tmp_dir_of root

  -- Where the link of that name is served.
  abbrev pub served : FilePath
  served = isos_dir root ++ normal n ∷ []

  abbrev KeepsLink : Action os.State (Unit {0}) → Type 0
  KeepsLink m = (s : os.State) → target (m s).1 served ≡ target s served

  KeepsLink->> : (m k : Action os.State (Unit {0})) → KeepsLink m → KeepsLink k → KeepsLink (m >> k)
  KeepsLink->> m k h g s = go (m s) (h s)
    where
      go :
          (p : Result (Unit {0}) × os.State)
          → target p.1 served ≡ target s served
          → target (◌>>◌ (λ t. p) k s).1 served ≡ target s served
      go (ok a, t) e = g t ∙ e
      go (err x, t) e = e

  remove_tmp-KeepsLink : KeepsLink (remove_dir_if_exists os tmp_dir)
  unfolding remove_dir_if_exists
  remove_tmp-KeepsLink s = elim (Bool-cases (os.exists s tmp_dir)) [
    | inl there ↦ rw there (links.remove_keeps tmp_dir served s (isos-beside-new root n))
    | inr gone ↦ rw gone refl
  ]

  link_all-KeepsLink :
      (xs : List FilePath) (s : os.State)
      → All IsNamed xs
      → target (link_all os tmp_dir xs s).1 served ≡ target s served
  unfolding link_all
  link_all-KeepsLink [] s h = refl
  link_all-KeepsLink (p ∷ rest) s ((name, is_name, e), h) =
      let link = join_text_path tmp_dir name in
      rw (e, link_all)
        (link_all-KeepsLink rest (os.symlink p link s).1 h ∙ links.link_keeps p link served s apart)
    where
      apart : join_text_path tmp_dir name ≢ served
      apart same = cc (
        ap (λ q. strip_path q tmp_dir) (sym (join_text_path_name tmp_dir name is_name) ∙ same),
        strip_path-append tmp_dir (normal name ∷ []),
        isos-beside-new root n,
      )

  build_tree-KeepsLink :
      (xs : List FilePath) → All IsNamed xs → KeepsLink (build_tree os tmp_dir xs)
  unfolding build_tree link_tree
  build_tree-KeepsLink xs h =
      let create : Action os.State (Unit {0}) =
        attempt (io_path tmp_dir) (os.create_dir_all tmp_dir) in
      KeepsLink->> (remove_dir_if_exists os tmp_dir) (create >> link_tree os tmp_dir xs)
        remove_tmp-KeepsLink
        (KeepsLink->> create (link_tree os tmp_dir xs) (λ s. links.create_keeps tmp_dir served s)
          (λ s. link_all-KeepsLink xs s h))

  -- The link that was there, or none.
  abbrev Left : os.State → os.State → Type 0
  Left s t = (target t served ≡ target s served) ⊎ (target t served ≡ none)

  Left-same : (s t u : os.State) → target u served ≡ target t served → Left s t → Left s u
  Left-same s t u e (inl h) = inl (e ∙ h)
  Left-same s t u e (inr h) = inr (e ∙ h)

  remove-Left : (dir : FilePath) (s : os.State) → Left s (remove_dir_if_exists os dir s).1
  unfolding remove_dir_if_exists
  remove-Left dir s = elim (Bool-cases (os.exists s dir)) [
    | inl there ↦ rw there (fails.remove_takes dir served s)
    | inr gone ↦ rw gone (inl refl)
  ]

  swap_tree-Left :
      (s t : os.State) (e : PxeBootError)
      → swap_tree os tmp_dir (isos_dir root) s ≡ (err e, t)
      → Left s t
  unfolding swap_tree
  swap_tree-Left s t e h =
      let dir = isos_dir root in
      let move : Action os.State (Unit {0}) = attempt (io_path dir) (os.rename tmp_dir dir) in
      elim (>>-eq-err (remove_dir_if_exists os dir) move s t e h) [
        | inl failed ↦
            Left-same s (remove_dir_if_exists os dir s).1 t
              (ap (λ r. target r.1 served) (sym failed)) (remove-Left dir s)
        | inr (u, removed, moved) ↦
            Left-same s (remove_dir_if_exists os dir s).1 t
              (ap (λ r. target r.1 served) (sym moved)
                ∙ (fails.rename_fails tmp_dir dir served u (
                      sym (is_ok-map_err (io_path dir) (os.rename tmp_dir dir u).0)
                      ∙ ap (λ r. is_ok r.0) moved)
                    ∙ ap (λ r. target r.1 served) (sym removed)))
              (remove-Left dir s)
      ]

  -- After a `rebuild` that has failed, whatever failed, a name has the link that it had, or it has
  -- none although the new tree was built: never a link to another image, and what was served is only
  -- lost between the removal of the old tree and the renaming of the new one. Links behave as
  -- `LinksFiles` and `FailsLinks` say, and every image has a file name.
  pub rebuild-failed :
      (iso_paths : List FilePath) (s t : os.State) (e : PxeBootError)
      → All IsNamed iso_paths
      → rebuild os root iso_paths s ≡ (err e, t)
      → (target t served ≡ target s served)
        ⊎ ((is_ok (build_tree os tmp_dir iso_paths s).0 ≡ true) × (target t served ≡ none))
  unfolding rebuild
  rebuild-failed iso_paths s t e named h =
      let build = build_tree os tmp_dir iso_paths in
      let kept = build_tree-KeepsLink iso_paths named s in
      elim (>>-eq-err build (swap_tree os tmp_dir (isos_dir root)) s t e h) [
        | inl failed ↦ inl (ap (λ r. target r.1 served) (sym failed) ∙ kept)
        | inr (u, built, swapped) ↦ elim (swap_tree-Left u t e swapped) [
          | inl same ↦ inl (same ∙ (ap (λ r. target r.1 served) (sym built) ∙ kept))
          | inr lost ↦ inr (ap (λ r. is_ok r.0) built, lost)
        ]
      ]
