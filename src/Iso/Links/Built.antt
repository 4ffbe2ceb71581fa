-- ===== src/Iso/Links/Built.antt =====
-- iso/serve_tree.rs: the links of the new tree.
use nixos_router_module.Base.{
  Bool-cases, All, List, [], ap, arith, inl, inr, list_beq_iff, list_eq, nat_eq, none, refl, some,
  subst, sym, true, ◌++◌, ◌==◌, ◌∙◌, ◌∷◌, ◌≡◌,
}
use nixos_router_module.Actions.{>>-eq-ok, Action, attempt, ◌>>◌}
use nixos_router_module.Errors.{
  IoError, IoResult, PxeBootError, Result, err, first_error, io_path, is_ok, map_err, ok,
}
use nixos_router_module.Iso.Discovery.{name_of}
use nixos_router_module.Iso.FirstMatch.{at_name}
use nixos_router_module.Iso.ServeTree.{build_tree, link_all, link_tree, remove_dir_if_exists}
use nixos_router_module.Os.{Os}
use nixos_router_module.Paths.{FilePath, file_name, join_text_path, normal}
use nixos_router_module.Paths.Names.{IsName, file_name-append, join_text_path_name}
use nixos_router_module.Text.{Text}
use nixos_router_module.Iso.Links.{AtMostOne, IsNamed, LinksFiles, head_of, head_or}

pub first_error-cons :
    (r : Result (Unit {0})) (rs : List (Result (Unit {0})))
    → first_error (r ∷ rs) ≡ ok tt
    → (is_ok r ≡ true) × (first_error rs ≡ ok tt)
unfolding first_error
first_error-cons (ok a) rs h = (refl, h)
first_error-cons (err e) rs h = cc

pub is_ok-map_err :
    (f : IoError → PxeBootError) (r : IoResult (Unit {0})) → is_ok (map_err f r) ≡ is_ok r
is_ok-map_err f (ok a) = refl
is_ok-map_err f (err e) = refl

-- A list with one path of a name has no other.
pub at_name-rest :
    (n : Text) (p : FilePath) (rest : List FilePath)
    → AtMostOne n (p ∷ rest)
    → (name_of p == n) ≡ true
    → at_name n rest ≡ []
at_name-rest n p rest once hit = let h = rw hit at once in cc

pub AtMostOne-rest :
    (n : Text) (p : FilePath) (rest : List FilePath) → AtMostOne n (p ∷ rest) → AtMostOne n rest
AtMostOne-rest n p rest once = elim (Bool-cases (name_of p == n)) [
  | inl hit ↦ rw (at_name-rest n p rest once hit) refl
  | inr miss ↦ rw miss at once
]

name_of_lem : (p : FilePath) (name : Text) → file_name p ≡ some name → name_of p ≡ name
unfolding name_of
name_of_lem p name h = rw (h, name_of) refl

module _ (os : Os) (links : LinksFiles os) where
  open links use {target}

  module _ (dir : FilePath) where
    abbrev at : Text → FilePath
    at n = dir ++ normal n ∷ []

    at-injective : (n m : Text) → at n ≡ at m → n ≡ m
    at-injective n m h = cc (ap file_name h, file_name-append dir n, file_name-append dir m)

    -- One link, with its name.
    link_step :
        (p : FilePath) (name n : Text) (rest : List FilePath) (s : os.State)
        → IsName name
        → file_name p ≡ some name
        → AtMostOne n (p ∷ rest)
        → is_ok (os.symlink p (join_text_path dir name) s).0 ≡ true
        → head_or (at_name n rest) (target (os.symlink p (join_text_path dir name) s).1 (at n))
          ≡ head_or (at_name n (p ∷ rest)) (target s (at n))
    link_step p name n rest s is_name named once done = elim (Bool-cases (name_of p == n)) [
      | inl hit ↦
          rw (hit, at_name-rest n p rest once hit)
            (subst (λ q. target (os.symlink p (join_text_path dir name) s).1 q ≡ some p)
              (place ∙ ap at (sym (name_of_lem p name named) ∙ (list_beq_iff (name_of p) n).0 hit))
              (links.link_reads p (join_text_path dir name) s done))
      | inr miss ↦ rw miss (
          ap (head_or (at_name n rest)) (
            links.link_keeps p (join_text_path dir name) (at n) s (λ same.
              let e : name_of p ≡ n =
                name_of_lem p name named ∙ at-injective name n (sym place ∙ same) in
              ground (arith, (list_beq_iff (name_of p) n).1 e))))
    ]
      where
        place : join_text_path dir name ≡ at name
        place = join_text_path_name dir name is_name

    link_all-target :
        (xs : List FilePath) (s : os.State) (n : Text)
        → All IsNamed xs
        → AtMostOne n xs
        → first_error (link_all os dir xs s).0 ≡ ok tt
        → target (link_all os dir xs s).1 (at n) ≡ head_or (at_name n xs) (target s (at n))
    unfolding link_all
    link_all-target [] s n named once done = refl
    link_all-target (p ∷ rest) s n ((name, is_name, e), named) once done =
        let link = join_text_path dir name in
        let (made, more) =
          first_error-cons (map_err (io_path link) (os.symlink p link s).0)
            (link_all os dir rest (os.symlink p link s).1).0 (rw (e, link_all) at done) in
        rw (e, link_all)
          (link_all-target rest (os.symlink p link s).1 n named (AtMostOne-rest n p rest once) more
            ∙ link_step p name n rest s is_name e once
                (sym (is_ok-map_err (io_path link) (os.symlink p link s).0) ∙ made))

    -- After the directory has been removed, if it was there, nothing stands in it.
    remove_dir_if_exists-none :
        (n : Text) (s t : os.State)
        → remove_dir_if_exists os dir s ≡ (ok tt, t)
        → target t (at n) ≡ none
    unfolding remove_dir_if_exists
    remove_dir_if_exists-none n s t done = elim (Bool-cases (os.exists s dir)) [
      | inl there ↦
          let g : ◌≡◌ {A = Result (Unit {0}) × os.State}
              (attempt (io_path dir) (os.remove_dir_all dir) s) (ok tt, t) =
            rw there at done in
          subst (λ u. target u (at n) ≡ none) (ap (λ m. m.1) g)
            (links.remove_clears dir n s (
              sym (is_ok-map_err (io_path dir) (os.remove_dir_all dir s).0)
              ∙ ap (λ m. is_ok m.0) g))
      | inr gone ↦
          let g : ◌≡◌ {A = Result (Unit {0}) × os.State} (ok tt, s) (ok tt, t) = rw gone at done in
          subst (λ u. target u (at n) ≡ none) (ap (λ m. m.1) g) (links.missing dir n s gone)
    ]

    pub build_tree-target :
        (xs : List FilePath) (s t : os.State) (n : Text)
        → All IsNamed xs
        → AtMostOne n xs
        → build_tree os dir xs s ≡ (ok tt, t)
        → target t (at n) ≡ head_of (at_name n xs)
    unfolding build_tree link_tree
    build_tree-target xs s t n named once done =
        let create : Action os.State (Unit {0}) = attempt (io_path dir) (os.create_dir_all dir) in
        let (u, removed, later) =
          >>-eq-ok (remove_dir_if_exists os dir) (create >> link_tree os dir xs) s t done in
        let (v, created, linked) = >>-eq-ok create (link_tree os dir xs) u t later in
        let empty : target v (at n) ≡ none =
          ap (λ m. target m.1 (at n)) (sym created)
          ∙ (links.create_keeps dir (at n) u ∙ remove_dir_if_exists-none n s u removed) in
        ap (λ m. target m.1 (at n)) (sym linked)
        ∙ (link_all-target xs v n named once (ap (λ m. m.0) linked)
            ∙ ap (head_or (at_name n xs)) empty)
