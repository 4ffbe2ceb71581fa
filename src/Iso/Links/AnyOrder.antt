-- ===== src/Iso/Links/AnyOrder.antt =====
-- iso/serve_tree.rs: the links of the serving tree, in whatever order `join_all` makes them.
use nixos_router_module.Base.{
  All, Bool-cases, List, [], ap, ap₂, flat_map, inl, inr, list_beq_iff, list_eq, nat_eq, refl,
  subst, sym, ◌++◌, ◌==◌, ◌∙◌, ◌∷◌, ◌≡◌,
}
use mathlib.Core.HLevel.{hedberg}
use mathlib.Core.List.{Perm, Permᴰ, is_set}
use mathlib.Core.Logic.{∥∥₁_elim}
use nixos_router_module.Errors.{ok}
use nixos_router_module.Iso.Discovery.{discover_isos, found_in, name_of}
use nixos_router_module.Iso.FirstMatch.{at_name, at_name-discover_isos, first_of}
use nixos_router_module.Iso.Links.{AtMostOne, IsNamed, LinksFiles, head_of}
use nixos_router_module.Iso.Links.Built.{AtMostOne-rest}
use nixos_router_module.Iso.Links.Rebuilt.{first_of_twice, head_of-first_of, rebuild-target}
use nixos_router_module.Iso.ServeTree.{isos_dir, rebuild}
use nixos_router_module.Os.{Os}
use nixos_router_module.Paths.{FilePath, component_eq, normal}
use nixos_router_module.Text.{Text}

FilePath-discrete : (p q : FilePath) → Dec (p ≡ q)
FilePath-discrete p q = elim (Bool-cases (p == q)) [
  | inl same ↦ yes ((list_beq_iff p q).0 same)
  | inr other ↦ no (λ e. cc (other, (list_beq_iff p q).1 e))
]

at_name-cons :
    (n : Text) (p : FilePath) (xs ys : List FilePath)
    → at_name n xs ≡ at_name n ys
    → at_name n (p ∷ xs) ≡ at_name n (p ∷ ys)
at_name-cons n p xs ys h = elim (Bool-cases (name_of p == n)) [
  | inl hit ↦ rw hit (ap (λ zs. p ∷ zs) h)
  | inr miss ↦ rw miss h
]

at_name-swap :
    (n : Text) (p q : FilePath) (xs : List FilePath)
    → AtMostOne n (p ∷ q ∷ xs)
    → at_name n (p ∷ q ∷ xs) ≡ at_name n (q ∷ p ∷ xs)
at_name-swap n p q xs once = elim (Bool-cases (name_of p == n)) [
  | inl hit ↦ elim (Bool-cases (name_of q == n)) [
    | inl both ↦ let g = rw (hit, both) at once in cc
    | inr miss ↦ rw (hit, miss) refl
  ]
  | inr miss ↦ rw miss refl
]

-- Of images of which at most one has the name, the order makes no difference.
at_name-Permᴰ :
    (n : Text) (xs ys : List FilePath) → Permᴰ xs ys → AtMostOne n xs → at_name n xs ≡ at_name n ys
at_name-Permᴰ n _ _ Permᴰ.nil once = refl
at_name-Permᴰ n _ _ (Permᴰ.cons {a = a} {b = b} {l₁ = xs} {l₂ = ys} e d) once =
    at_name-cons n a xs ys (at_name-Permᴰ n xs ys d (AtMostOne-rest n a xs once))
    ∙ ap (λ x. at_name n (x ∷ ys)) e
at_name-Permᴰ n _ _ (Permᴰ.swap {a = a} {b = b} {l = xs} e f) once =
    at_name-swap n a b xs once ∙ ap₂ (λ x y. at_name n (x ∷ y ∷ xs)) f e
at_name-Permᴰ n xs zs (Permᴰ.trans {l₂ = ys} d g) once =
    let first = at_name-Permᴰ n xs ys d once in
    first ∙ at_name-Permᴰ n ys zs g (subst (λ l. l ≡ first_of l) first once)

at_name-Perm :
    (n : Text) (xs ys : List FilePath) → Perm xs ys → AtMostOne n xs → at_name n xs ≡ at_name n ys
at_name-Perm n xs ys perm once =
    ∥∥₁_elim perm (is_set (hedberg FilePath-discrete) _ _) (λ d. at_name-Permᴰ n xs ys d once)

-- `rebuild` makes the links of the discovered images concurrently. In whatever order they are made,
-- after a `rebuild` that succeeds the link under a name leads to the first image of that name, in the
-- order of the folders and sorted inside each, and under a name that no image has there is no link,
-- whatever an earlier run left. Links behave as `LinksFiles` says, and every image has a file name.
pub rebuild-Perm :
    (os : Os) (links : LinksFiles os) (root : FilePath) (folders order : List FilePath)
    (s t : os.State) (n : Text)
    → Perm (discover_isos os s folders) order
    → All IsNamed order
    → rebuild os root order s ≡ (ok tt, t)
    → links.target t (isos_dir root ++ normal n ∷ [])
      ≡ head_of (at_name n (flat_map (found_in os s) folders))
rebuild-Perm os links root folders order s t n perm named done =
    let found = at_name-discover_isos os s n folders in
    let once : AtMostOne n (discover_isos os s folders) =
      found ∙ (first_of_twice _ ∙ ap first_of (sym found)) in
    let same = at_name-Perm n (discover_isos os s folders) order perm once in
    rebuild-target os links root order s t n named (subst (λ l. l ≡ first_of l) same once) done
    ∙ (ap head_of (sym same ∙ found)
        ∙ head_of-first_of (at_name n (flat_map (found_in os s) folders)))
