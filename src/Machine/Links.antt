-- ===== src/Machine/Links.antt =====
-- The links of the machine in memory.
use nixos_router_module.Base.{
  ==-refl, Bool, Bool-cases, List, Option-cases, [], ap, arith, false, if◌then◌else◌, inl, inr,
  list_beq_iff, list_eq, nat_eq, none, refl, some, sym, true, ◌++◌, ◌==◌, ◌||◌, ◌∙◌, ◌∷◌, ◌≡◌, ◌≢◌,
}
use nixos_router_module.Errors.{is_ok}
use nixos_router_module.Iso.Links.{LinksFiles}
use nixos_router_module.Machine.{Machine, machine, moved, present}
use nixos_router_module.Paths.{FilePath, component_eq, normal, strip_path}
use nixos_router_module.Paths.Below.{strip_path-of_IsBelow}
use nixos_router_module.Paths.Laws.{strip_path-append, strip_path_sound}
use nixos_router_module.Tables.{
  IsBelow-of_lies_below, find_entry, holds_below, lies_below, lies_below-of_IsBelow, outside,
  renamed,
}

beq_of_ne : (p q : FilePath) → p ≢ q → (p == q) ≡ false
beq_of_ne p q h = ground (arith, list_beq_iff p q)

beq-append : (a q x : FilePath) → (a ++ q == a ++ x) ≡ (q == x)
beq-append [] q x = refl
beq-append (c ∷ a) q x = rw (==-refl c) (beq-append a q x)

lies_below-eq : (p q : FilePath) (x : FilePath) → lies_below p q ≡ false → q ≢ p ++ x
lies_below-eq p q x h same = cc (h, lies_below-of_IsBelow p q (x, same))

apart : (p q f : FilePath) → strip_path q p ≡ none → lies_below p f ≡ true → f ≢ q
apart p q f h below same =
    let (x, e) = IsBelow-of_lies_below p f below in
    let (y, k) = strip_path-of_IsBelow q p (x, sym same ∙ e) in cc (h, k)

pub or_false : (a b : Bool) → (a || b) ≡ false → (a ≡ false) × (b ≡ false)
or_false a b h = ground arith

module _ {V : Type 0} where
  pub find_entry-none :
      (p x : FilePath) (table : List (FilePath × V))
      → holds_below p table ≡ false
      → find_entry (p ++ x) table ≡ none
  unfolding find_entry
  find_entry-none p x [] h = refl
  find_entry-none p x ((q, v) ∷ rest) h =
      let (first, later) = or_false (lies_below p q) (holds_below p rest) h in
      rw (beq_of_ne q (p ++ x) (lies_below-eq p q x first)) (find_entry-none p x rest later)

  pub holds_below-outside :
      (p : FilePath) (table : List (FilePath × V)) → holds_below p (outside p table) ≡ false
  unfolding outside
  holds_below-outside p [] = refl
  holds_below-outside p ((q, v) ∷ rest) = elim (Bool-cases (lies_below p q)) [
    | inl h ↦ rw h (holds_below-outside p rest)
    | inr h ↦ rw h (rw h (holds_below-outside p rest))
  ]

  pub find_entry-outside :
      (p q : FilePath) (table : List (FilePath × V))
      → strip_path q p ≡ none
      → find_entry q (outside p table) ≡ find_entry q table
  unfolding outside find_entry
  find_entry-outside p q [] h = refl
  find_entry-outside p q ((f, v) ∷ rest) h = elim (Bool-cases (lies_below p f)) [
    | inl below ↦
        rw (below, beq_of_ne f q (λ same. apart p q f h below same)) (find_entry-outside p q rest h)
    | inr other ↦ rw other (ap (λ r. if f == q then some v else r) (find_entry-outside p q rest h))
  ]

  find_entry-renamed :
      (old new x : FilePath) (table : List (FilePath × V))
      → holds_below new table ≡ false
      → find_entry (new ++ x) (renamed old new table) ≡ find_entry (old ++ x) table
  unfolding renamed find_entry
  find_entry-renamed old new x [] h = refl
  find_entry-renamed old new x ((p, v) ∷ rest) h =
      let (first, later) = or_false (lies_below new p) (holds_below new rest) h in
      elim (Option-cases (strip_path p old)) [
        | inl outer ↦
            rw
              (
                outer,
                renamed,
                beq_of_ne p (new ++ x) (lies_below-eq new p x first),
                beq_of_ne p (old ++ x)
                    (λ same. cc (ap (λ r. strip_path r old) same, strip_path-append old x, outer)),
              )
              (find_entry-renamed old new x rest later)
        | inr (q, inner) ↦
            rw
              (
                inner,
                renamed,
                strip_path_sound p old q inner,
                beq-append new q x,
                beq-append old q x,
              )
              (ap (λ r. if q == x then some v else r) (find_entry-renamed old new x rest later))
      ]

pub moved_target :
    (old new x : FilePath) (m : Machine) (taken : Bool)
    → taken ≡ present new m
    → is_ok (moved old new taken m).0 ≡ true
    → find_entry (new ++ x) (moved old new taken m).1.links ≡ find_entry (old ++ x) m.links
unfolding moved
moved_target old new x m true h done = cc
moved_target old new x m false h done =
    find_entry-renamed old new x m.links
      (or_false (holds_below new m.files) (holds_below new m.links) (sym h)).1

pub link_found :
    (dest p : FilePath) (links : List (FilePath × FilePath))
    → find_entry p ((p, dest) ∷ links) ≡ some dest
unfolding find_entry
link_found dest p links = rw (==-refl p) refl

pub link_passed :
    (dest p q : FilePath) (links : List (FilePath × FilePath))
    → p ≢ q
    → find_entry q ((p, dest) ∷ links) ≡ find_entry q links
unfolding find_entry
link_passed dest p q links h = rw (beq_of_ne p q h) refl

abbrev pub machine_links : LinksFiles machine
machine_links = record {
  target = λ m p. find_entry p m.links;
  link_reads = λ dest p m h. link_found dest p m.links;
  link_keeps = λ dest p q m h. link_passed dest p q m.links h;
  create_keeps = λ p q m. refl;
  missing = λ p n m h.
      find_entry-none p (normal n ∷ []) m.links
        (or_false (holds_below p m.files) (holds_below p m.links) h).1;
  remove_clears = λ p n m h.
      find_entry-none p (normal n ∷ []) (outside p m.links) (holds_below-outside p m.links);
  remove_keeps = λ p q m h. find_entry-outside p q m.links h;
  rename_moves = λ old new n m h. moved_target old new (normal n ∷ []) m (present new m) refl h;
}
