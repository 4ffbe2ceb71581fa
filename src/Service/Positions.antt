-- ===== src/Service/Positions.antt =====
-- lib.rs: the position of an entry is its place in the menu, and the default that is set is the
-- first entry that matches.
use nixos_router_module.Base.{
  All, Bool, Bool-cases, List, Option, [], arith, false, inl, inr, length, list_eq, nat_eq, none,
  some, subst, suc, true, zero, ℕ, ◌&&◌, ◌++◌, ◌+◌, ◌==◌, ◌∷◌, ◌≡◌,
}
use nixos_router_module.Config.{Autoinstall, AutoinstallScript, BootInfo, IsoInfo, scripts_of}
use nixos_router_module.Distro.Detector.{DistroDetector}
use nixos_router_module.Errors.{StdResult-cases}
use nixos_router_module.Grub.Entry.{MenuEntryFactory, create_entry}
use nixos_router_module.Grub.Total.{create_entry-position}
use nixos_router_module.Service.Defaults.{
  NamedEntry, find_position, resolve_default_position, script_matches,
}
use nixos_router_module.Service.Entries.{
  Bootable, iso_entries, menu_entries, script_entries, scripts_or_none,
}
use nixos_router_module.Text.{Text}

-- The entries carry the numbers from `n` on.
abbrev pub Numbered : ℕ → List NamedEntry → Type 0
Numbered n [] = Unit
Numbered n ((e, _, _) ∷ rest) = (e.position ≡ n) × Numbered (n + 1) rest

Numbered-append :
    (n : ℕ) (xs ys : List NamedEntry)
    → Numbered n xs
    → Numbered (n + length xs) ys
    → Numbered n (xs ++ ys)
Numbered-append n [] ys h k = subst (λ m. Numbered m ys) (omega arith) k
Numbered-append n ((e, a, b) ∷ xs) ys (p, h) k =
    (p, Numbered-append (n + 1) xs ys h (subst (λ m. Numbered m ys) (omega arith) k))

-- The numbering, and the number that comes next.
abbrev Counts : ℕ → List NamedEntry × ℕ → Type 0
Counts n r = Numbered n r.0 × (r.1 ≡ n + length r.0)

module _ {S : Type 0} (f : MenuEntryFactory) where
  script_entries-Counts :
      (iso : IsoInfo) (boot : BootInfo) (d : DistroDetector S) (scripts : List AutoinstallScript)
      (n : ℕ)
      → Counts n (script_entries f (iso, boot, d) scripts n)
  unfolding script_entries
  script_entries-Counts iso boot d [] n = (tt, omega arith)
  script_entries-Counts iso boot d (script ∷ rest) n =
      elim (StdResult-cases (create_entry f iso boot d (some script) n)) [
        | inl (x, h) ↦ rw (h, script_entries) (script_entries-Counts iso boot d rest n)
        | inr (e, h) ↦
            let (numbered, end) = script_entries-Counts iso boot d rest (n + 1) in
            rw (h, script_entries)
              (
                (create_entry-position f iso boot d (some script) n e h, numbered),
                omega (arith, end),
              )
      ]

  iso_entries-Counts :
      (a : Autoinstall) (iso : IsoInfo) (boot : BootInfo) (d : DistroDetector S) (n : ℕ)
      → Counts n (iso_entries f a (iso, boot, d) n)
  unfolding iso_entries
  iso_entries-Counts a iso boot d n = elim (StdResult-cases (create_entry f iso boot d none n)) [
    | inl (x, h) ↦ rw (h, iso_entries) (tt, omega arith)
    | inr (e, h) ↦
        let (numbered, end) =
          script_entries-Counts iso boot d (scripts_or_none (scripts_of a iso.file_name)) (n + 1) in
        rw (h, iso_entries)
          ((create_entry-position f iso boot d none n e h, numbered), omega (arith, end))
  ]

  -- The entries of a menu carry the numbers from the first position on, without a gap, whichever
  -- entries could not be made.
  pub menu_entries-Numbered :
      (a : Autoinstall) (infos : List (Bootable S)) (n : ℕ) → Numbered n (menu_entries f a infos n)
  unfolding menu_entries
  menu_entries-Numbered a [] n = tt
  menu_entries-Numbered a ((iso, boot, d) ∷ rest) n =
      let (numbered, end) = iso_entries-Counts a iso boot d n in
      Numbered-append n _ _ numbered (
        subst (λ m. Numbered m (menu_entries f a rest (iso_entries f a (iso, boot, d) n).1)) end
          (menu_entries-Numbered a rest (iso_entries f a (iso, boot, d) n).1))

-- The place of the first element that passes a test.
abbrev pub FirstMatch {ℓ} : {A : Type ℓ} → (A → Bool) → List A → ℕ → Type 0
FirstMatch p [] i = ⊥
FirstMatch p (x ∷ xs) zero = p x ≡ true
FirstMatch p (x ∷ xs) (suc i) = (p x ≡ false) × FirstMatch p xs i

-- Whether an entry is meant by a default.
abbrev pub is_default : Text → Option Text → NamedEntry → Bool
is_default iso script (e, name, entry_script) = name == iso && script_matches script entry_script

-- The answer to a search from number `n` on: no entry passes, or the first that does.
abbrev pub Answers : (NamedEntry → Bool) → ℕ → List NamedEntry → Option ℕ → Type 0
Answers p n es none = All (λ x. p x ≡ false) es
Answers p n es (some k) = (i : ℕ) × (k ≡ n + i) × FirstMatch p es i

Answers-cons :
    (p : NamedEntry → Bool) (n : ℕ) (x : NamedEntry) (es : List NamedEntry) (r : Option ℕ)
    → p x ≡ false
    → Answers p (n + 1) es r
    → Answers p n (x ∷ es) r
Answers-cons p n x es none miss h = (miss, h)
Answers-cons p n x es (some k) miss (i, at, first) = (suc i, omega arith, (miss, first))

find_position-Answers :
    (iso : Text) (script : Option Text) (n : ℕ) (es : List NamedEntry)
    → Numbered n es
    → Answers (is_default iso script) n es (find_position es iso script)
unfolding find_position
find_position-Answers iso script n [] h = tt
find_position-Answers iso script n ((e, name, s) ∷ rest) (at, h) =
    elim (Bool-cases (is_default iso script (e, name, s))) [
      | inl hit ↦ rw hit (zero, omega arith, hit)
      | inr miss ↦ rw miss (
          Answers-cons (is_default iso script) n (e, name, s) rest _ miss
            (find_position-Answers iso script (n + 1) rest h))
    ]

-- In a menu as `generate_grub_menu` builds it, the position that `set default` gets is the place of
-- the first entry with the image and the script of the default, and there is none only if no
-- entry has them.
pub resolve_default_position-menu_entries :
    {S : Type 0} (f : MenuEntryFactory) (a : Autoinstall) (infos : List (Bootable S)) (iso : Text)
    (script : Option Text)
    → let es = menu_entries f a infos 0 in
      Answers (is_default iso script) 0 es (resolve_default_position es (some iso) script)
unfolding resolve_default_position
resolve_default_position-menu_entries f a infos iso script =
    find_position-Answers iso script 0 _ (menu_entries-Numbered f a infos 0)
