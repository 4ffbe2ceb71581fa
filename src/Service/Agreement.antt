-- ===== src/Service/Agreement.antt =====
-- lib.rs: a warning on a default is raised exactly when the default has no entry in the menu.
use nixos_router_module.Base.{
  &&-false, &&-true, All, Bool, List, Option, [], any, ap, arith, contains, false, if◌then◌else◌,
  list_beq_iff, list_eq, map, nat_eq, none, refl, some, sym, true, ℕ, ◌&&◌, ◌++◌, ◌+◌, ◌==◌, ◌||◌,
  ◌∙◌, ◌∷◌, ◌≡◌,
}
use nixos_router_module.Config.{Autoinstall, AutoinstallScript, BootInfo, IsoInfo, scripts_of}
use nixos_router_module.Distro.BootPaths.{BootsBelow}
use nixos_router_module.Distro.Detector.{DistroDetector}
use nixos_router_module.Grub.Entry.{MenuEntryFactory}
use nixos_router_module.Grub.Total.{create_entry_total}
use nixos_router_module.Service.Defaults.{
  NamedEntry, find_position, resolve_default_position, script_matches,
}
use nixos_router_module.Service.Entries.{
  Bootable, iso_entries, menu_entries, script_entries, scripts_or_none,
}
use nixos_router_module.Service.Positions.{is_default}
use nixos_router_module.Service.Warnings.{default_pair_warnings, script_known, script_warnings}
use nixos_router_module.Text.{Text}

abbrev pub is_empty {ℓ} : {A : Type ℓ} → List A → Bool
is_empty [] = true
is_empty (x ∷ xs) = false

abbrev pub is_some {ℓ} : {A : Type ℓ} → Option A → Bool
is_some none = false
is_some (some a) = true

any-append {ℓ} :
    {A : Type ℓ} (p : A → Bool) (xs ys : List A) → any p (xs ++ ys) ≡ (any p xs || any p ys)
any-append p [] ys = refl
any-append p (x ∷ xs) ys = ground (arith, any-append p xs ys)

if-is_some :
    (b : Bool) (k : ℕ) (o : Option ℕ) → is_some (if b then some k else o) ≡ (b || is_some o)
if-is_some true k o = refl
if-is_some false k o = refl

-- Every image has its kernel and initrd below its mount.
abbrev pub AllBoot : {S : Type 0} → List (Bootable S) → Type 0
AllBoot infos = All (λ b. BootsBelow b.0.mount_path b.1) infos

abbrev pub names_of : {S : Type 0} → List (Bootable S) → List Text
names_of infos = map (λ b. b.0.file_name) infos

-- The two ways to combine one image with the rest.
combine : (x c k y : Bool) → (x ≡ true → y ≡ k) → ((x && y) || (c && k)) ≡ ((x || c) && k)
combine true c k y h = ground (arith, h refl)
combine false c k y h = refl

module _ (iso : Text) (script : Option Text) where
  abbrev named_script : List AutoinstallScript → Bool
  named_script scripts = any (λ s. script_matches script (some s.name)) scripts

  -- Whether a base entry or that of one of the scripts is meant.
  abbrev has_script : Option (List AutoinstallScript) → Bool
  has_script scripts = script_matches script none || named_script (scripts_or_none scripts)

  is_some-find_position :
      (es : List NamedEntry)
      → is_some (find_position es iso script) ≡ any (is_default iso script) es
  unfolding find_position
  is_some-find_position [] = refl
  is_some-find_position ((e, name, s) ∷ rest) =
      if-is_some (is_default iso script (e, name, s)) e.position (find_position rest iso script)
      ∙ ap (λ b. is_default iso script (e, name, s) || b) (is_some-find_position rest)

  module _ {S : Type 0} (f : MenuEntryFactory) where
    any-script_entries :
        (info : IsoInfo) (boot : BootInfo) (d : DistroDetector S) (scripts : List AutoinstallScript)
        (n : ℕ)
        → BootsBelow info.mount_path boot
        → any (is_default iso script) (script_entries f (info, boot, d) scripts n).0
          ≡ (info.file_name == iso && named_script scripts)
    unfolding script_entries
    any-script_entries info boot d [] n below = sym (&&-false (info.file_name == iso))
    any-script_entries info boot d (s ∷ rest) n below =
        let (e, h) = create_entry_total f info boot d below (some s) n in
        rw (h, script_entries) (ground (arith, any-script_entries info boot d rest (n + 1) below))

    any-iso_entries :
        (a : Autoinstall) (info : IsoInfo) (boot : BootInfo) (d : DistroDetector S) (n : ℕ)
        → BootsBelow info.mount_path boot
        → any (is_default iso script) (iso_entries f a (info, boot, d) n).0
          ≡ (info.file_name == iso && has_script (scripts_of a info.file_name))
    unfolding iso_entries
    any-iso_entries a info boot d n below =
        let (e, h) = create_entry_total f info boot d below none n in
        rw (h, iso_entries)
          (ground (
            arith,
            any-script_entries info boot d (scripts_or_none (scripts_of a info.file_name)) (n + 1)
                below,
          ))

    any-menu_entries :
        (a : Autoinstall) (infos : List (Bootable S)) (n : ℕ)
        → AllBoot infos
        → any (is_default iso script) (menu_entries f a infos n)
          ≡ (contains (names_of infos) iso && has_script (scripts_of a iso))
    unfolding menu_entries
    any-menu_entries a [] n all_boot = refl
    any-menu_entries a ((info, boot, d) ∷ rest) n (below, all_boot) =
        rw
          (
            any-append (is_default iso script) (iso_entries f a (info, boot, d) n).0 _,
            any-iso_entries a info boot d n below,
            any-menu_entries a rest (iso_entries f a (info, boot, d) n).1 all_boot,
          )
          (combine (info.file_name == iso) (contains (names_of rest) iso)
            (has_script (scripts_of a iso)) (has_script (scripts_of a info.file_name))
            (λ same. ap (λ t. has_script (scripts_of a t)) ((list_beq_iff _ _).0 same)))

is_empty-if {ℓ} :
    {A : Type ℓ} (b k : Bool) (ws : List A) (w : A)
    → is_empty ws ≡ k
    → is_empty (if b then ws else w ∷ []) ≡ (b && k)
is_empty-if true k ws w h = h
is_empty-if false k ws w h = refl

script_known-has_script :
    (iso : Text) (c : ℕ) (s : Text) (scripts : Option (List AutoinstallScript))
    → script_known scripts (c ∷ s) ≡ has_script iso (some (c ∷ s)) scripts
script_known-has_script iso c s none = refl
script_known-has_script iso c s (some scripts) = refl

is_empty-script_warnings :
    (label iso : Text) (script : Option Text) (a : Autoinstall)
    → is_empty (script_warnings label iso script a) ≡ has_script iso script (scripts_of a iso)
is_empty-script_warnings label iso none a = refl
is_empty-script_warnings label iso (some []) a = refl
is_empty-script_warnings label iso (some (c ∷ s)) a =
    is_empty-if (script_known (scripts_of a iso) (c ∷ s)) true [] _ refl
    ∙ (&&-true (script_known (scripts_of a iso) (c ∷ s))
        ∙ script_known-has_script iso c s (scripts_of a iso))

-- Where every image that was found has its kernel and initrd below its mount, a default with an
-- image raises no warning exactly when it is resolved to an entry of the menu.
pub is_empty-default_pair_warnings :
    {S : Type 0} (f : MenuEntryFactory) (a : Autoinstall) (infos : List (Bootable S))
    (label iso : Text) (script : Option Text)
    → AllBoot infos
    → is_empty (default_pair_warnings label (some iso) script (names_of infos) a)
      ≡ is_some (resolve_default_position (menu_entries f a infos 0) (some iso) script)
unfolding default_pair_warnings resolve_default_position
is_empty-default_pair_warnings f a infos label iso script all_boot =
    is_empty-if (contains (names_of infos) iso) _ _ _ (is_empty-script_warnings label iso script a)
    ∙ sym (
        is_some-find_position iso script (menu_entries f a infos 0)
        ∙ any-menu_entries iso script f a infos 0 all_boot)
