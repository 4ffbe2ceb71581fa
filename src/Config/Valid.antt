-- ===== src/Config/Valid.antt =====
-- config/validation.rs: what a configuration that passes `validate` is.
use nixos_router_module.Base.{
  &&-iff, All, All-all, Bool, Distinct, Distinct-distinct, List, [], all, all-All, ap, ap₂, arith,
  contains, distinct, distinct-Distinct, false, list_eq, map, nat_beq_iff, nat_eq, not, refl, sym,
  true, ℕ, ◌&&◌, ◌↔◌, ◌∙◌, ◌∷◌, ◌≡◌,
}
use nixos_router_module.Config.{Autoinstall, AutoinstallScript, DhcpInterface, PxeBootConfig}
use nixos_router_module.Config.Validation.{
  override_exists, require, validate, validate_autoinstall, validate_folders, validate_ids,
  validate_overrides, validate_scripts,
}
use nixos_router_module.Errors.{PxeBootError, Result, err, is_ok, ok, ◌>>◌}
use nixos_router_module.Paths.{FilePath}
use nixos_router_module.Text.{Text}

module _ (exists : FilePath → Bool) where
  pub record IsValid (c : PxeBootConfig) : Type 0 where
    pub folders : All (λ p. exists p ≡ true) c.iso_folder_paths
    pub tftp_root : exists c.tftp_root ≡ true
    pub overrides : All (λ i. override_exists exists i.tftp_root ≡ true) c.dhcp_interfaces
    pub runtime_root : exists c.runtime_root ≡ true
    pub ids : Distinct (map (λ (i : DhcpInterface). i.id) c.dhcp_interfaces)
    pub scripts : All (λ e. All (λ s. exists s.script_path ≡ true) e.1) c.autoinstall

-- A check passes when both of its parts do.
is_ok->> : (m k : Result (Unit {0})) → is_ok (m >> k) ≡ (is_ok m && is_ok k)
is_ok->> (ok tt) k = refl
is_ok->> (err e) k = refl

is_ok-require :
    (b : Bool) (e : PxeBootError) (k : Result (Unit {0}))
    → is_ok (require b e >> k) ≡ (b && is_ok k)
is_ok-require true e k = refl
is_ok-require false e k = refl

module _ (exists : FilePath → Bool) where
  is_ok-validate_folders : (ps : List FilePath) → is_ok (validate_folders exists ps) ≡ all exists ps
  unfolding validate_folders
  is_ok-validate_folders [] = refl
  is_ok-validate_folders (p ∷ rest) =
      is_ok-require (exists p) _ _ ∙ ap (λ b. exists p && b) (is_ok-validate_folders rest)

  is_ok-validate_overrides :
      (is : List DhcpInterface)
      → is_ok (validate_overrides exists is) ≡ all (λ i. override_exists exists i.tftp_root) is
  unfolding validate_overrides
  is_ok-validate_overrides [] = refl
  is_ok-validate_overrides (i ∷ rest) =
      is_ok-require (override_exists exists i.tftp_root) _ _
      ∙ ap (λ b. override_exists exists i.tftp_root && b) (is_ok-validate_overrides rest)

  is_ok-validate_scripts :
      (iso : Text) (scripts : List AutoinstallScript)
      → is_ok (validate_scripts exists iso scripts) ≡ all (λ s. exists s.script_path) scripts
  unfolding validate_scripts
  is_ok-validate_scripts iso [] = refl
  is_ok-validate_scripts iso (s ∷ rest) =
      is_ok-require (exists s.script_path) _ _
      ∙ ap (λ b. exists s.script_path && b) (is_ok-validate_scripts iso rest)

  is_ok-validate_autoinstall :
      (a : Autoinstall)
      → is_ok (validate_autoinstall exists a) ≡ all (λ e. all (λ s. exists s.script_path) e.1) a
  unfolding validate_autoinstall
  is_ok-validate_autoinstall [] = refl
  is_ok-validate_autoinstall ((iso, scripts) ∷ rest) =
      is_ok->> (validate_scripts exists iso scripts) (validate_autoinstall exists rest)
      ∙ ap₂ (λ b c. b && c) (is_ok-validate_scripts iso scripts) (is_ok-validate_autoinstall rest)

abbrev fresh : List ℕ → List ℕ → Bool
fresh seen ids = all (λ n. not (contains seen n)) ids

fresh-cons :
    (n : ℕ) (seen ids : List ℕ) → fresh (n ∷ seen) ids ≡ (not (contains ids n) && fresh seen ids)
fresh-cons n seen [] = refl
fresh-cons n seen (m ∷ ids) =
    ground (arith, fresh-cons n seen ids, nat_beq_iff n m, nat_beq_iff m n)

is_ok-validate_ids :
    (seen : List ℕ) (is : List DhcpInterface)
    → is_ok (validate_ids seen is)
      ≡ (fresh seen (map (λ i. i.id) is) && distinct (map (λ i. i.id) is))
unfolding validate_ids
is_ok-validate_ids seen [] = refl
is_ok-validate_ids seen (i ∷ rest) =
    is_ok-require (not (contains seen i.id)) _ _
    ∙ ground (
      arith,
      is_ok-validate_ids (i.id ∷ seen) rest,
      fresh-cons i.id seen (map (λ (j : DhcpInterface). j.id) rest),
    )

fresh_nil : (ids : List ℕ) → fresh [] ids ≡ true
fresh_nil [] = refl
fresh_nil (n ∷ ids) = fresh_nil ids

six_iff :
    (a b c d e f : Bool)
    → ((a && (b && (c && (d && (e && f))))) ≡ true)
      ↔ ((a ≡ true) × (b ≡ true) × (c ≡ true) × (d ≡ true) × (e ≡ true) × (f ≡ true))
six_iff a b c d e f = ground arith

abbrev all_ids : List DhcpInterface → List ℕ
all_ids is = map (λ i. i.id) is

module _ (exists : FilePath → Bool) where
  abbrev has_scripts : Text × List AutoinstallScript → Bool
  has_scripts e = all (λ s. exists s.script_path) e.1

  -- The six parts of `validate`, as tests.
  is_ok-validate :
      (c : PxeBootConfig)
      → is_ok (validate exists c) ≡ (
          all exists c.iso_folder_paths
          && (exists c.tftp_root
              && (all (λ i. override_exists exists i.tftp_root) c.dhcp_interfaces
                  && (exists c.runtime_root
                      && (distinct (all_ids c.dhcp_interfaces) && all has_scripts c.autoinstall)))))
  unfolding validate
  is_ok-validate c =
      is_ok->> (validate_folders exists c.iso_folder_paths) _
      ∙ ap₂ (λ a b. a && b) (is_ok-validate_folders exists c.iso_folder_paths)
          (is_ok-require (exists c.tftp_root) _ _
            ∙ ap (λ b. exists c.tftp_root && b)
                (is_ok->> (validate_overrides exists c.dhcp_interfaces) _
                  ∙ ap₂ (λ a b. a && b) (is_ok-validate_overrides exists c.dhcp_interfaces)
                      (is_ok-require (exists c.runtime_root) _ _
                        ∙ ap (λ b. exists c.runtime_root && b)
                            (is_ok->> (validate_ids [] c.dhcp_interfaces) _
                              ∙ ap₂ (λ a b. a && b)
                                  (is_ok-validate_ids [] c.dhcp_interfaces
                                    ∙ ap (λ b. b && distinct (all_ids c.dhcp_interfaces))
                                        (fresh_nil (all_ids c.dhcp_interfaces)))
                                  (is_ok-validate_autoinstall exists c.autoinstall)))))

  all-scripts :
      (a : Autoinstall)
      → (all has_scripts a ≡ true) ↔ All (λ e. All (λ s. exists s.script_path ≡ true) e.1) a
  all-scripts [] = ((λ h. tt), (λ h. refl))
  all-scripts ((iso, scripts) ∷ rest) = (
    (λ h.
        let (first, more) = (&&-iff (has_scripts (iso, scripts)) (all has_scripts rest)).0 h in
        (all-All (λ s. exists s.script_path) scripts first, (all-scripts rest).0 more)),
    (λ h.
        (&&-iff (has_scripts (iso, scripts)) (all has_scripts rest)).1
          (All-all (λ s. exists s.script_path) scripts h.0, (all-scripts rest).1 h.1)),
  )

  -- A configuration passes exactly when all its folders, roots and scripts exist and no two of its
  -- interfaces share an identifier.
  pub is_ok-validate_iff :
      (c : PxeBootConfig) → (is_ok (validate exists c) ≡ true) ↔ IsValid exists c
  is_ok-validate_iff c = (
    (λ h.
        let (a, b, t, r, i, z) = parts.0 (sym (is_ok-validate c) ∙ h) in
        record {
          folders = all-All exists c.iso_folder_paths a;
          tftp_root = b;
          overrides = all-All (λ i. override_exists exists i.tftp_root) c.dhcp_interfaces t;
          runtime_root = r;
          ids = distinct-Distinct (all_ids c.dhcp_interfaces) i;
          scripts = (all-scripts c.autoinstall).0 z;
        }),
    (λ v.
        is_ok-validate c
        ∙ parts.1 (
          All-all exists c.iso_folder_paths v.folders,
          v.tftp_root,
          All-all (λ i. override_exists exists i.tftp_root) c.dhcp_interfaces v.overrides,
          v.runtime_root,
          Distinct-distinct (all_ids c.dhcp_interfaces) v.ids,
          (all-scripts c.autoinstall).1 v.scripts,
        )),
  )
    where
      parts :
          ((all exists c.iso_folder_paths
              && (exists c.tftp_root
                  && (all (λ i. override_exists exists i.tftp_root) c.dhcp_interfaces
                      && (exists c.runtime_root
                          && (distinct (all_ids c.dhcp_interfaces)
                              && all has_scripts c.autoinstall)))))
            ≡ true)
          ↔ ((all exists c.iso_folder_paths ≡ true)
              × (exists c.tftp_root ≡ true)
              × (all (λ i. override_exists exists i.tftp_root) c.dhcp_interfaces ≡ true)
              × (exists c.runtime_root ≡ true)
              × (distinct (all_ids c.dhcp_interfaces) ≡ true)
              × (all has_scripts c.autoinstall ≡ true))
      parts = six_iff _ _ _ _ _ _
