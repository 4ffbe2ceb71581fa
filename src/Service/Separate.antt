-- ===== src/Service/Separate.antt =====
-- lib.rs: the menus of different interfaces are written to different places, so the order in which
-- they are written does not matter.
use nixos_router_module.Base.{
  All, Bool, Distinct, List, Option, [], ap, append_assoc, map, none, refl, some, sym, true, ◌++◌,
  ◌∙◌, ◌∷◌, ◌≡◌, ◌≢◌,
}
use nixos_router_module.Config.{DhcpInterface, PxeBootConfig}
use nixos_router_module.Config.Valid.{is_ok-validate_iff}
use nixos_router_module.Config.Validation.{validate}
use nixos_router_module.Errors.{is_ok}
use nixos_router_module.Paths.{Component, FilePath, join_text_path, normal}
use nixos_router_module.Paths.Names.{IsName, IsName-of_is_name, decimal-IsName, join_text_path_name}
use nixos_router_module.Service.Menu.{grub_dir, root_or}
use nixos_router_module.Text.{decimal, text}
use nixos_router_module.Text.Digits.{decimal-injective}

grub-IsName : IsName (text "grub")
grub-IsName = IsName-of_is_name (text "grub") refl

abbrev root_of : PxeBootConfig → DhcpInterface → FilePath
root_of c i = root_or i.tftp_root c.tftp_root

grub_dir_lem :
    (c : PxeBootConfig) (i : DhcpInterface)
    → grub_dir c i ≡ root_of c i ++ (normal (decimal i.id) ∷ normal (text "grub") ∷ [])
unfolding grub_dir
grub_dir_lem c i =
    ap (λ p. join_text_path p (text "grub"))
      (join_text_path_name (root_of c i) (decimal i.id) (decimal-IsName i.id))
    ∙ (join_text_path_name _ (text "grub") grub-IsName
        ∙ append_assoc (root_of c i) (normal (decimal i.id) ∷ []) (normal (text "grub") ∷ []))

-- The last component but one.
before_last : FilePath → Option Component
before_last [] = none
before_last (a ∷ []) = none
before_last (a ∷ b ∷ []) = some a
before_last (a ∷ b ∷ c ∷ p) = before_last (b ∷ c ∷ p)

before_last-append : (p : FilePath) (a b : Component) → before_last (p ++ a ∷ b ∷ []) ≡ some a
unfolding before_last
before_last-append [] a b = refl
before_last-append (x ∷ []) a b = refl
before_last-append (x ∷ y ∷ []) a b = refl
before_last-append (x ∷ y ∷ z ∷ p) a b = before_last-append (y ∷ z ∷ p) a b

grub_dir-injective :
    (c : PxeBootConfig) (i j : DhcpInterface) → grub_dir c i ≡ grub_dir c j → i.id ≡ j.id
grub_dir-injective c i j h = decimal-injective i.id j.id (
    cc (
      ap before_last (sym (grub_dir_lem c i) ∙ (h ∙ grub_dir_lem c j)),
      before_last-append (root_of c i) (normal (decimal i.id)) (normal (text "grub")),
      before_last-append (root_of c j) (normal (decimal j.id)) (normal (text "grub")),
    ))

Distinct-grub_dirs :
    (c : PxeBootConfig) (is : List DhcpInterface)
    → Distinct (map (λ (i : DhcpInterface). i.id) is)
    → Distinct (map (grub_dir c) is)
Distinct-grub_dirs c [] h = tt
Distinct-grub_dirs c (i ∷ rest) (fresh, h) = (apart rest fresh, Distinct-grub_dirs c rest h)
  where
    apart :
        (js : List DhcpInterface)
        → All (λ n. i.id ≢ n) (map (λ (j : DhcpInterface). j.id) js)
        → All (λ p. grub_dir c i ≢ p) (map (grub_dir c) js)
    apart [] k = tt
    apart (j ∷ js) (ne, k) = ((λ same. ne (grub_dir-injective c i j same)), apart js k)

-- No two interfaces of a configuration that passes `validate` have the same path for the directory
-- of their menus, whatever their TFTP roots.
pub grub_dirs-Distinct :
    (exists : FilePath → Bool) (c : PxeBootConfig)
    → is_ok (validate exists c) ≡ true
    → Distinct (map (grub_dir c) c.dhcp_interfaces)
grub_dirs-Distinct exists c valid =
    Distinct-grub_dirs c c.dhcp_interfaces ((is_ok-validate_iff exists c).0 valid).ids
