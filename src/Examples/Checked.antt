-- ===== src/Examples/Checked.antt =====
-- config/validation.rs: an example.
use nixos_router_module.Base.{Distinct, map, refl, true, ◌↔◌, ◌≡◌}
use nixos_router_module.Config.Valid.{IsValid, is_ok-validate_iff}
use nixos_router_module.Config.Validation.{validate}
use nixos_router_module.Errors.{is_ok}
use nixos_router_module.Examples.Data.{settings}
use nixos_router_module.Service.Menu.{grub_dir}
use nixos_router_module.Service.Separate.{grub_dirs-Distinct}

settings_valid : is_ok (validate (λ p. true) settings) ≡ true
unfolding validate
settings_valid = refl

is_ok-validate_iff_example :
    (is_ok (validate (λ p. true) settings) ≡ true) ↔ IsValid (λ p. true) settings
is_ok-validate_iff_example = is_ok-validate_iff (λ p. true) settings

grub_dirs-Distinct_example : Distinct (map (grub_dir settings) settings.dhcp_interfaces)
grub_dirs-Distinct_example = grub_dirs-Distinct (λ p. true) settings settings_valid
