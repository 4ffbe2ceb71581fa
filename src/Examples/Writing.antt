-- ===== src/Examples/Writing.antt =====
-- lib.rs: an example of `generate_grub_menu`, run on the machine.
use nixos_router_module.Base.{All, [], false, none, refl, some, true, ◌∷◌, ◌≡◌, ◌⊎◌}
use nixos_router_module.Config.{apply_boot_info, placeholder, scripts_of}
use nixos_router_module.Distro.Arch.{to_grub_cpu}
use nixos_router_module.Errors.{is_ok}
use nixos_router_module.Examples.Data.{
  bootable, handlebars, iso_name, lan, reservation, settings, state, with_state,
}
use nixos_router_module.Grub.Entry.{create_entry}
use nixos_router_module.Grub.Menu.{build, new_builder, render_entry}
use nixos_router_module.Machine.{Machine, machine, machine-StoresFiles}
use nixos_router_module.Paths.{join_text_path, strip_path}
use nixos_router_module.Service.Defaults.{
  effective_iso, effective_script, has_override, resolve_default_position,
}
use nixos_router_module.Service.Entries.{menu_entries}
use nixos_router_module.Service.Files.{HasPlainMac, generate_grub_menu-Holds}
use nixos_router_module.Service.Menu.{
  generate_grub_menu, grub_dir, interface_entries, override_name, write_overrides,
}
use nixos_router_module.Service.Render.{render_grub_cfg}
use nixos_router_module.Service.Written.{Holds}
use nixos_router_module.Text.{text, to_lowercase}

plain_mac : HasPlainMac reservation
unfolding to_lowercase
plain_mac = refl

abbrev written : Machine
written = (generate_grub_menu machine handlebars settings (lan 1) bootable [] state).1

succeeded :
    is_ok (generate_grub_menu machine handlebars settings (lan 1) bootable [] state).0 ≡ true
unfolding generate_grub_menu write_overrides render_grub_cfg create_entry strip_path build
    render_entry new_builder to_grub_cpu resolve_default_position menu_entries scripts_of
    placeholder apply_boot_info
succeeded = refl

generate_grub_menu-Holds_example :
    let entries = interface_entries machine handlebars settings (lan 1) bootable in
    Holds machine handlebars machine-StoresFiles written
      (join_text_path (grub_dir settings (lan 1)) (text "grub.cfg"))
      (render_grub_cfg handlebars entries [] (some iso_name) none)
    × All
        (λ r.
          (has_override r ≡ false)
          ⊎ Holds machine handlebars machine-StoresFiles written
              (join_text_path (grub_dir settings (lan 1)) (override_name r.mac))
              (render_grub_cfg handlebars entries []
                (effective_iso (lan 1) r)
                (effective_script (lan 1) r)))
        (reservation ∷ [])
generate_grub_menu-Holds_example =
    generate_grub_menu-Holds machine handlebars machine-StoresFiles settings (lan 1) bootable []
      state written (plain_mac, tt) (tt, tt)
      (with_state (generate_grub_menu machine handlebars settings (lan 1) bootable [] state)
        succeeded)
