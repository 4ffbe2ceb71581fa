-- ===== src/Examples/Interleaved.antt =====
-- lib.rs: the menu tasks of two interfaces that take turns on the machine.
use nixos_router_module.Base.{All, List, [], true, none, some, refl, ℕ, ◌∷◌, ◌≡◌, get_elem?}
use nixos_router_module.Service.Interleaving.{
  Run, Running, here, menu_tasks, next, start, turn, turns,
}
use nixos_router_module.Service.Interleaving.Menus.{generate_all-HasMenus}
use nixos_router_module.Service.Interleaving.Outcome.{HasMenus, Run-HasMenus}
use nixos_router_module.Service.Interleaving.Places.{HasPlainMacs}
use nixos_router_module.Service.Tasks.{
  MenuStep, menu_steps, override_steps, perform, make_dir, write_menu,
}
use nixos_router_module.Service.Completes.{outcome, prepare-outcome}
use nixos_router_module.Service.Prepare.{acquire_prepare_lock, generate_all, prepare}
use nixos_router_module.Service.Menu.{
  generate_grub_menu, grub_dir, interface_entries, override_name, write_overrides,
}
use nixos_router_module.Service.Render.{render_grub_cfg}
use nixos_router_module.Service.Defaults.{effective_iso, effective_script, resolve_default_position}
use nixos_router_module.Service.Entries.{menu_entries}
use nixos_router_module.Config.{apply_boot_info, placeholder, scripts_of}
use nixos_router_module.Config.Validation.{validate}
use nixos_router_module.Distro.Arch.{to_grub_cpu}
use nixos_router_module.Errors.{Result, is_ok, ok, ◌>>◌}
use nixos_router_module.Examples.Data.{
  bootable, handlebars, lan, reservation, service, settings, state,
}
use nixos_router_module.Grub.Entry.{create_entry}
use nixos_router_module.Grub.Menu.{build, new_builder, render_entry}
use nixos_router_module.Machine.{Machine, machine, machine-CopiesFiles, machine-StoresFiles}
use nixos_router_module.Paths.{join_text_path, strip_path}
use nixos_router_module.Text.{text, to_lowercase}

abbrev begin : Running Machine
begin = start (menu_tasks machine handlebars settings bootable []) state

-- The three steps of the task of an interface.
abbrev made : ℕ → MenuStep
made n = make_dir (grub_dir settings (lan n))

abbrev wrote : ℕ → MenuStep
wrote n = write_menu (join_text_path (grub_dir settings (lan n)) (text "grub.cfg")) (
    render_grub_cfg handlebars (interface_entries machine handlebars settings (lan n) bootable) []
      (lan n).default_iso (lan n).default_script)

abbrev overriding : ℕ → MenuStep
overriding n =
    write_menu (join_text_path (grub_dir settings (lan n)) (override_name reservation.mac)) (
      render_grub_cfg handlebars (interface_entries machine handlebars settings (lan n) bootable) []
        (effective_iso (lan n) reservation) (effective_script (lan n) reservation))

abbrev overrode : ℕ → List MenuStep
overrode n =
    override_steps machine handlebars settings (lan n)
      (interface_entries machine handlebars settings (lan n) bootable) [] (lan n).reservations

-- The machine after two turns of each task, and after the last ones.
abbrev after_made : Running Machine
after_made =
    turn machine (turn machine begin 0 (made 1) (wrote 1 ∷ overrode 1)) 1 (made 12)
      (wrote 12 ∷ overrode 12)

abbrev after_wrote : Running Machine
after_wrote =
    turn machine (turn machine after_made 1 (wrote 12) (overrode 12)) 0 (wrote 1) (overrode 1)

abbrev after_override : Running Machine
after_override = turn machine after_wrote 0 (overriding 1) []

-- The task of the first interface ends first, between the steps of the other.
ran :
    Run machine begin 5 after_override
    × ((after_override.tasks 0).left ≡ [])
    × ((after_override.tasks 0).failure ≡ none)
unfolding turn perform menu_steps override_steps render_grub_cfg create_entry strip_path build
    render_entry new_builder to_grub_cpu resolve_default_position menu_entries scripts_of
    placeholder apply_boot_info
ran = (
  next
      (next
        (next (next (next here (turns 0 (made 1) _ refl refl)) (turns 1 (made 12) _ refl refl))
          (turns 1 (wrote 12) _ refl refl))
        (turns 0 (wrote 1) _ refl refl))
      (turns 0 (overriding 1) [] refl refl),
  refl,
  refl,
)

abbrev in_sequence : List (Result (Unit {0})) × Machine
in_sequence = generate_all machine handlebars service settings.dhcp_interfaces bootable [] state

second_written : get_elem? in_sequence.0 1 ≡ some (ok tt)
unfolding generate_all generate_grub_menu write_overrides render_grub_cfg create_entry strip_path
    build render_entry new_builder to_grub_cpu resolve_default_position menu_entries scripts_of
    placeholder apply_boot_info
second_written = refl

plain_macs : All HasPlainMacs settings.dhcp_interfaces
unfolding to_lowercase
plain_macs = (((refl, tt), (tt, tt)), (((refl, tt), (tt, tt)), tt))

valid : is_ok (validate (λ p. true) settings) ≡ true
unfolding validate
valid = refl

Run-HasMenus_example :
    HasMenus machine handlebars machine-StoresFiles settings bootable [] after_override.machine
      (lan 1)
Run-HasMenus_example =
    Run-HasMenus machine handlebars machine-CopiesFiles machine-StoresFiles (λ p. true) settings
      bootable [] state 5 after_override 0 (lan 1) valid plain_macs ran.0 refl ran.1 ran.2

generate_all-HasMenus_example :
    HasMenus machine handlebars machine-StoresFiles settings bootable [] in_sequence.1 (lan 12)
generate_all-HasMenus_example =
    generate_all-HasMenus machine handlebars machine-CopiesFiles machine-StoresFiles (λ p. true)
      service bootable [] state 1 (lan 12) valid plain_macs refl second_written

prepare-outcome_example : (prepare machine handlebars service state).0 ≡ (
    (acquire_prepare_lock machine handlebars service state).0
    >> outcome
        (service.collaborators.discover
          (acquire_prepare_lock machine handlebars service state).1).0)
prepare-outcome_example = prepare-outcome machine handlebars service state
