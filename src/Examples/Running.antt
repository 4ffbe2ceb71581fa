-- ===== src/Examples/Running.antt =====
-- lib.rs: examples.
use nixos_router_module.Base.{
  All, Option, [], true, false, length, none, refl, some, ◌&&◌, ◌+◌, ◌∷◌, ◌≡◌,
}
use nixos_router_module.Config.{apply_boot_info, placeholder, scripts_of}
use nixos_router_module.Errors.{Result, err, is_ok, ok}
use nixos_router_module.Examples.Data.{
  autoinstall, bootable, boots_below, factory, from_str, handlebars, iso_name, iso_path, mount_path,
  registry, service, settings, state,
}
use nixos_router_module.Grub.Entry.{create_entry}
use nixos_router_module.Distro.Arch.{to_grub_cpu}
use nixos_router_module.Grub.Menu.{build, new_builder, render_entry}
use nixos_router_module.Machine.{machine, machine-WalksBelow, machine_locks}
use nixos_router_module.Paths.{file_name, strip_path}
use nixos_router_module.Service.Agreement.{is_empty, is_empty-default_pair_warnings, is_some}
use nixos_router_module.Service.Counts.{entry_count, menu_entries-detected_status}
use nixos_router_module.Service.Defaults.{resolve_default_position}
use nixos_router_module.Service.Detection.{boot_of, detect_all}
use nixos_router_module.Service.Entries.{menu_entries}
use nixos_router_module.Service.Lock.{taken-prepare}
use nixos_router_module.Service.Positions.{
  Answers, Numbered, is_default, menu_entries-Numbered, resolve_default_position-menu_entries,
}
use nixos_router_module.Service.Prepare.{lock_path, prepare}
use nixos_router_module.Service.Render.{render_grub_cfg}
use nixos_router_module.Service.Reported.{Reported, detect_all-Reported}
use nixos_router_module.Service.Status.{detected_status}
use nixos_router_module.Service.Variants.{find_default-render_grub_cfg}
use nixos_router_module.Grub.Header.{find_default}
use nixos_router_module.Service.Warnings.{default_pair_warnings}
use nixos_router_module.Text.{Text, text}

menu_entries-detected_status_example :
    (detected_status service iso_name iso_path mount_path state).menu_entries
    ≡ entry_count factory autoinstall 0 (boot_of registry state iso_name iso_path mount_path)
menu_entries-detected_status_example =
    menu_entries-detected_status machine from_str machine-WalksBelow service refl iso_name iso_path
      mount_path state factory 0

resolve_default_position-menu_entries_example :
    Answers
      (is_default iso_name (some (text "server")))
      0
      (menu_entries factory autoinstall bootable 0)
      (resolve_default_position
        (menu_entries factory autoinstall bootable 0)
        (some iso_name)
        (some (text "server")))
resolve_default_position-menu_entries_example =
    resolve_default_position-menu_entries factory autoinstall bootable iso_name
      (some (text "server"))

is_empty-default_pair_warnings_example :
    is_empty (
      default_pair_warnings
        (text "lan")
        (some iso_name)
        (some (text "server"))
        (iso_name ∷ [])
        autoinstall)
    ≡ is_some (
        resolve_default_position
          (menu_entries factory autoinstall bootable 0)
          (some iso_name)
          (some (text "server")))
unfolding placeholder apply_boot_info
is_empty-default_pair_warnings_example =
    is_empty-default_pair_warnings factory autoinstall bootable (text "lan") iso_name
      (some (text "server")) (boots_below, tt)

abbrev written : Option Text → Option Text → Result Text
written iso script_name =
    render_grub_cfg handlebars (menu_entries factory autoinstall bootable 0) [] iso script_name

abbrev text_of : Result Text → Text
text_of (ok t) = t
text_of (err e) = []

text_of_lem : (r : Result Text) → is_ok r ≡ true → r ≡ ok (text_of r)
text_of_lem (ok t) h = refl
text_of_lem (err e) h = cc

renders :
    (is_ok (written (some iso_name) none) ≡ true)
    × (is_ok (written (some iso_name) (some (text "server"))) ≡ true)
unfolding render_grub_cfg create_entry strip_path build render_entry new_builder to_grub_cpu
    resolve_default_position menu_entries scripts_of placeholder apply_boot_info
renders = (refl, refl)

find_default-render_grub_cfg_example :
    let entries = menu_entries factory autoinstall bootable 0 in
    (rest : Text) × (find_default true (text_of (written (some iso_name) none))
      ≡ some (resolve_default_position entries (some iso_name) none, rest))
    × (find_default true (text_of (written (some iso_name) (some (text "server"))))
        ≡ some (resolve_default_position entries (some iso_name) (some (text "server")), rest))
find_default-render_grub_cfg_example =
    find_default-render_grub_cfg handlebars (menu_entries factory autoinstall bootable 0) []
      (some iso_name) none (some iso_name) (some (text "server"))
      (text_of (written (some iso_name) none))
      (text_of (written (some iso_name) (some (text "server"))))
      (text_of_lem (written (some iso_name) none) renders.0)
      (text_of_lem (written (some iso_name) (some (text "server"))) renders.1)

taken-prepare_example :
    ((prepare machine handlebars service state).1.locked ≡ false)
    × ((state.locked && is_ok (prepare machine handlebars service state).0) ≡ false)
taken-prepare_example =
    taken-prepare machine handlebars service (machine_locks (lock_path settings.runtime_root)) state

detect_all-Reported_example :
    let d = detect_all registry state ((iso_path, mount_path) ∷ []) in
    All (Reported registry state d) ((iso_path, mount_path) ∷ [])
    × (length d.iso_infos + length d.failed_isos ≡ 1)
unfolding file_name
detect_all-Reported_example = detect_all-Reported registry state ((iso_path, mount_path) ∷ [])

menu_entries-Numbered_example : Numbered 0 (menu_entries factory autoinstall bootable 0)
menu_entries-Numbered_example = menu_entries-Numbered factory autoinstall bootable 0
