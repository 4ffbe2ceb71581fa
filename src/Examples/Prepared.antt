-- ===== src/Examples/Prepared.antt =====
-- main.rs: a whole run of `prepare` on the machine, from the image in its folder to the menus.
use nixos_router_module.Base.{ap, All, List, [], false, get_elem?, refl, some, true, ◌∷◌, ◌≡◌}
use nixos_router_module.Cli.{ParseConfig, main, prepare_command}
use nixos_router_module.Cli.Finished.{main-HasMenus}
use nixos_router_module.Config.{PxeBootConfig, apply_boot_info, placeholder, scripts_of}
use nixos_router_module.Config.Validation.{validate}
use nixos_router_module.Distro.Arch.{detect_architecture_from_file_name, to_grub_cpu}
use nixos_router_module.Distro.Detector.{detect, register}
use nixos_router_module.Distro.Unknown.{new_registry}
use nixos_router_module.Distro.Ubuntu.{ubuntu_extract_boot_info}
use nixos_router_module.Errors.{Result, first_error, is_ok, ok, with_path}
use nixos_router_module.Examples.Data.{from_str, handlebars, iso_name, iso_path, lan, settings}
use nixos_router_module.Grub.Entry.{create_entry}
use nixos_router_module.Grub.Menu.{build, new_builder, render_entry}
use nixos_router_module.Iso.Discovery.{discover_isos, extension, insert_path, name_of}
use nixos_router_module.Iso.FindFile.{find_file}
use nixos_router_module.Iso.Mount.{check_output}
use nixos_router_module.Iso.Mounter.{mount_at, mount_iso, mount_path}
use nixos_router_module.Iso.ServeTree.{rebuild, swap_tree, with_file_name}
use nixos_router_module.Machine.{
  Machine, files_below, find_contents, machine, machine-CopiesFiles, machine-StoresFiles, moved,
}
use nixos_router_module.Paths.{
  FilePath, display_path, file_name, join_text_path, normal, root_dir, strip_path,
}
use nixos_router_module.Service.Collaborators.{PxeBootService}
use nixos_router_module.Service.Defaults.{resolve_default_position}
use nixos_router_module.Service.Detection.{Detected, boot_of, detect_all}
use nixos_router_module.Service.Entries.{menu_entries}
use nixos_router_module.Service.Finished.{ReleaseKeepsFiles}
use nixos_router_module.Service.Interleaving.Outcome.{HasMenus}
use nixos_router_module.Service.Interleaving.Places.{HasPlainMacs}
use nixos_router_module.Service.Menu.{generate_grub_menu, write_overrides}
use nixos_router_module.Service.New.{new_service}
use nixos_router_module.Service.Prepare.{
  acquire_prepare_lock, detected_isos, generate_all, lock_path, prepare,
}
use nixos_router_module.Service.Render.{render_grub_cfg}
use nixos_router_module.Tables.{lies_below, outside, renamed}
use nixos_router_module.Text.{Text, contains_text, text, to_lowercase}

-- The image is in a folder, and its files are where it is mounted.
abbrev serving : PxeBootConfig
serving = record settings {
  iso_folder_paths = (root_dir ∷ normal (text "isos") ∷ []) ∷ [];
  autoinstall = [];
}

abbrev casper : Text → FilePath
casper name =
    root_dir
    ∷ normal (text "run")
    ∷ normal (text "iso-mountpoint")
    ∷ normal iso_name
    ∷ normal (text "casper")
    ∷ normal name
    ∷ []

abbrev config_path : FilePath
config_path = root_dir ∷ normal (text "config.json") ∷ []

abbrev parse : ParseConfig
parse contents = ok serving

abbrev before : Machine
before = record {
  files =
      (iso_path, [])
      ∷ (config_path, text "{}")
      ∷ (root_dir ∷ normal (text "tftp") ∷ normal (text "boot") ∷ [], [])
      ∷ (casper (text "ubuntu-server-minimal.squashfs"), [])
      ∷ (casper (text "vmlinuz"), [])
      ∷ (casper (text "initrd"), [])
      ∷ [];
  links = [];
  locked = false;
}

abbrev serving_isos : PxeBootService Machine
serving_isos = new_service machine from_str serving

abbrev locked : Result (Unit {0}) × Machine
locked = acquire_prepare_lock machine handlebars serving_isos before

abbrev ready : Detected Machine × Machine
ready = detected_isos machine handlebars serving_isos (iso_path ∷ []) locked.1

got_lock : locked.0 ≡ ok tt
unfolding acquire_prepare_lock
got_lock = refl

found_iso : (serving_isos.collaborators.discover locked.1).0 ≡ ok (iso_path ∷ [])
unfolding acquire_prepare_lock discover_isos files_below name_of extension file_name to_lowercase
    insert_path join_text_path
found_iso = refl

valid : is_ok (validate (λ p. true) serving) ≡ true
unfolding validate
valid = refl

plain_macs : All HasPlainMacs serving.dhcp_interfaces
unfolding to_lowercase
plain_macs = (((refl, tt), (tt, tt)), (((refl, tt), (tt, tt)), tt))

abbrev ended : List (Result (Unit {0})) × Machine
ended =
    generate_all machine handlebars serving_isos serving.dhcp_interfaces ready.0.iso_infos
      ready.0.failed_isos ready.1

detected : ready.0.failed_isos ≡ []
unfolding acquire_prepare_lock detected_isos rebuild with_file_name swap_tree join_text_path moved
    lies_below first_error outside mount_iso mount_at mount_path file_name detect_all boot_of
    new_registry register detect ubuntu_extract_boot_info find_file files_below placeholder
    display_path strip_path to_lowercase detect_architecture_from_file_name contains_text
    check_output renamed
detected = refl

written : get_elem? ended.0 1 ≡ some (ok tt)
unfolding generate_all generate_grub_menu write_overrides render_grub_cfg create_entry strip_path
    build render_entry new_builder to_grub_cpu resolve_default_position menu_entries scripts_of
    placeholder apply_boot_info acquire_prepare_lock detected_isos rebuild with_file_name swap_tree
    join_text_path moved lies_below first_error outside mount_iso mount_at mount_path file_name
    detect_all boot_of new_registry register detect ubuntu_extract_boot_info find_file files_below
    display_path to_lowercase detect_architecture_from_file_name contains_text check_output renamed
written = refl

machine-ReleaseKeepsFiles : (lock : FilePath) → ReleaseKeepsFiles machine lock
machine-ReleaseKeepsFiles lock = record { release_keeps = λ s p. refl }

found_iso_kept : serving_isos.collaborators.discover locked.1 ≡ (ok (iso_path ∷ []), locked.1)
found_iso_kept = ap (λ r. (r, locked.1)) found_iso

config_read : find_contents config_path before.files ≡ ok (text "{}")
unfolding find_contents
config_read = refl

main_succeeds :
    is_ok (main machine handlebars from_str parse config_path prepare_command before).0 ≡ true
unfolding main with_path find_contents validate lies_below prepare discover_isos files_below
    join_text_path file_name to_lowercase
main_succeeds = refl

main-HasMenus_example :
    HasMenus machine handlebars machine-StoresFiles serving ready.0.iso_infos ready.0.failed_isos
      (main machine handlebars from_str parse config_path prepare_command before).1
      (lan 12)
main-HasMenus_example =
    main-HasMenus machine handlebars from_str parse machine-CopiesFiles machine-StoresFiles serving
      (machine-ReleaseKeepsFiles (lock_path serving.runtime_root)) config_path (text "{}") iso_path
      [] before 1 (lan 12) config_read refl plain_macs main_succeeds found_iso refl written
