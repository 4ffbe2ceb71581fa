-- ===== src/Examples/Detecting.antt =====
-- distro/: examples.
use nixos_router_module.Base.{All, [], false, refl, true, ◌++◌, ◌∷◌, ◌≡◌, ◌≤◌, ◌⊎◌}
use nixos_router_module.Config.{placeholder}
use nixos_router_module.Distro.Arch.{detect_architecture_from_file_name}
use nixos_router_module.Distro.BootPaths.Inside.{
  IsInside, NeverClimbs, extract_boot_info-BootsInside,
}
use nixos_router_module.Distro.Detector.{detect, register}
use nixos_router_module.Distro.NixOs.{BootSpecV1, nixos_detector, read_bootspec}
use nixos_router_module.Distro.Priority.{IsSorted, at_priority, detect_highest, register_lem}
use nixos_router_module.Distro.Registry.{chosen_detector, detect-new_registry}
use nixos_router_module.Distro.Rhel.{rhel_detector}
use nixos_router_module.Distro.Ubuntu.{ubuntu_detector, ubuntu_extract_boot_info}
use nixos_router_module.Distro.Unknown.{new_registry, unknown_detector}
use nixos_router_module.Errors.{ok}
use nixos_router_module.Examples.Data.{
  boot, from_str, iso_name, iso_path, mount_path, registry, state,
}
use nixos_router_module.Iso.FindFile.{find_file}
use nixos_router_module.Machine.{files_below, find_contents, machine, machine-WalksInside}
use nixos_router_module.Paths.{display_path, file_name, join_text_path, strip_path}
use nixos_router_module.Text.{contains_text, to_lowercase}
use nixos_router_module.Tables.{lies_below}

detect_ubuntu : detect registry state mount_path ≡ ok (ubuntu_detector machine)
unfolding new_registry register detect lies_below join_text_path
detect_ubuntu = refl

extract_ubuntu :
    ubuntu_extract_boot_info machine state (placeholder iso_name iso_path mount_path) ≡ ok boot
unfolding ubuntu_extract_boot_info find_file files_below placeholder file_name display_path
    strip_path to_lowercase detect_architecture_from_file_name contains_text
extract_ubuntu = refl

no_bootspec :
    (spec : BootSpecV1)
    → read_bootspec machine from_str state mount_path ≡ ok spec
    → NeverClimbs spec.kernel × NeverClimbs spec.initrd
unfolding read_bootspec find_contents join_text_path
no_bootspec spec h = cc

extract_boot_info-BootsInside_example :
    IsInside mount_path boot.kernel_path × IsInside mount_path boot.initrd_path
unfolding placeholder
extract_boot_info-BootsInside_example =
    extract_boot_info-BootsInside machine from_str machine-WalksInside state
      (placeholder iso_name iso_path mount_path) (ubuntu_detector machine) boot no_bootspec
      detect_ubuntu extract_ubuntu

register_lem_example :
    IsSorted (register registry (ubuntu_detector machine))
    × (at_priority 55 (register registry (ubuntu_detector machine))
        ≡ at_priority 55 (registry ++ ubuntu_detector machine ∷ []))
register_lem_example = register_lem registry (ubuntu_detector machine) 55

registry-IsSorted : IsSorted registry
unfolding new_registry
registry-IsSorted =
    (register_lem
      (register (register (register [] (nixos_detector machine from_str)) (ubuntu_detector machine))
        (rhel_detector machine))
      (unknown_detector machine) 0).0

detect_highest_example :
    ((ubuntu_detector machine).can_handle state mount_path ≡ ok true)
    × All (λ e. (e.priority ≤ 55) ⊎ (e.can_handle state mount_path ≡ ok false)) registry
detect_highest_example =
    detect_highest state mount_path registry (ubuntu_detector machine) registry-IsSorted
      detect_ubuntu

detect-new_registry_example :
    detect registry state mount_path ≡ ok (chosen_detector machine from_str state mount_path)
detect-new_registry_example = detect-new_registry machine from_str state mount_path
