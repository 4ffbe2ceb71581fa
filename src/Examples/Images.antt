-- ===== src/Examples/Images.antt =====
-- iso/: examples.
use nixos_router_module.Base.{[], false, flat_map, refl, ◌++◌, ◌∷◌, ◌≡◌}
use nixos_router_module.Autoinstall.Served.{Serves}
use nixos_router_module.Examples.Data.{factory, iso-IsName, iso_bytes, iso_name, settings}
use nixos_router_module.Grub.Entry.{iso_url, mounted_url}
use nixos_router_module.Iso.Discovery.{discover_isos, extension, found_in, insert_path, name_of}
use nixos_router_module.Iso.Fields.{escape_mount_field, unescape_mount_field-escape_mount_field}
use nixos_router_module.Iso.FirstMatch.{at_name, at_name-discover_isos, first_of}
use nixos_router_module.Iso.Mount.Field.{unescape_mount_field}
use nixos_router_module.Iso.Mounter.{mount_path as mount_point_of}
use nixos_router_module.Iso.Order.{Ascending, discover_isos-Ascending}
use nixos_router_module.Iso.ServeTree.{isos_dir}
use nixos_router_module.Iso.Served.{image_urls-Serves}
use nixos_router_module.Machine.{Machine, files_below, machine}
use nixos_router_module.Paths.{FilePath, file_name, join_text_path, normal, root_dir}
use nixos_router_module.Text.{text, to_lowercase}

unescape_mount_field-escape_mount_field_example :
    unescape_mount_field (escape_mount_field (text "/mnt/my disc\\.iso"))
    ≡ text "/mnt/my disc\\.iso"
unescape_mount_field-escape_mount_field_example =
    unescape_mount_field-escape_mount_field (text "/mnt/my disc\\.iso")

abbrev isos : FilePath
isos = root_dir ∷ normal (text "isos") ∷ []

abbrev more_isos : FilePath
more_isos = root_dir ∷ normal (text "more") ∷ []

-- The same file name in two folders.
abbrev two_copies : Machine
two_copies = record {
  files = (more_isos ++ normal iso_name ∷ [], []) ∷ (isos ++ normal iso_name ∷ [], []) ∷ [];
  links = [];
  locked = false;
}

discovered_once :
    discover_isos machine two_copies (isos ∷ more_isos ∷ []) ≡ (isos ++ normal iso_name ∷ []) ∷ []
unfolding discover_isos files_below name_of extension file_name to_lowercase insert_path
discovered_once = refl

at_name-discover_isos_example :
    at_name iso_name (discover_isos machine two_copies (isos ∷ more_isos ∷ []))
    ≡ first_of (at_name iso_name (flat_map (found_in machine two_copies) (isos ∷ more_isos ∷ [])))
at_name-discover_isos_example =
    at_name-discover_isos machine two_copies iso_name (isos ∷ more_isos ∷ [])

discover_isos-Ascending_example :
    Ascending (discover_isos machine two_copies (more_isos ∷ isos ∷ []))
discover_isos-Ascending_example = discover_isos-Ascending machine two_copies (more_isos ∷ isos ∷ [])

image_urls-Serves_example :
    Serves factory settings.runtime_root
      (mounted_url factory iso_name)
      (mount_point_of settings.runtime_root iso_name)
    × Serves factory settings.runtime_root
        (iso_url factory iso_name)
        (join_text_path (isos_dir settings.runtime_root) iso_name)
image_urls-Serves_example =
    image_urls-Serves factory settings.runtime_root iso_name iso-IsName iso_bytes
