-- ===== src/Examples/Mounted.antt =====
-- iso/mount.rs: an image is mounted where another one was.
use nixos_router_module.Base.{ap, All, List, [], Option, none, refl, some, ◌∷◌, ◌≡◌}
use nixos_router_module.Errors.{Result, ok, with_path}
use nixos_router_module.Examples.Data.{iso_name, iso_path, settings}
use nixos_router_module.Iso.Mount.{check_output, find_device, verify_device, verify_mount}
use nixos_router_module.Iso.MountTable.{IsPlainMount, Mount, Shows, render_mounts}
use nixos_router_module.Iso.MountTable.Found.{find_device-render_mounts}
use nixos_router_module.Iso.MountTable.Shown.{mount_iso-Shows}
use nixos_router_module.Iso.Mounter.{mount_at, mount_iso, mount_path, remount}
use nixos_router_module.Machine.Loop.{
  Loop, kernel_file, loop_machine, loop_mounts, mount_loop, mounts_of,
}
use nixos_router_module.Paths.{
  FilePath, display_path, file_name, join_text_path, normal, path_of, root_dir,
}
use nixos_router_module.Iso.Fields.{escape_mount_field}
use nixos_router_module.Text.{Text, text, strip_prefix}
use nixos_router_module.Text.Blank.{lines, trim}

-- Another image on the mount point.
abbrev stale : Option Loop
stale = some (record {
  point = mount_path settings.runtime_root iso_name;
  image = root_dir ∷ normal (text "old") ∷ normal iso_name ∷ [];
})

abbrev outcome : Result FilePath × Option Loop
outcome = mount_iso loop_machine settings.runtime_root iso_path stale

remounted : outcome.0 ≡ ok (mount_path settings.runtime_root iso_name)
unfolding mount_iso mount_at remount mount_path file_name join_text_path path_of display_path
    verify_mount verify_device find_device kernel_file mount_loop check_output render_mounts lines
    with_path escape_mount_field strip_prefix trim
remounted = refl

mounted_over :
    (mount_iso loop_machine settings.runtime_root iso_path stale)
    ≡ (ok (mount_path settings.runtime_root iso_name), outcome.1)
mounted_over = ap (λ r. (r, outcome.1)) remounted

mount_iso-Shows_example :
    (name : Text) × (file_name iso_path ≡ some name)
    × (mount_path settings.runtime_root iso_name ≡ mount_path settings.runtime_root name)
    × Shows loop_machine mounts_of outcome.1 (mount_path settings.runtime_root iso_name) iso_path
mount_iso-Shows_example =
    mount_iso-Shows loop_machine loop_mounts settings.runtime_root iso_path stale outcome.1
      (mount_path settings.runtime_root iso_name) mounted_over

abbrev spaced : Text
spaced = text "/mnt/my disc"

abbrev kernel_table : List Mount
kernel_table =
    record { device = text "/dev/sda1"; point = text "/"; options = text "ext4 rw"; image = none }
    ∷ record {
      device = text "/dev/loop3";
      point = spaced;
      options = text "iso9660 ro";
      image = none;
    }
    ∷ []

all-IsPlainMount : All IsPlainMount kernel_table
all-IsPlainMount = (
  record {
    device_bytes = refl;
    device_nonempty = λ e. cc;
    point_bytes = refl;
    point_nonempty = λ e. cc;
    option_bytes = refl;
  },
  (
    record {
      device_bytes = refl;
      device_nonempty = λ e. cc;
      point_bytes = refl;
      point_nonempty = λ e. cc;
      option_bytes = refl;
    },
    tt,
  ),
)

find_device-render_mounts_example :
    find_device spaced (lines (render_mounts kernel_table)) ≡ some (text "/dev/loop3")
find_device-render_mounts_example = find_device-render_mounts spaced kernel_table all-IsPlainMount
