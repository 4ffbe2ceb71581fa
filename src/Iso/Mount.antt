-- ===== src/Iso/Mount.antt =====
-- iso/mount.rs: what is mounted at a mount point, and how the commands end.
pub mod Field
use nixos_router_module.Base.{
  Bool, List, Option, [], false, if◌then◌else◌, list_eq, nat_eq, none, some, ◌++◌, ◌==◌, ◌∷◌,
}
use nixos_router_module.Errors.{
  IoResult, PxeBootError, Result, err, io, mount_failed, ok, with_path, ◌>>◌, ◌>>=◌,
}
use nixos_router_module.Iso.Mount.Field.{unescape_mount_field}
use nixos_router_module.Os.{CommandOutput, Os}
use nixos_router_module.Paths.{FilePath, component_eq, display_path, path_of}
use nixos_router_module.Text.{Text, strip_prefix, text}
use nixos_router_module.Text.Blank.{lines, split_whitespace, trim}

-- The device of the first line whose mount point is the one that is asked for.
unfoldable pub find_device : Text → List Text → Option Text
unfolding split_whitespace unescape_mount_field
find_device mount_point [] = none
find_device mount_point (line ∷ rest) =
    let later = find_device mount_point rest in
    elim (split_whitespace line) [
      | [] ↦ later
      | device ∷ parts ↦ elim parts [
        | [] ↦ later
        | field ∷ _ ↦ if unescape_mount_field field == mount_point then some device else later
      ]
    ]

abbrev pub backing_file_path : Text → FilePath
backing_file_path loop_name =
    path_of (text "/sys/block/" ++ (loop_name ++ text "/loop/backing_file"))

-- `unwrap_or`
abbrev pub canonical_or_self : IoResult FilePath → FilePath → FilePath
canonical_or_self (ok p) q = p
canonical_or_self (err e) q = q

module _ (os : Os) where
  -- What is behind a device: whether it is a loop device on the image that is expected.
  unfoldable pub verify_device : os.State → FilePath → Option Text → Bool
  verify_device s expected_iso none = false
  verify_device s expected_iso (some loop_device) = elim (strip_prefix loop_device (text "/dev/")) [
    | none ↦ false
    | some loop_name ↦ elim (os.read_to_string s (backing_file_path loop_name)) [
      | err e ↦ false
      | ok contents ↦
          let backing_file = path_of (trim contents) in
          canonical_or_self (os.canonicalize s backing_file) backing_file
          == canonical_or_self (os.canonicalize s expected_iso) expected_iso
    ]
  ]

  unfoldable pub verify_mount : os.State → FilePath → FilePath → Result Bool
  unfolding find_device verify_device
  verify_mount s mount_point expected_iso = do
    mounts ←
        with_path (os.read_to_string s (path_of (text "/proc/mounts")))
          (path_of (text "/proc/mounts"))
    ok (verify_device s expected_iso (find_device (display_path mount_point) (lines mounts)))

-- The error of a command that did not succeed.
abbrev pub command_failed : Text → FilePath → CommandOutput → PxeBootError
command_failed name path output =
    mount_failed path (
      name
      ++ (text " command exited with " ++ (output.status ++ (text ": " ++ trim output.stderr))))

unfoldable pub check_output : Text → FilePath → IoResult CommandOutput → Result (Unit {0})
check_output name path (err e) = err (io e)
check_output name path (ok output) =
    if output.success then ok tt else err (command_failed name path output)
