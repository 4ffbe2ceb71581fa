-- ===== src/Iso/MountTable.antt =====
-- iso/mount.rs: the table of mounts of the kernel, which `verify_mount` reads from /proc/mounts.
pub mod Lines
pub mod Found
pub mod Shown
use nixos_router_module.Base.{
  All, Bool, List, Option, [], all, leb, list_eq, nat_eq, none, not, some, true, ℕ, ◌&&◌, ◌++◌,
  ◌==◌, ◌||◌, ◌∷◌, ◌≡◌, ◌≢◌, ◌⊎◌, if◌then◌else◌,
}
use nixos_router_module.Errors.{ok}
use nixos_router_module.Iso.Fields.{escape_mount_field, is_escaped}
use nixos_router_module.Iso.Mount.{backing_file_path, canonical_or_self}
use nixos_router_module.Os.{CommandOutput, Os}
use nixos_router_module.Paths.{FilePath, display_path, path_of}
use nixos_router_module.Text.{Text, strip_prefix, text}
use nixos_router_module.Text.Blank.{is_blank, trim}

-- A mount: its device, where it is mounted, the rest of its line, and the file behind a loop device.
pub record Mount : Type 0 where
  pub device : Text
  pub point : Text
  pub options : Text
  pub image : Option FilePath

-- A line of /proc/mounts.
abbrev pub mount_line : Mount → Text
mount_line m = m.device ++ b' ' ∷ (escape_mount_field m.point ++ b' ' ∷ m.options)

unfoldable pub render_mounts : List Mount → Text
render_mounts [] = []
render_mounts (m ∷ rest) = mount_line m ++ b'\n' ∷ render_mounts rest

-- A byte that no white space of Unicode starts with.
abbrev pub is_plain : ℕ → Bool
is_plain c = not (is_blank c) && not (c == 194 || (leb 225 c && leb c 227))

-- A byte that does not end a line.
abbrev pub stays_on_line : ℕ → Bool
stays_on_line c = not (c == b'\n') && not (c == b'\r')

-- The fields have no white space but what the kernel escapes.
pub record IsPlainMount (m : Mount) : Type 0 where
  pub device_bytes : all is_plain m.device ≡ true
  pub device_nonempty : m.device ≢ []
  pub point_bytes : all (λ c. is_plain c || is_escaped c) m.point ≡ true
  pub point_nonempty : m.point ≢ []
  pub option_bytes : all stays_on_line m.options ≡ true

-- The first mount at a point.
abbrev pub first_at : Text → List Mount → Option Mount
first_at point [] = none
first_at point (m ∷ rest) =
    let later = first_at point rest in if m.point == point then some m else later

abbrev pub In : Mount → List Mount → Type 0
In m [] = ⊥
In m (x ∷ rest) = (m ≡ x) ⊎ In m rest

abbrev pub canonical : (os : Os) → os.State → FilePath → FilePath
canonical os s p = canonical_or_self (os.canonicalize s p) p

-- The table has a mount of an image at a point, up to links.
abbrev pub Shows : (os : Os) → (os.State → List Mount) → os.State → FilePath → FilePath → Type 0
Shows os mounts s point iso =
    (m : Mount) × (image : FilePath) × In m (mounts s)
    × (m.point ≡ display_path point)
    × (m.image ≡ some image)
    × (canonical os s image ≡ canonical os s iso)

-- How the kernel keeps and reports mounts: /proc/mounts lists them, the backing file of a loop
-- device names the image, and a mount command that succeeds adds a mount of its image.
pub record KernelMounts (os : Os) : Type 0 where
  pub mounts : os.State → List Mount
  pub plain : (s : os.State) → All IsPlainMount (mounts s)
  pub listed :
      (s : os.State) (contents : Text)
      → os.read_to_string s (path_of (text "/proc/mounts")) ≡ ok contents
      → contents ≡ render_mounts (mounts s)
  pub backed :
      (s : os.State) (m : Mount) (name contents : Text)
      → In m (mounts s)
      → strip_prefix m.device (text "/dev/") ≡ some name
      → os.read_to_string s (backing_file_path name) ≡ ok contents
      → m.image ≡ some (path_of (trim contents))
  pub mounted :
      (iso point : FilePath) (s : os.State) (output : CommandOutput)
      → (os.mount iso point s).0 ≡ ok output
      → output.success ≡ true
      → Shows os mounts (os.mount iso point s).1 point iso
