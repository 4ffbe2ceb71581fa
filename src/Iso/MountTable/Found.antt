-- ===== src/Iso/MountTable/Found.antt =====
-- iso/mount.rs: `verify_mount` against the table of mounts of the kernel.
use nixos_router_module.Base.{
  All, Bool, Bool-cases, List, Option, Option-cases, [], ap, false, if◌then◌else◌, inl, inr,
  list_beq_iff, list_eq, nat_eq, none, refl, some, sym, true, ◌==◌, ◌∙◌, ◌∷◌, ◌≡◌,
}
use nixos_router_module.Errors.{
  IoError, >>=-eq-ok, IoResult, PxeBootError, Result, StdResult-cases, err, io_path, map_err, ok,
  with_path,
}
use nixos_router_module.Iso.Fields.{unescape_mount_field-escape_mount_field}
use nixos_router_module.Iso.Mount.{backing_file_path, find_device, verify_device, verify_mount}
use nixos_router_module.Iso.MountTable.{
  In, IsPlainMount, KernelMounts, Mount, Shows, canonical, first_at, mount_line, render_mounts,
}
use nixos_router_module.Iso.MountTable.Lines.{
  lines-append, split_whitespace-mount_line, stays_on_line-mount_line,
}
use nixos_router_module.Os.{Os}
use nixos_router_module.Paths.{FilePath, component_eq, display_path, path_of}
use nixos_router_module.Text.{Text, strip_prefix, text}
use nixos_router_module.Text.Blank.{lines, trim}

abbrev pub device_of : Option Mount → Option Text
device_of none = none
device_of (some m) = some m.device

device_of-if :
    (b : Bool) (m : Mount) (later : Option Mount)
    → (if b then some m.device else device_of later) ≡ device_of (if b then some m else later)
device_of-if true m later = refl
device_of-if false m later = refl

find_device-mount_line :
    (point : Text) (m : Mount) (rest : List Text)
    → IsPlainMount m
    → find_device point (mount_line m ∷ rest)
      ≡ (if m.point == point then some m.device else find_device point rest)
unfolding find_device
find_device-mount_line point m rest plain =
    let (fields, e) = split_whitespace-mount_line m plain in
    rw (e, find_device, unescape_mount_field-escape_mount_field m.point) refl

-- In the text that the kernel makes of its table of mounts, the search for a mount point finds the
-- device of the first mount at that point, and none if there is no mount there, whatever spaces,
-- tabs, line ends and backslashes stand in the mount points. The fields have no other white space.
pub find_device-render_mounts :
    (point : Text) (ms : List Mount)
    → All IsPlainMount ms
    → find_device point (lines (render_mounts ms)) ≡ device_of (first_at point ms)
unfolding render_mounts
find_device-render_mounts point [] h = unfold lines find_device in refl
find_device-render_mounts point (m ∷ rest) (plain, h) =
    ap (find_device point)
      (lines-append (mount_line m) (render_mounts rest) (stays_on_line-mount_line m plain))
    ∙ (find_device-mount_line point m (lines (render_mounts rest)) plain
        ∙ (ap (λ d. if m.point == point then some m.device else d)
              (find_device-render_mounts point rest h)
            ∙ device_of-if (m.point == point) m (first_at point rest)))

first_at-In :
    (point : Text) (ms : List Mount) (m : Mount)
    → first_at point ms ≡ some m
    → In m ms × (m.point ≡ point)
first_at-In point [] m h = cc
first_at-In point (x ∷ rest) m h = elim (Bool-cases (x.point == point)) [
  | inl hit ↦
      let e : x ≡ m = some-injective x m (rw hit at h) in
      (inl (sym e), ap Mount.point (sym e) ∙ (list_beq_iff x.point point).0 hit)
  | inr miss ↦ let (a, b) = first_at-In point rest m (rw miss at h) in (inr a, b)
]
  where
    some-injective : (a b : Mount) → some a ≡ some b → a ≡ b
    some-injective a b k = cc

ok-injective : {A : Type 0} (a b : A) → ◌≡◌ {A = Result A} (ok a) (ok b) → a ≡ b
ok-injective a b h = cc

ok_of_map_err :
    {A : Type 0} (f : IoError → PxeBootError) (r : IoResult A) (a : A)
    → map_err f r ≡ ok a
    → r ≡ ok a
ok_of_map_err f (ok b) a h = cc
ok_of_map_err f (err e) a h = cc

module _ (os : Os) (s : os.State) (iso : FilePath) where
  -- A device that is accepted is a loop device whose backing file is the image.
  verify_device-true :
      (device : Text)
      → verify_device os s iso (some device) ≡ true
      → (name : Text) × (contents : Text) × (strip_prefix device (text "/dev/") ≡ some name)
        × (os.read_to_string s (backing_file_path name) ≡ ok contents)
        × (canonical os s (path_of (trim contents)) ≡ canonical os s iso)
  unfolding verify_device
  verify_device-true device h = elim (Option-cases (strip_prefix device (text "/dev/"))) [
    | inl k ↦ let g = rw (k, verify_device) at h in cc
    | inr (name, k) ↦ elim (StdResult-cases (os.read_to_string s (backing_file_path name))) [
      | inl (e, r) ↦ let g = rw (k, r, verify_device) at h in cc
      | inr (contents, r) ↦
          (name, contents, k, r, (list_beq_iff _ _).0 (rw (k, r, verify_device) at h))
    ]
  ]

  -- `verify_mount` accepts a mount point only if the table of the kernel has a mount of the image at
  -- that point.
  module _ (kernel : KernelMounts os) (point : FilePath) where
    verify_first :
        (found : Option Mount)
        → first_at (display_path point) (kernel.mounts s) ≡ found
        → verify_device os s iso (device_of found) ≡ true
        → Shows os kernel.mounts s point iso
    verify_first none e h = unfold verify_device in cc
    verify_first (some m) e h =
        let (is_in, at) = first_at-In (display_path point) (kernel.mounts s) m e in
        let (name, contents, k, r, same) = verify_device-true m.device h in
        (m, path_of (trim contents), is_in, at, kernel.backed s m name contents is_in k r, same)

    pub verify_mount-Shows :
        verify_mount os s point iso ≡ ok true → Shows os kernel.mounts s point iso
    unfolding verify_mount with_path
    verify_mount-Shows h =
        let (contents, same, read) =
          >>=-eq-ok
            (λ mounts.
              ok (verify_device os s iso (find_device (display_path point) (lines mounts))))
            (with_path (os.read_to_string s (path_of (text "/proc/mounts")))
              (path_of (text "/proc/mounts")))
            (sym h) in
        let listed : contents ≡ render_mounts (kernel.mounts s) =
          kernel.listed s contents
            (ok_of_map_err (io_path (path_of (text "/proc/mounts"))) _ contents read) in
        let found : find_device (display_path point) (lines contents)
            ≡ device_of (first_at (display_path point) (kernel.mounts s)) =
          ap (λ t. find_device (display_path point) (lines t)) listed
          ∙ find_device-render_mounts (display_path point) (kernel.mounts s) (kernel.plain s) in
        verify_first (first_at (display_path point) (kernel.mounts s)) refl
          (ap (verify_device os s iso) (sym found) ∙ ok-injective _ true same)
