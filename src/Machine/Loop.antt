-- ===== src/Machine/Loop.antt =====
-- A machine with one loop device, on which an image is mounted.
use nixos_router_module.Base.{
  &&-iff, ==-refl, All, Bool, Bool-cases, List, Option, [], all, ap, arith, false, if◌then◌else◌,
  inl, inr, list_beq_iff, list_eq, nat_eq, none, not, refl, some, sym, true, ◌&&◌, ◌==◌, ◌||◌, ◌∙◌,
  ◌∷◌, ◌≡◌, ◌⊎◌,
}
use nixos_router_module.Errors.{IoResult, err, not_found, ok}
use nixos_router_module.Iso.Fields.{is_escaped}
use nixos_router_module.Iso.Mount.{backing_file_path}
use nixos_router_module.Iso.MountTable.{
  In, IsPlainMount, KernelMounts, Mount, Shows, is_plain, render_mounts,
}
use nixos_router_module.Machine.{command_done}
use nixos_router_module.Os.{CommandOutput, Os}
use nixos_router_module.Paths.{FilePath, component_eq, display_path, path_of}
use nixos_router_module.Text.{Text, strip_prefix, text}
use nixos_router_module.Text.Blank.{trim}

-- The image on the loop device, and where it is mounted.
pub record Loop : Type 0 where
  pub point : FilePath
  pub image : FilePath

abbrev pub is_plain_point : Text → Bool
is_plain_point t = not (t == []) && all (λ c. is_plain c || is_escaped c) t

abbrev pub loop_mount : Loop → Mount
loop_mount l = record {
  device = text "/dev/loop0";
  point = display_path l.point;
  options = text "iso9660 ro 0 0";
  image = some (path_of (trim (display_path l.image)));
}

abbrev pub mounts_of : Option Loop → List Mount
mounts_of none = []
mounts_of (some l) = if is_plain_point (display_path l.point) then loop_mount l ∷ [] else []

abbrev pub proc_mounts : FilePath
proc_mounts = path_of (text "/proc/mounts")

abbrev pub missing : {A : Type 0} → IoResult A
missing = err (record { kind = not_found; message = text "not found" })

abbrev pub backing : Option Loop → IoResult Text
backing none = missing
backing (some l) = ok (display_path l.image)

-- The files that the kernel shows.
unfoldable pub kernel_file : Option Loop → FilePath → IoResult Text
kernel_file s p =
    if p == proc_mounts
    then ok (render_mounts (mounts_of s))
    else if p == backing_file_path (text "loop0")
    then backing s
    else missing

abbrev pub refused : CommandOutput
refused = record { success = false; status = text "exit status: 32"; stderr = text "refused" }

-- A mount is refused if its fields cannot be told apart, or its image is not named by its text.
abbrev pub can_mount : FilePath → FilePath → Bool
can_mount iso point =
    is_plain_point (display_path point) && path_of (trim (display_path iso)) == iso

unfoldable pub mount_loop : FilePath → FilePath → Option Loop → IoResult CommandOutput × Option Loop
mount_loop iso point s =
    if can_mount iso point
    then (ok command_done, some (record { point = point; image = iso }))
    else (ok refused, s)

abbrev pub loop_machine : Os
loop_machine = record {
  State = Option Loop;
  exists = λ s p. true;
  is_file = λ s p. true;
  read_to_string = kernel_file;
  walk = λ s base depth. [];
  create_dir_all = λ p s. (ok tt, s);
  write = λ p contents s. (ok tt, s);
  open_truncated = λ p s. (ok tt, s);
  try_lock = λ p s. (true, s);
  release = λ p s. s;
  is_dir = λ s p. ok true;
  canonicalize = λ s p. ok p;
  read_dir = λ s p. ok [];
  remove_file = λ p s. (ok tt, s);
  remove_dir_all = λ p s. (ok tt, s);
  copy = λ src dest s. (ok tt, s);
  rename = λ old new s. (ok tt, s);
  symlink = λ target p s. (ok tt, s);
  mountpoint = λ s p. elim s [ none ↦ ok false | some l ↦ ok (l.point == p) ];
  mount = mount_loop;
  umount = λ p s. (ok command_done, none);
}

loop_mount-IsPlainMount :
    (l : Loop) → is_plain_point (display_path l.point) ≡ true → IsPlainMount (loop_mount l)
loop_mount-IsPlainMount l h =
    let (nonempty, bytes) =
      (&&-iff (not (display_path l.point == []))
          (all (λ c. is_plain c || is_escaped c) (display_path l.point))).0
        h in
    record {
      device_bytes = refl;
      device_nonempty = λ e. cc;
      point_bytes = bytes;
      point_nonempty = λ e. ground (arith, (list_beq_iff (display_path l.point) []).1 e);
      option_bytes = refl;
    }

pub mounts_of-plain : (s : Option Loop) → All IsPlainMount (mounts_of s)
mounts_of-plain none = tt
mounts_of-plain (some l) = elim (Bool-cases (is_plain_point (display_path l.point))) [
  | inl h ↦ rw h (loop_mount-IsPlainMount l h, tt)
  | inr h ↦ rw h tt
]

pub kernel_file-mounts :
    (s : Option Loop) (contents : Text)
    → kernel_file s proc_mounts ≡ ok contents
    → contents ≡ render_mounts (mounts_of s)
unfolding kernel_file
kernel_file-mounts s contents h = let g = rw (==-refl proc_mounts) at h in cc

only_mount : (l : Loop) (m : Mount) → In m (mounts_of (some l)) → m ≡ loop_mount l
only_mount l m is_in = elim (Bool-cases (is_plain_point (display_path l.point))) [
  | inl h ↦ go (rw h at is_in)
  | inr h ↦ absurd (rw h at is_in)
]
  where
    go : (m ≡ loop_mount l) ⊎ ⊥ → m ≡ loop_mount l
    go (inl e) = e
    go (inr no') = absurd no'

loop_name : strip_prefix (text "/dev/loop0") (text "/dev/") ≡ some (text "loop0")
unfolding strip_prefix
loop_name = refl

backing-ne-mounts : (backing_file_path (text "loop0") == proc_mounts) ≡ false
unfolding path_of
backing-ne-mounts = refl

kernel_file-loop :
    (l : Loop) → kernel_file (some l) (backing_file_path (text "loop0")) ≡ ok (display_path l.image)
unfolding kernel_file
kernel_file-loop l = rw (backing-ne-mounts, ==-refl (backing_file_path (text "loop0"))) refl

ok-injective : {a b : Text} → ◌≡◌ {A = IoResult Text} (ok a) (ok b) → a ≡ b
ok-injective e = cc

pub kernel_file-backing :
    (s : Option Loop) (m : Mount) (name contents : Text)
    → In m (mounts_of s)
    → strip_prefix m.device (text "/dev/") ≡ some name
    → kernel_file s (backing_file_path name) ≡ ok contents
    → m.image ≡ some (path_of (trim contents))
kernel_file-backing none m name contents is_in stripped read = elim is_in [ ]
kernel_file-backing (some l) m name contents is_in stripped read =
    let e = only_mount l m is_in in
    let named : name ≡ text "loop0" = cc (ap Mount.device e, stripped, loop_name) in
    let read' : ok (display_path l.image) ≡ ok contents =
      sym (kernel_file-loop l)
      ∙ (ap (λ n. kernel_file (some l) (backing_file_path n)) (sym named) ∙ read) in
    ap Mount.image e ∙ ap (λ t. some (path_of (trim t))) (ok-injective read')

pub refuses :
    (output : CommandOutput)
    → output.success ≡ true
    → ◌≡◌ {A = IoResult CommandOutput} (ok refused) (ok output)
    → ⊥
refuses output success h = go (ap succeeded h)
  where
    succeeded : IoResult CommandOutput → Bool
    succeeded (ok o) = o.success
    succeeded (err e) = false

    go : false ≡ output.success → ⊥
    go e = cc (e, success)

pub mount_loop-Shows :
    (iso point : FilePath) (s : Option Loop) (output : CommandOutput)
    → (mount_loop iso point s).0 ≡ ok output
    → output.success ≡ true
    → Shows loop_machine mounts_of (mount_loop iso point s).1 point iso
unfolding mount_loop
mount_loop-Shows iso point s output h success = elim (Bool-cases (can_mount iso point)) [
  | inl yes' ↦
      let (plain, same) =
        (&&-iff (is_plain_point (display_path point)) (path_of (trim (display_path iso)) == iso)).0
          yes' in
      rw yes' (
        loop_mount (record { point = point; image = iso }),
        path_of (trim (display_path iso)),
        rw plain (inl refl),
        refl,
        refl,
        (list_beq_iff (path_of (trim (display_path iso))) iso).0 same,
      )
  | inr no' ↦ absurd (refuses output success (rw no' at h))
]

abbrev pub loop_mounts : KernelMounts loop_machine
loop_mounts = record {
  mounts = mounts_of;
  plain = mounts_of-plain;
  listed = kernel_file-mounts;
  backed = kernel_file-backing;
  mounted = mount_loop-Shows;
}
