-- ===== src/Machine/Busy.antt =====
-- A machine with two mount points under one directory: one mount is busy and cannot be undone.
use nixos_router_module.Base.{
  &&-iff, Bool, Bool-cases, [], false, if◌then◌else◌, inl, inr, list_beq_iff, list_eq, nat_eq, refl,
  subst, sym, true, ◌&&◌, ◌++◌, ◌==◌, ◌||◌, ◌∙◌, ◌∷◌, ◌≡◌, ◌≢◌,
}
use nixos_router_module.Errors.{IoResult, ok}
use nixos_router_module.Iso.ServeTree.{drop_last}
use nixos_router_module.Iso.Unmounted.{UnmountsFiles}
use nixos_router_module.Machine.{beq_of_ne, command_done}
use nixos_router_module.Machine.Loop.{missing, refused, refuses}
use nixos_router_module.Os.{CommandOutput, Os}
use nixos_router_module.Paths.{FilePath, component_eq, normal, root_dir}
use nixos_router_module.Text.{text}

abbrev pub run_dir : FilePath
run_dir = root_dir ∷ normal (text "run") ∷ []

abbrev pub busy : FilePath
busy = run_dir ++ normal (text "iso-mountpoint") ∷ normal (text "busy.iso") ∷ []

abbrev pub idle : FilePath
idle = run_dir ++ normal (text "iso-mountpoint") ∷ normal (text "idle.iso") ∷ []

-- Whether there is a mount at a path; the state is whether the idle one is there.
abbrev pub mounted_at : Bool → FilePath → Bool
mounted_at s p = p == busy || (p == idle && s)

unfoldable pub umount_idle : FilePath → Bool → IoResult CommandOutput × Bool
umount_idle p s = if p == idle && s then (ok command_done, false) else (ok refused, s)

abbrev pub busy_machine : Os
busy_machine = record {
  State = Bool;
  exists = λ s p. true;
  is_file = λ s p. false;
  read_to_string = λ s p. missing;
  walk = λ s base depth. [];
  create_dir_all = λ p s. (ok tt, s);
  write = λ p contents s. (ok tt, s);
  open_truncated = λ p s. (ok tt, s);
  try_lock = λ p s. (true, s);
  release = λ p s. s;
  is_dir = λ s p. ok true;
  canonicalize = λ s p. ok p;
  read_dir = λ s p. ok (ok busy ∷ ok idle ∷ []);
  remove_file = λ p s. (ok tt, s);
  remove_dir_all = λ p s. (ok tt, s);
  copy = λ src dest s. (ok tt, s);
  rename = λ old new s. (ok tt, s);
  symlink = λ target p s. (ok tt, s);
  mountpoint = λ s p. ok (mounted_at s p);
  mount = λ p mount_point s. (ok refused, s);
  umount = umount_idle;
}

-- What an unmount does, by whether it is of the idle mount.
pub umount_idle-frees :
    (p : FilePath) (s : Bool) (output : CommandOutput)
    → (umount_idle p s).0 ≡ ok output
    → output.success ≡ true
    → ◌≡◌ {A = IoResult Bool} (ok (mounted_at (umount_idle p s).1 p)) (ok false)
unfolding umount_idle
umount_idle-frees p s output h success = elim (Bool-cases (p == idle && s)) [
  | inl yes' ↦
      let (at, there) = (&&-iff (p == idle) s).0 yes' in
      rw yes' (
        subst (λ q. ◌≡◌ {A = IoResult Bool} (ok (mounted_at false q)) (ok false))
          (sym ((list_beq_iff p idle).0 at)) refl)
  | inr no' ↦ absurd (refuses output success (rw no' at h))
]

pub umount_idle-keeps :
    (p q : FilePath) (s : Bool)
    → drop_last p ≡ drop_last q
    → p ≢ q
    → ◌≡◌ {A = IoResult Bool} (ok (mounted_at (umount_idle p s).1 q)) (ok (mounted_at s q))
unfolding umount_idle
umount_idle-keeps p q s beside ne = elim (Bool-cases (p == idle && s)) [
  | inl yes' ↦
      let (at, there) = (&&-iff (p == idle) s).0 yes' in
      let other : (q == idle) ≡ false =
        beq_of_ne q idle (λ e. ne ((list_beq_iff p idle).0 at ∙ sym e)) in
      rw yes' (rw (there, other) refl)
  | inr no' ↦ rw no' refl
]

abbrev pub busy_unmounts : UnmountsFiles busy_machine
busy_unmounts = record {
  answers = λ s p. refl;
  frees = umount_idle-frees;
  keeps = umount_idle-keeps;
}
