-- ===== src/Iso/MountTable/Shown.antt =====
-- iso/mount.rs: what is mounted after `mount` has succeeded.
use nixos_router_module.Base.{
  Bool, Bool-cases, Option-cases, ap, false, if◌then◌else◌, inl, inr, refl, some, subst, sym, true,
  ◌∙◌, ◌≡◌,
}
use nixos_router_module.Actions.{>>=-succeeds, Action, attempt, pure, ◌>>=◌, ◌>>◌}
use nixos_router_module.Errors.{IoResult, Result, err, io_path, ok}
use nixos_router_module.Iso.Mount.{check_output, verify_mount}
use nixos_router_module.Iso.MountTable.{KernelMounts, Shows}
use nixos_router_module.Iso.MountTable.Found.{verify_mount-Shows}
use nixos_router_module.Iso.Mounter.{
  ask, do_mount, is_mounted, mount_at, mount_iso, mount_path, remount, unmount,
}
use nixos_router_module.Os.{CommandOutput, Os}
use nixos_router_module.Paths.{FilePath, file_name}
use nixos_router_module.Text.{Text, text}

pub check_output-ok :
    (name : Text) (path : FilePath) (r : IoResult CommandOutput)
    → check_output name path r ≡ ok tt
    → (output : CommandOutput) × (r ≡ ok output) × (output.success ≡ true)
unfolding check_output
check_output-ok name path (err e) h = cc
check_output-ok name path (ok output) h = elim (Bool-cases output.success) [
  | inl yes' ↦ (output, refl, yes')
  | inr no' ↦ let g = rw no' at h in cc
]

ok-injective : {a b : FilePath} → ◌≡◌ {A = Result FilePath} (ok a) (ok b) → a ≡ b
ok-injective e = cc

module _ (os : Os) (kernel : KernelMounts os) (iso point : FilePath) where
  -- The action ends at the mount point, with a mount of the image there.
  abbrev Mounts : Action os.State FilePath → Type 0
  Mounts m =
      (s t : os.State) (p : FilePath)
      → m s ≡ (ok p, t)
      → (p ≡ point) × Shows os kernel.mounts t point iso

  abbrev mount_it : Action os.State FilePath
  mount_it = do do_mount os iso point; pure point

  mount_it-Mounts : Mounts mount_it
  mount_it-Mounts s t p h =
      let (a, u, mounted, ended) = >>=-succeeds (do_mount os iso point) (λ x. pure point) s t p h in
      let (output, r, success) =
        check_output-ok (text "mount") iso (os.mount iso point s).0 (ap (λ m. m.0) mounted) in
      let shown : Shows os kernel.mounts (os.mount iso point s).1 point iso =
        kernel.mounted iso point s output r success in
      (
        ok-injective (ap (λ m. m.0) (sym ended)),
        subst (λ v. Shows os kernel.mounts v point iso)
            (ap (λ m. m.1) mounted ∙ ap (λ m. m.1) ended) shown,
      )

  -- What follows a step whose result only chooses the way.
  Mounts->>= :
      {A : Type 0} (m : Action os.State A) (f : A → Action os.State FilePath)
      → ((a : A) → Mounts (f a))
      → Mounts (m >>= f)
  Mounts->>= m f goes s t p h =
      let (a, u, first, later) = >>=-succeeds m f s t p h in goes a u t p later

  abbrev after_check : Bool → Action os.State FilePath
  after_check correct = if correct then pure point else do unmount os point; mount_it

  -- An image that is found at its mount point is there already.
  kept :
      (s t : os.State) (p : FilePath)
      → ask (λ v. verify_mount os v point iso) s ≡ (ok true, s)
      → ◌≡◌ {A = Result FilePath × os.State} (ok point, s) (ok p, t)
      → (p ≡ point) × Shows os kernel.mounts t point iso
  kept s t p checked ended = (
    ok-injective (ap (λ m. m.0) (sym ended)),
    subst (λ v. Shows os kernel.mounts v point iso) (ap (λ m. m.1) ended)
        (verify_mount-Shows os s iso kernel point (ap (λ m. m.0) checked)),
  )

  remount-Mounts : Mounts (remount os iso point)
  unfolding remount
  remount-Mounts s t p h =
      let (correct, u, checked, later) =
        >>=-succeeds (ask (λ v. verify_mount os v point iso)) after_check s t p h in
      go correct u checked later
    where
      go :
          (correct : Bool) (u : os.State)
          → ask (λ v. verify_mount os v point iso) s ≡ (ok correct, u)
          → after_check correct u ≡ (ok p, t)
          → (p ≡ point) × Shows os kernel.mounts t point iso
      go true u checked later =
          kept s t p (checked ∙ ap (λ v. (ok true, v)) (sym (ap (λ m. m.1) checked)))
            (ap (λ v. (ok point, v)) (ap (λ m. m.1) checked) ∙ later)
      go false u checked later =
          Mounts->>= (unmount os point) (λ a. mount_it) (λ a. mount_it-Mounts) u t p later

  abbrev after_test : Bool → Action os.State FilePath
  after_test mounted = if mounted then remount os iso point else mount_it

  after_test-Mounts : (mounted : Bool) → Mounts (after_test mounted)
  after_test-Mounts true = remount-Mounts
  after_test-Mounts false = mount_it-Mounts

  mount_at-Mounts : Mounts (mount_at os iso point)
  unfolding mount_at
  mount_at-Mounts =
      Mounts->>= (attempt (io_path point) (os.create_dir_all point))
        (λ a. ask (λ v. is_mounted os v point) >>= after_test)
        (λ a. Mounts->>= (ask (λ v. is_mounted os v point)) after_test after_test-Mounts)

-- When `mount` succeeds for an image, it returns the mount point of the image's file name, and the
-- table of the kernel has a mount of that image there: one that was there before is only kept after
-- it was found to be of the same image. The kernel keeps and reports mounts as `KernelMounts` says,
-- and no field of its table has white space that it does not escape.
pub mount_iso-Shows :
    (os : Os) (kernel : KernelMounts os) (root iso : FilePath) (s t : os.State) (p : FilePath)
    → mount_iso os root iso s ≡ (ok p, t)
    → (name : Text) × (file_name iso ≡ some name)
      × (p ≡ mount_path root name)
      × Shows os kernel.mounts t p iso
unfolding mount_iso
mount_iso-Shows os kernel root iso s t p h = elim (Option-cases (file_name iso)) [
  | inl unnamed ↦ let g = rw (unnamed, mount_iso) at h in cc
  | inr (name, named) ↦
      let (at, shown) =
        mount_at-Mounts os kernel iso (mount_path root name) s t p (rw (named, mount_iso) at h) in
      (name, named, at, subst (λ q. Shows os kernel.mounts t q iso) (sym at) shown)
]
