-- ===== src/Iso/Mounter.antt =====
-- iso/mount.rs: `IsoMounter`. The entries of a directory are read at once.
use nixos_router_module.Base.{Bool, List, [], if◌then◌else◌, none, some, ◌∷◌}
use nixos_router_module.Actions.{Action, attempt, ignore_error, pure, ◌>>=◌, ◌>>◌}
use nixos_router_module.Errors.{
  IoResult, PxeBootError, Result, config, err, io, io_path, map_err, ok, with_path,
}
use nixos_router_module.Iso.Mount.{check_output, verify_mount}
use nixos_router_module.Os.{Os}
use nixos_router_module.Paths.{FilePath, file_name, join_text_path}
use nixos_router_module.Text.{Text, text}

-- A query, with the machine left as it is.
abbrev pub ask : {S A : Type 0} → (S → Result A) → Action S A
ask q s = (q s, s)

abbrev pub invalid_iso_path : PxeBootError
invalid_iso_path = config (text "Invalid ISO path")

abbrev pub iso_mountpoints : FilePath → FilePath
iso_mountpoints runtime_root = join_text_path runtime_root (text "iso-mountpoint")

unfoldable pub mount_path : FilePath → Text → FilePath
mount_path runtime_root iso_name = join_text_path (iso_mountpoints runtime_root) iso_name

module _ (os : Os) where
  abbrev pub is_mounted : os.State → FilePath → Result Bool
  is_mounted s path = map_err io (os.mountpoint s path)

  abbrev pub do_mount : FilePath → FilePath → Action os.State (Unit {0})
  do_mount iso_path mount_point s =
      let (r, t) = os.mount iso_path mount_point s in (check_output (text "mount") iso_path r, t)

  abbrev pub unmount : FilePath → Action os.State (Unit {0})
  unmount mount_point s =
      let (r, t) = os.umount mount_point s in (check_output (text "umount") mount_point r, t)

  -- An image that is mounted already is kept if it is the right one, and unmounted if not.
  unfoldable pub remount : FilePath → FilePath → Action os.State FilePath
  unfolding verify_mount
  remount iso_path mount_point = do
    correct ← ask (λ s. verify_mount os s mount_point iso_path)
    if correct
        then pure mount_point
        else do unmount mount_point; do_mount iso_path mount_point; pure mount_point

  unfoldable pub mount_at : FilePath → FilePath → Action os.State FilePath
  unfolding remount
  mount_at iso_path mount_point = do
    attempt (io_path mount_point) (os.create_dir_all mount_point)
    mounted ← ask (λ s. is_mounted s mount_point)
    if mounted
        then remount iso_path mount_point
        else do do_mount iso_path mount_point; pure mount_point

  unfoldable pub mount_iso : FilePath → FilePath → Action os.State FilePath
  unfolding mount_at mount_path
  mount_iso runtime_root iso_path = elim (file_name iso_path) [
    | none ↦ λ s. (err invalid_iso_path, s)
    | some iso_name ↦ mount_at iso_path (mount_path runtime_root iso_name)
  ]

  -- The loop over the entries of the directory; an unmount that fails is passed over.
  unfoldable pub unmount_entries : List (IoResult FilePath) → Action os.State (Unit {0})
  unmount_entries [] = pure tt
  unmount_entries (err e ∷ rest) = λ s. (err (io e), s)
  unmount_entries (ok path ∷ rest) = do
    mounted ← ask (λ s. is_mounted s path)
    if mounted then ignore_error (unmount path) else pure tt
    unmount_entries rest

  unfoldable pub unmount_all : FilePath → Action os.State (Unit {0})
  unfolding unmount_entries
  unmount_all runtime_root s =
      if os.exists s (iso_mountpoints runtime_root)
      then (◌>>=◌
            (ask (λ t.
              with_path (os.read_dir t (iso_mountpoints runtime_root))
                (iso_mountpoints runtime_root)))
            unmount_entries)
          s
      else (ok tt, s)
