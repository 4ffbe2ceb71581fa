-- ===== src/Examples/Cleaned.antt =====
-- iso/mount.rs: `unmount_all` where the first of two mounts is busy.
use nixos_router_module.Base.{
  All, Bool, [], false, list_beq_iff, list_eq, nat_eq, refl, true, ◌∷◌, ◌≡◌, ◌≢◌,
}
use nixos_router_module.Errors.{Result, ok, with_path}
use nixos_router_module.Iso.Mounter.{iso_mountpoints, unmount_all}
use nixos_router_module.Iso.ServeTree.{drop_last}
use nixos_router_module.Iso.Unmounted.{Tried, unmount_all-Tried}
use nixos_router_module.Machine.Busy.{
  busy, busy_machine, busy_unmounts, idle, mounted_at, run_dir, umount_idle,
}
use nixos_router_module.Paths.{component_eq, join_text_path}

abbrev cleaned : Result (Unit {0}) × Bool
cleaned = unmount_all busy_machine run_dir true

-- The idle mount is undone although the busy one, which comes first, is not.
idle_freed : (mounted_at cleaned.1 idle ≡ false) × (mounted_at cleaned.1 busy ≡ true)
unfolding unmount_all umount_idle with_path
idle_freed = (refl, refl)

busy-ne-idle : busy ≢ idle
busy-ne-idle e = cc ((list_beq_iff busy idle).1 e)

below : All (λ p. drop_last p ≡ iso_mountpoints run_dir) (busy ∷ idle ∷ [])
unfolding join_text_path
below = (refl, (refl, tt))

unmount_all-Tried_example :
    (cleaned.0 ≡ ok tt)
    × All (Tried busy_machine true (busy ∷ idle ∷ []) cleaned.1) (busy ∷ idle ∷ [])
unmount_all-Tried_example =
    unmount_all-Tried busy_machine busy_unmounts run_dir (busy ∷ idle ∷ []) true refl refl below
      ((busy-ne-idle, tt), (tt, tt))
