-- ===== src/Grub/Total.antt =====
-- grub/entry.rs: `create_entry` fails only for a kernel or initrd that is not below the mount.
use nixos_router_module.Base.{Option, arith, ℕ, ◌≡◌}
use nixos_router_module.Config.{AutoinstallScript, BootInfo, IsoInfo, MenuEntry}
use nixos_router_module.Distro.BootPaths.{BootsBelow}
use nixos_router_module.Distro.Detector.{DistroDetector}
use nixos_router_module.Errors.{ok, ok_of_is_ok}
use nixos_router_module.Grub.Entry.{MenuEntryFactory, create_entry}
use nixos_router_module.Paths.Below.{strip_path-of_IsBelow}

module _ {S : Type 0} (f : MenuEntryFactory) (iso : IsoInfo) (boot : BootInfo)
    (d : DistroDetector S) where
  pub create_entry_total :
      BootsBelow iso.mount_path boot
      → (script : Option AutoinstallScript) (position : ℕ)
      → (e : MenuEntry) × (create_entry f iso boot d script position ≡ ok e)
  unfolding create_entry
  create_entry_total (kernel_below, initrd_below) script position =
      let (k, at_kernel) = strip_path-of_IsBelow boot.kernel_path iso.mount_path kernel_below in
      let (i, at_initrd) = strip_path-of_IsBelow boot.initrd_path iso.mount_path initrd_below in
      ok_of_is_ok _ (rw (at_kernel, at_initrd, create_entry))

  pub create_entry-position :
      (script : Option AutoinstallScript) (position : ℕ) (e : MenuEntry)
      → create_entry f iso boot d script position ≡ ok e
      → e.position ≡ position
  unfolding create_entry
  create_entry-position script position e h = ground arith
