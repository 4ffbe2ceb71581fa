-- ===== src/Service/Prepare.antt =====
-- lib.rs: `acquire_prepare_lock`, `prepare`, `cleanup` and `list_isos`. What is only logged is
-- left out. The menus of the interfaces are written one after the other; they go to different
-- paths.
use nixos_router_module.Base.{List, [], if◌then◌else◌, ◌++◌, ◌∷◌}
use nixos_router_module.Actions.{Action, attempt, pure, ◌>>=◌, ◌>>◌}
use nixos_router_module.Config.{DhcpInterface}
use nixos_router_module.Errors.{PxeBootError, Result, config, err, io_path, ok}
use nixos_router_module.Grub.Menu.{Handlebars}
use nixos_router_module.Os.{Os}
use nixos_router_module.Paths.{FilePath, display_path, join_text_path}
use nixos_router_module.Service.Collaborators.{Collaborators, PxeBootService}
use nixos_router_module.Service.Detection.{Detected, detect_all, distro_by_iso}
use nixos_router_module.Service.Entries.{Bootable}
use nixos_router_module.Service.Menu.{generate_grub_menu}
use nixos_router_module.Text.{Text, text}

abbrev pub lock_path : FilePath → FilePath
lock_path runtime_root = join_text_path runtime_root (text ".prepare.lock")

abbrev pub lock_held : FilePath → PxeBootError
lock_held path = config (
    text "another 'pxe-boot-prepare prepare' run is already in progress (lock held on "
    ++ (display_path path ++ text ")"))

module _ {S : Type 0} where
  -- The loop that mounts every image; a failure leaves that image out.
  pub mount_all : Collaborators S → List FilePath → S → List (FilePath × FilePath) × S
  mount_all w [] s = ([], s)
  mount_all w (path ∷ rest) s =
      let (r, t) = w.mount path s in
      let (later, u) = mount_all w rest t in
      elim r [ ok mount_path ↦ ((path, mount_path) ∷ later, u) | err e ↦ (later, u) ]

module _ (os : Os) (hb : Handlebars) (service : PxeBootService os.State) where
  open service use {settings, detector_registry, collaborators}

  -- `try_lock_exclusive`, with its error converted
  abbrev pub take_lock : Action os.State (Unit {0})
  take_lock s =
      let (taken, t) = os.try_lock (lock_path settings.runtime_root) s in
      if taken then (ok tt, t) else (err (lock_held (lock_path settings.runtime_root)), t)

  unfoldable pub acquire_prepare_lock : Action os.State (Unit {0})
  acquire_prepare_lock = do
    attempt (io_path (lock_path settings.runtime_root))
        (os.open_truncated (lock_path settings.runtime_root))
    take_lock

  -- The loop that writes the menu of each interface, with the result of each.
  unfoldable pub generate_all :
      List DhcpInterface
      → List (Bootable os.State)
      → List (Text × Text)
      → os.State
      → List (Result (Unit {0})) × os.State
  generate_all [] infos failed s = ([], s)
  generate_all (i ∷ rest) infos failed s =
      let (r, t) = generate_grub_menu os hb settings i infos failed s in
      let (later, u) = generate_all rest infos failed t in (r ∷ later, u)

  -- What comes before the menus when there are images: the serving tree, the mounts, the detection
  -- and the installer seeds.
  unfoldable pub detected_isos : List FilePath → os.State → Detected os.State × os.State
  unfolding mount_all detect_all
  detected_isos iso_paths s =
      let (_, t) = collaborators.rebuild iso_paths s in
      let (mounted, u) = mount_all collaborators iso_paths t in
      let d = detect_all detector_registry u mounted in
      let (_, v) = collaborators.prepare_autoinstall settings (distro_by_iso [] d.iso_infos) u in
      (d, v)

  -- What follows when there are images: the steps from the serving tree to the menus.
  unfoldable pub prepare_isos : List FilePath → os.State → os.State
  unfolding detected_isos generate_all
  prepare_isos iso_paths s =
      let (d, v) = detected_isos iso_paths s in
      (generate_all settings.dhcp_interfaces d.iso_infos d.failed_isos v).1

  -- What follows the discovery: nothing more if there are no images.
  unfoldable pub prepare_discovered : List FilePath → Action os.State (Unit {0})
  unfolding prepare_isos
  prepare_discovered [] s = (ok tt, s)
  prepare_discovered (p ∷ rest) s = (ok tt, prepare_isos (p ∷ rest) s)

  unfoldable pub prepare_locked : Action os.State (Unit {0})
  unfolding prepare_discovered
  prepare_locked = do iso_paths ← collaborators.discover; prepare_discovered iso_paths

  -- What follows the attempt to take the lock. The lock is dropped on every way out.
  unfoldable pub run_locked : Result (Unit {0}) × os.State → Result (Unit {0}) × os.State
  unfolding prepare_locked
  run_locked (err e, t) = (err e, t)
  run_locked (ok _, t) =
      let (done, u) = prepare_locked t in (done, os.release (lock_path settings.runtime_root) u)

  unfoldable pub prepare : Action os.State (Unit {0})
  unfolding acquire_prepare_lock run_locked
  prepare s = run_locked (acquire_prepare_lock s)

  pub cleanup : Action os.State (Unit {0})
  cleanup = do collaborators.unmount_all; pure tt

  pub list_isos : Action os.State (List FilePath)
  list_isos = collaborators.discover
