-- ===== src/Service/New.antt =====
-- lib.rs: `PxeBootService::new`, with the collaborators of the program itself.
use nixos_router_module.Autoinstall.{prepare_autoinstall}
use nixos_router_module.Config.{PxeBootConfig}
use nixos_router_module.Distro.NixOs.{ParseBootSpec}
use nixos_router_module.Distro.Unknown.{new_registry}
use nixos_router_module.Errors.{ok}
use nixos_router_module.Iso.Discovery.{discover_isos}
use nixos_router_module.Iso.Mounter.{mount_iso, unmount_all}
use nixos_router_module.Iso.ServeTree.{rebuild}
use nixos_router_module.Os.{Os}
use nixos_router_module.Service.Collaborators.{Collaborators, PxeBootService}

abbrev pub real_collaborators : (os : Os) → PxeBootConfig → Collaborators os.State
real_collaborators os c = record {
  discover = λ s. (ok (discover_isos os s c.iso_folder_paths), s);
  mount = mount_iso os c.runtime_root;
  unmount_all = unmount_all os c.runtime_root;
  rebuild = rebuild os c.runtime_root;
  prepare_autoinstall = prepare_autoinstall os c.runtime_root;
}

abbrev pub new_service : (os : Os) → ParseBootSpec → PxeBootConfig → PxeBootService os.State
new_service os from_str c = record {
  settings = c;
  detector_registry = new_registry os from_str;
  collaborators = real_collaborators os c;
}
