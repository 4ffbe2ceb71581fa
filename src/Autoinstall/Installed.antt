-- ===== src/Autoinstall/Installed.antt =====
-- autoinstall/manager.rs: the seeds that stand at their places after `prepare`.
pub mod Tasks
pub mod Apart
use nixos_router_module.Autoinstall.Installed.Apart.{dir_of}
use nixos_router_module.Autoinstall.Installed.Tasks.{SeedTask}
use nixos_router_module.Autoinstall.Seeds.{CopiesFiles, Installed}
use nixos_router_module.Os.{Os}
use nixos_router_module.Paths.{FilePath}
use nixos_router_module.Service.Written.{StoresFiles}

module _ (os : Os) (copies : CopiesFiles os) (stores : StoresFiles os) (root : FilePath) where
  -- What can be read of a seed after `prepare`, by what its source had before.
  abbrev pub HasSeed : os.State → os.State → SeedTask → Type 0
  HasSeed s t y = Installed os copies stores (dir_of root y) y.script y.is_ubuntu s t
