-- ===== src/Service/Collaborators.antt =====
-- lib.rs: `PxeBootService` and the traits behind which its collaborators stand (`IsoDiscovering`,
-- `IsoMounting`, `ServeTreeRebuilding`, `AutoinstallPreparing`).
use nixos_router_module.Base.{List}
use nixos_router_module.Actions.{Action}
use nixos_router_module.Config.{DistroType, PxeBootConfig}
use nixos_router_module.Distro.Detector.{DistroDetector}
use nixos_router_module.Paths.{FilePath}
use nixos_router_module.Text.{Text}

pub record Collaborators (S : Type 0) : Type 0 where
  pub discover : Action S (List FilePath)
  pub mount : FilePath → Action S FilePath
  pub unmount_all : Action S (Unit {0})
  pub rebuild : List FilePath → Action S (Unit {0})
  pub prepare_autoinstall : PxeBootConfig → List (Text × DistroType) → Action S (Unit {0})

pub record PxeBootService (S : Type 0) : Type 0 where
  pub settings : PxeBootConfig
  pub detector_registry : List (DistroDetector S)
  pub collaborators : Collaborators S
