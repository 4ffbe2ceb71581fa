-- ===== src/Service/Tasks.antt =====
-- lib.rs: the menus of the interfaces as tasks that run concurrently (`join_all` in `prepare`): what
-- `generate_grub_menu` does to the machine between two of its suspension points.
pub mod Plan
use nixos_router_module.Base.{List, Option, [], if◌then◌else◌, none, some, ◌++◌, ◌∷◌}
use nixos_router_module.Actions.{Action, attempt, pure, ◌>>◌}
use nixos_router_module.Config.{DhcpInterface, PxeBootConfig, ReservationOverride}
use nixos_router_module.Errors.{PxeBootError, Result, err, grub_write, ok}
use nixos_router_module.Grub.Menu.{Handlebars}
use nixos_router_module.Os.{Os}
use nixos_router_module.Paths.{FilePath, join_text_path}
use nixos_router_module.Service.Defaults.{NamedEntry, effective_iso, effective_script, has_override}
use nixos_router_module.Service.Entries.{Bootable}
use nixos_router_module.Service.Menu.{grub_dir, interface_entries, override_name}
use nixos_router_module.Service.Render.{render_grub_cfg}
use nixos_router_module.Text.{Text, text}

-- One awaited call of a menu task. A text that cannot be rendered ends the task.
pub data MenuStep : Type 0 where
  make_dir : FilePath → MenuStep
  write_menu : FilePath → Result Text → MenuStep

module _ (os : Os) where
  unfoldable pub perform : MenuStep → Action os.State (Unit {0})
  perform (make_dir path) s = attempt (grub_write path) (os.create_dir_all path) s
  perform (write_menu path (ok grub_cfg)) s = attempt (grub_write path) (os.write path grub_cfg) s
  perform (write_menu path (err e)) s = (err e, s)

  -- A task that is not interrupted.
  unfoldable pub perform_all : List MenuStep → Action os.State (Unit {0})
  perform_all [] = pure tt
  perform_all (x ∷ rest) = do perform x; perform_all rest

module _ (os : Os) (hb : Handlebars) (c : PxeBootConfig) where
  unfoldable pub override_steps :
      DhcpInterface
      → List NamedEntry
      → List (Text × Text)
      → List ReservationOverride
      → List MenuStep
  override_steps i entries failed [] = []
  override_steps i entries failed (r ∷ rest) =
      let later = override_steps i entries failed rest in
      if has_override r
      then write_menu (join_text_path (grub_dir c i) (override_name r.mac))
          (render_grub_cfg hb entries failed (effective_iso i r) (effective_script i r))
        ∷ later
      else later

  unfoldable pub menu_steps :
      DhcpInterface → List (Bootable os.State) → List (Text × Text) → List MenuStep
  unfolding override_steps
  menu_steps i infos failed =
      let entries = interface_entries os hb c i infos in
      make_dir (grub_dir c i)
      ∷ write_menu (join_text_path (grub_dir c i) (text "grub.cfg"))
          (render_grub_cfg hb entries failed i.default_iso i.default_script)
      ∷ override_steps i entries failed i.reservations

-- A task: its steps that are done and those that are left, and the error that has ended it.
pub record Task : Type 0 where
  pub done : List MenuStep
  pub left : List MenuStep
  pub failure : Option PxeBootError

abbrev pub new_task : List MenuStep → Task
new_task steps = record { done = []; left = steps; failure = none }

-- The task after the result of its next step.
abbrev pub resume : Task → MenuStep → List MenuStep → Result (Unit {0}) → Task
resume t x rest (ok _) = record t { done = t.done ++ x ∷ []; left = rest }
resume t x rest (err e) = record t { left = []; failure = some e }

-- The result of a task that has ended.
abbrev pub task_result : Task → Result (Unit {0})
task_result t = elim t.failure [ none ↦ ok tt | some e ↦ err e ]
