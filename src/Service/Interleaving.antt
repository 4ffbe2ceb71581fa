-- ===== src/Service/Interleaving.antt =====
-- lib.rs: `join_all` over the menu tasks: between two suspension points one task runs, and which one
-- is not determined.
pub mod Alone
pub mod Apart
pub mod Invariant
pub mod Menus
pub mod Outcome
pub mod Places
pub mod Sequential
use nixos_router_module.Base.{List, [], if◌then◌else◌, map, nat_eq, suc, zero, ℕ, ◌==◌, ◌∷◌, ◌≡◌}
use nixos_router_module.Config.{PxeBootConfig}
use nixos_router_module.Grub.Menu.{Handlebars}
use nixos_router_module.Os.{Os}
use nixos_router_module.Service.Entries.{Bootable}
use nixos_router_module.Service.Tasks.{MenuStep, Task, menu_steps, new_task, perform, resume}
use nixos_router_module.Text.{Text}

pub record Running (S : Type 0) : Type 0 where
  pub machine : S
  pub tasks : ℕ → Task

abbrev pub update : (ℕ → Task) → ℕ → Task → ℕ → Task
update tasks k t j = if j == k then t else tasks j

-- The steps of the task of that number; past the last task there are none.
abbrev pub steps_at : List (List MenuStep) → ℕ → List MenuStep
steps_at [] k = []
steps_at (steps ∷ rest) zero = steps
steps_at (steps ∷ rest) (suc k) = steps_at rest k

abbrev pub start : {S : Type 0} → List (List MenuStep) → S → Running S
start plans s = record { machine = s; tasks = λ k. new_task (steps_at plans k) }

module _ (os : Os) where
  -- One task performs its next step.
  unfoldable pub turn : Running os.State → ℕ → MenuStep → List MenuStep → Running os.State
  turn m k x rest =
      let (r, s) = perform os x m.machine in
      record { machine = s; tasks = update m.tasks k (resume (m.tasks k) x rest r) }

  pub data Step (m u : Running os.State) : Type 0 where
    turns :
        (k : ℕ) (x : MenuStep) (rest : List MenuStep)
        → (m.tasks k).left ≡ x ∷ rest
        → u ≡ turn m k x rest
        → Step m u

  -- A number of steps, of any tasks in any order.
  pub data Run (m : Running os.State) : ℕ → Running os.State → Type 0 where
    here : Run m zero m
    next : {n : ℕ} {u v : Running os.State} → Run m n u → Step u v → Run m (suc n) v

  -- The tasks of a configuration, in the order of its interfaces.
  abbrev pub menu_tasks :
      Handlebars
      → PxeBootConfig
      → List (Bootable os.State)
      → List (Text × Text)
      → List (List MenuStep)
  menu_tasks hb c infos failed = map (λ i. menu_steps os hb c i infos failed) c.dhcp_interfaces

-- No task has a step left.
abbrev pub HasEnded : {S : Type 0} → Running S → Type 0
HasEnded m = (k : ℕ) → (m.tasks k).left ≡ []
