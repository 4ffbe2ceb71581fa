-- ===== src/Autoinstall/Concurrent.antt =====
-- autoinstall/manager.rs: `join_all` over the tasks of `prepare`. Each call of the file system is a
-- step; between two steps of a task any other task may make steps, so that the test and the removal
-- in `ensure_dir` can be apart. A task that fails ends, and the others go on.
pub mod Steps
pub mod Targets
pub mod Invariant
pub mod Outcome
pub mod Alone
pub mod Sequential
pub mod Prepared
use nixos_router_module.Base.{
  Bool, List, Option, [], false, get_elem?, if◌then◌else◌, nat_eq, none, some, suc, true, zero, ℕ,
  ◌++◌, ◌==◌, ◌∷◌, ◌≡◌,
}
use nixos_router_module.Actions.{Action, attempt}
use nixos_router_module.Autoinstall.{iso_script_dir, unless_not_found}
use nixos_router_module.Autoinstall.Installed.Tasks.{SeedTask}
use nixos_router_module.Config.{AutoinstallScript}
use nixos_router_module.Errors.{IoResult, PxeBootError, Result, err, io, ok}
use nixos_router_module.Os.{Os}
use nixos_router_module.Paths.{FilePath, join_text_path}
use nixos_router_module.Text.{Text, text}

-- One awaited call: `metadata`, the `remove_file` and the `create_dir_all` of `ensure_dir`, the
-- `remove_file` of `remove_if_exists`, `copy` and `write`.
pub data SeedStep : Type 0 where
  test_dir : FilePath → SeedStep
  remove_stale : FilePath → SeedStep
  create_dir : FilePath → SeedStep
  remove_old : FilePath → SeedStep
  copy_file : FilePath → FilePath → SeedStep
  write_file : FilePath → Text → SeedStep

abbrev pub ensure_dir_steps : FilePath → List SeedStep
ensure_dir_steps dir = test_dir dir ∷ create_dir dir ∷ []

abbrev pub install_file_steps : FilePath → FilePath → List SeedStep
install_file_steps src dest = remove_old dest ∷ copy_file src dest ∷ []

abbrev pub write_fresh_steps : FilePath → Text → List SeedStep
write_fresh_steps dest contents = remove_old dest ∷ write_file dest contents ∷ []

unfoldable pub script_steps : Bool → FilePath → AutoinstallScript → List SeedStep
script_steps false dir script =
    ensure_dir_steps dir ++ install_file_steps script.script_path (join_text_path dir script.name)
script_steps true dir script =
    let seed_dir = join_text_path dir script.name in
    ensure_dir_steps dir
    ++ (ensure_dir_steps seed_dir
        ++ (install_file_steps script.script_path (join_text_path seed_dir (text "user-data"))
            ++ write_fresh_steps (join_text_path seed_dir (text "meta-data")) []))

abbrev pub seed_steps : FilePath → SeedTask → List SeedStep
seed_steps root y = script_steps y.is_ubuntu (iso_script_dir root y.iso_name) y.script

-- What a task does next because of a test: the removal of a file that stands where the directory is
-- wanted.
abbrev pub stale_steps : FilePath → IoResult Bool → List SeedStep
stale_steps dir (ok false) = remove_stale dir ∷ []
stale_steps dir (ok true) = []
stale_steps dir (err e) = []

abbrev pub no_more : Result (Unit {0}) → Result (List SeedStep)
no_more (ok _) = ok []
no_more (err e) = err e

module _ (os : Os) where
  -- The steps that come before the rest of the task, or its error.
  unfoldable pub perform_seed : SeedStep → Action os.State (List SeedStep)
  perform_seed (test_dir dir) s = (ok (stale_steps dir (os.is_dir s dir)), s)
  perform_seed (remove_stale dir) s =
      let (r, t) = attempt io (os.remove_file dir) s in (no_more r, t)
  perform_seed (create_dir dir) s =
      let (r, t) = attempt io (os.create_dir_all dir) s in (no_more r, t)
  perform_seed (remove_old path) s =
      let (r, t) = os.remove_file path s in (no_more (unless_not_found r), t)
  perform_seed (copy_file src dest) s =
      let (r, t) = attempt io (os.copy src dest) s in (no_more r, t)
  perform_seed (write_file dest contents) s =
      let (r, t) = attempt io (os.write dest contents) s in (no_more r, t)

-- A task: the steps that are left, where none are once it has returned `Ok`, or its error.
pub data Progress : Type 0 where
  left : List SeedStep → Progress
  failed_with : PxeBootError → Progress

abbrev pub resume_seed : List SeedStep → Result (List SeedStep) → Progress
resume_seed rest (ok more) = left (more ++ rest)
resume_seed rest (err e) = failed_with e

pub record Seeding (S : Type 0) : Type 0 where
  pub machine : S
  pub progress : ℕ → Progress

abbrev pub proceed : (ℕ → Progress) → ℕ → Progress → ℕ → Progress
proceed progress k p j = if j == k then p else progress j

abbrev pub first_steps : FilePath → Option SeedTask → List SeedStep
first_steps root none = []
first_steps root (some y) = seed_steps root y

abbrev pub start_seeds : {S : Type 0} → FilePath → List SeedTask → S → Seeding S
start_seeds root tasks s = record {
  machine = s;
  progress = λ k. left (first_steps root (get_elem? tasks k));
}

module _ (os : Os) where
  -- The task of that number performs its next step.
  unfoldable pub seed_turn : Seeding os.State → ℕ → SeedStep → List SeedStep → Seeding os.State
  unfolding perform_seed
  seed_turn m k x rest =
      let (r, s) = perform_seed os x m.machine in
      record { machine = s; progress = proceed m.progress k (resume_seed rest r) }

  pub data SeedTurn (tasks : List SeedTask) (m u : Seeding os.State) : Type 0 where
    takes_turn :
        (k : ℕ) (y : SeedTask) (x : SeedStep) (rest : List SeedStep)
        → get_elem? tasks k ≡ some y
        → m.progress k ≡ left (x ∷ rest)
        → u ≡ seed_turn m k x rest
        → SeedTurn tasks m u

  -- A number of steps, of any tasks in any order.
  pub data SeedRun (tasks : List SeedTask) (m : Seeding os.State)
      : ℕ → Seeding os.State → Type 0 where
    begun : SeedRun tasks m zero m
    continues :
        {n : ℕ} {u v : Seeding os.State}
        → SeedRun tasks m n u
        → SeedTurn tasks u v
        → SeedRun tasks m (suc n) v
