-- ===== src/Examples/Seeding.antt =====
-- autoinstall/: examples.
use nixos_router_module.Base.{
  All, Bool, Distinct, List, [], ap, list_beq_iff, list_eq, map, nat_eq, refl, some, suc, true, ℕ,
  ◌==◌, ◌∷◌, ◌≡◌, ◌≢◌, false, get_elem?,
}
use nixos_router_module.Autoinstall.{
  install_all, install_script, install_scripts, is_ubuntu_iso, prepare_autoinstall,
}
use nixos_router_module.Autoinstall.Concurrent.{
  Progress, SeedRun, Seeding, begun, continues, failed_with, left, perform_seed, script_steps,
  seed_turn, start_seeds, takes_turn,
}
use nixos_router_module.Autoinstall.Concurrent.Outcome.{SeedRun-HasSeed}
use nixos_router_module.Autoinstall.Concurrent.Prepared.{prepare_autoinstall-HasSeed}
use nixos_router_module.Autoinstall.Installed.{HasSeed}
use nixos_router_module.Autoinstall.Installed.Apart.{IsOutside, IsPlaced, key}
use nixos_router_module.Autoinstall.Installed.Tasks.{SeedTask, script_task, seed_tasks}
use nixos_router_module.Autoinstall.Served.{Serves, autoinstall_url-Serves, script_dest}
use nixos_router_module.Config.{AutoinstallScript, DistroType, PxeBootConfig, ubuntu}
use nixos_router_module.Examples.Data.{
  with_state, state, factory, iso-IsName, iso_bytes, iso_name, script, script-IsName, script_bytes,
  settings,
}
use nixos_router_module.Errors.{Result, first_error, is_ok}
use nixos_router_module.Grub.Entry.{autoinstall_url}
use nixos_router_module.Machine.{
  Machine, copied, find_contents, machine, machine-CopiesFiles, machine-StoresFiles,
}
use nixos_router_module.Paths.{join_text_path, normal, root_dir, strip_path}
use nixos_router_module.Paths.Names.{IsName-of_is_name}
use nixos_router_module.Tables.{removed}
use nixos_router_module.Text.{Text, text}

autoinstall_url-Serves_example :
    Serves factory settings.runtime_root
      (autoinstall_url factory iso_name script.name)
      (script_dest settings.runtime_root iso_name script.name)
autoinstall_url-Serves_example =
    autoinstall_url-Serves factory settings.runtime_root iso_name script.name iso-IsName
      script-IsName iso_bytes script_bytes

-- An Ubuntu image with two scripts, and another image with one.
abbrev desk : AutoinstallScript
desk = record { name = text "desk"; script_path = root_dir ∷ normal (text "desk") ∷ [] }

abbrev kickstart : AutoinstallScript
kickstart = record { name = text "ks.cfg"; script_path = root_dir ∷ normal (text "ks") ∷ [] }

abbrev seeding : PxeBootConfig
seeding = record settings {
  autoinstall = (iso_name, script ∷ desk ∷ []) ∷ (text "rhel.iso", kickstart ∷ []) ∷ [];
}

abbrev distros : List (Text × DistroType)
distros = (iso_name, ubuntu) ∷ []

-- The machine with the files of the scripts.
abbrev before : Machine
before = record state {
  files =
      (script.script_path, text "#cloud-config")
      ∷ (desk.script_path, text "#desk")
      ∷ (kickstart.script_path, text "text")
      ∷ state.files;
}

abbrev tasks : List SeedTask
tasks = seed_tasks distros seeding.autoinstall

all-IsPlaced : All IsPlaced tasks
all-IsPlaced = (
  (iso-IsName, script-IsName),
  (
    (iso-IsName, IsName-of_is_name (text "desk") refl),
    ((IsName-of_is_name (text "rhel.iso") refl, IsName-of_is_name (text "ks.cfg") refl), tt),
  ),
)

all-IsOutside : All (IsOutside settings.runtime_root) tasks
unfolding join_text_path strip_path
all-IsOutside = (refl, (refl, (refl, tt)))

texts_differ : (a b : Text) → (a == b) ≡ false → a ≢ b
texts_differ a b h e = cc (h, (list_beq_iff a b).1 e)

keys-Distinct : Distinct (map key tasks)
keys-Distinct = (
  (
    λ e. texts_differ (text "server") (text "desk") refl (ap (λ k. k.1) e),
    (λ e. texts_differ iso_name (text "rhel.iso") refl (ap (λ k. k.0) e), tt),
  ),
  ((λ e. texts_differ iso_name (text "rhel.iso") refl (ap (λ k. k.0) e), tt), (tt, tt)),
)

abbrev begin : Seeding Machine
begin = start_seeds settings.runtime_root tasks before

-- The task of that number performs its next step, if it has one.
abbrev step_of : Seeding Machine → ℕ → Progress → Seeding Machine
step_of m k (left (x ∷ rest)) = seed_turn machine m k x rest
step_of m k p = m

abbrev ahead : ℕ → Seeding Machine → Seeding Machine
ahead k m = step_of m k (m.progress k)

abbrev is_running : Progress → Bool
is_running (left (x ∷ rest)) = true
is_running p = false

ahead-SeedRun :
    (k : ℕ) (y : SeedTask) {n : ℕ} {m : Seeding Machine}
    → get_elem? tasks k ≡ some y
    → is_running (m.progress k) ≡ true
    → SeedRun machine tasks begin n m
    → SeedRun machine tasks begin (suc n) (ahead k m)
ahead-SeedRun k y {n = n} {m = m} at running run = go (m.progress k) refl running
  where
    go :
        (p : Progress)
        → m.progress k ≡ p
        → is_running p ≡ true
        → SeedRun machine tasks begin (suc n) (step_of m k p)
    go (left (x ∷ rest)) ready h = continues run (takes_turn k y x rest at ready refl)
    go (left []) ready h = cc
    go (failed_with e) ready h = cc

-- The two tasks of the Ubuntu image test and make its directory in turn, and the first ends before
-- the second has its file.
abbrev shared_dir : Seeding Machine
shared_dir = ahead 1 (ahead 0 (ahead 2 (ahead 1 (ahead 0 begin))))

abbrev first_ended : Seeding Machine
first_ended = ahead 0 (ahead 0 (ahead 0 (ahead 1 (ahead 0 (ahead 0 (ahead 0 shared_dir))))))

first_ran : SeedRun machine tasks begin 12 first_ended × (first_ended.progress 0 ≡ left [])
unfolding is_ubuntu_iso seed_turn perform_seed script_steps find_contents join_text_path removed
    copied
first_ran =
    let two = ahead-SeedRun 1 _ refl refl (ahead-SeedRun 0 _ refl refl begun) in
    let shared =
      ahead-SeedRun 1 _ refl refl (ahead-SeedRun 0 _ refl refl (ahead-SeedRun 2 _ refl refl two)) in
    let half =
      ahead-SeedRun 0 _ refl refl
        (ahead-SeedRun 0 _ refl refl (ahead-SeedRun 0 _ refl refl shared)) in
    (
      ahead-SeedRun 0 _ refl refl (
          ahead-SeedRun 0 _ refl refl
            (ahead-SeedRun 0 _ refl refl (ahead-SeedRun 1 _ refl refl half))),
      refl,
    )

SeedRun-HasSeed_example :
    HasSeed machine machine-CopiesFiles machine-StoresFiles settings.runtime_root before
      first_ended.machine
      (script_task iso_name true script)
unfolding is_ubuntu_iso
SeedRun-HasSeed_example =
    SeedRun-HasSeed machine machine-CopiesFiles machine-StoresFiles settings.runtime_root
      seeding.autoinstall distros before 12 first_ended 0 (script_task iso_name true script)
      all-IsPlaced all-IsOutside keys-Distinct first_ran.0 refl first_ran.1

abbrev prepared : Result (Unit {0}) × Machine
prepared = prepare_autoinstall machine settings.runtime_root seeding distros before

installs : is_ok prepared.0 ≡ true
unfolding prepare_autoinstall install_all install_scripts install_script find_contents
    join_text_path removed copied first_error
installs = refl

prepare_autoinstall-HasSeed_example :
    All
      (HasSeed machine machine-CopiesFiles machine-StoresFiles settings.runtime_root before
        prepared.1)
      tasks
prepare_autoinstall-HasSeed_example =
    prepare_autoinstall-HasSeed machine machine-CopiesFiles machine-StoresFiles
      settings.runtime_root seeding distros before prepared.1 all-IsPlaced all-IsOutside
      keys-Distinct (with_state prepared installs)
