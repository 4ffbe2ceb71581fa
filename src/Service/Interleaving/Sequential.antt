-- ===== src/Service/Interleaving/Sequential.antt =====
-- lib.rs: the menus written one after the other are one of the orders in which the menu tasks run.
use nixos_router_module.Base.{
  List, [], ap, by_number, get_elem?, map, nat_eq, refl, some, some-injective, suc, suc-injective,
  sym, zero, zero-ne-suc, ℕ, ◌∙◌, ◌∷◌, ◌≡◌, ◌≢◌,
}
use nixos_router_module.Config.{DhcpInterface}
use nixos_router_module.Errors.{Result}
use nixos_router_module.Grub.Menu.{Handlebars}
use nixos_router_module.Os.{Os}
use nixos_router_module.Service.Collaborators.{PxeBootService}
use nixos_router_module.Service.Entries.{Bootable}
use nixos_router_module.Service.Interleaving.{
  HasEnded, Run, Running, here, menu_tasks, start, steps_at,
}
use nixos_router_module.Service.Menu.{generate_grub_menu}
use nixos_router_module.Service.Prepare.{generate_all}
use nixos_router_module.Service.Tasks.{
  MenuStep, Task, menu_steps, new_task, perform_all, task_result,
}
use nixos_router_module.Service.Tasks.Plan.{perform_all-menu_steps}
use nixos_router_module.Text.{Text}
use nixos_router_module.Service.Interleaving.Alone.{Ran, Reaches, Reaches-trans, run_task}

module _ (os : Os) (hb : Handlebars) (service : PxeBootService os.State)
    (infos : List (Bootable os.State)) (failed : List (Text × Text)) where
  abbrev steps_of : DhcpInterface → List MenuStep
  steps_of i = menu_steps os hb service.settings i infos failed

  abbrev written : List DhcpInterface → os.State → List (Result (Unit {0})) × os.State
  written is s = generate_all os hb service is infos failed s

  -- What the tasks of some interfaces leave when they run one after the other. The tasks have the
  -- numbers that `number` gives.
  record RanAll (number : ℕ → ℕ) (is : List DhcpInterface) (m u : Running os.State) : Type 0 where
    reaches : Reaches os m u
    machine : u.machine ≡ (written is m.machine).1
    ended : (k : ℕ) → (u.tasks (number k)).left ≡ []
    results :
        (k : ℕ) (r : Result (Unit {0}))
        → get_elem? (written is m.machine).0 k ≡ some r
        → task_result (u.tasks (number k)) ≡ r
    others : (j : ℕ) → ((k : ℕ) → j ≢ number k) → u.tasks j ≡ m.tasks j

  RanAll-cons :
      (number : ℕ → ℕ) (i : DhcpInterface) (is : List DhcpInterface) (m v u : Running os.State)
      → ((j k : ℕ) → number j ≡ number k → j ≡ k)
      → Ran os m (number 0) (perform_all os (steps_of i) m.machine) v
      → RanAll (λ k. number (suc k)) is v u
      → RanAll number (i ∷ is) m u
  unfolding generate_all
  RanAll-cons number i is m v u injective ran rest = record {
    reaches = Reaches-trans os m v u ran.reaches rest.reaches;
    machine = rest.machine ∙ ap (λ s. (written is s).1) same;
    ended =
        by_number (λ k. (u.tasks (number k)).left ≡ []) (ap Task.left kept ∙ ran.ended) rest.ended;
    results =
        by_number P
          (λ r h. ap task_result kept ∙ (ran.result ∙ (ap (λ p. p.0) menu ∙ some-injective _ r h)))
          (λ k r h. rest.results k r (ap (λ s. get_elem? (written is s).0 k) same ∙ h));
    others = λ j ne. rest.others j (λ k. ne (suc k)) ∙ ran.others j (ne 0);
  }
    where
      P : ℕ → Type 0
      P k =
          (r : Result (Unit {0}))
          → get_elem? (written (i ∷ is) m.machine).0 k ≡ some r
          → task_result (u.tasks (number k)) ≡ r

      menu :
          perform_all os (steps_of i) m.machine
          ≡ generate_grub_menu os hb service.settings i infos failed m.machine
      menu = perform_all-menu_steps os hb service.settings i infos failed m.machine

      same : v.machine ≡ (generate_grub_menu os hb service.settings i infos failed m.machine).1
      same = ran.machine ∙ ap (λ p. p.1) menu

      kept : u.tasks (number 0) ≡ v.tasks (number 0)
      kept = rest.others (number 0) (λ k e. zero-ne-suc k (injective 0 (suc k) e))

  run_all :
      (is : List DhcpInterface) (number : ℕ → ℕ) (m : Running os.State)
      → ((j k : ℕ) → number j ≡ number k → j ≡ k)
      → ((k : ℕ) → m.tasks (number k) ≡ new_task (steps_at (map steps_of is) k))
      → (u : Running os.State) × RanAll number is m u
  unfolding generate_all
  run_all [] number m injective fresh = (
    m,
    record {
      reaches = (zero, here);
      machine = refl;
      ended = λ k. ap Task.left (fresh k);
      results = λ k r h. cc;
      others = λ j ne. refl;
    },
  )
  run_all (i ∷ is) number m injective fresh =
      let (v, ran) =
        run_task os (steps_of i) m (number 0) (ap Task.left (fresh 0))
          (ap Task.failure (fresh 0)) in
      let (u, rest) =
        run_all is (λ k. number (suc k)) v (λ j k e. suc-injective (injective (suc j) (suc k) e))
          (λ k.
            ran.others (number (suc k)) (λ e. zero-ne-suc k (sym (injective (suc k) 0 e)))
            ∙ fresh (suc k)) in
      (u, RanAll-cons number i is m v u injective ran rest)

  -- Writing the menus of the interfaces one after the other is one of the orders in which their
  -- tasks can run to the end: it leaves the same machine, and every interface has the result of its
  -- task.
  pub generate_all-Run :
      (s : os.State)
      → let sequential =
          generate_all os hb service service.settings.dhcp_interfaces infos failed s in
        let begin : Running os.State = start (menu_tasks os hb service.settings infos failed) s in
        (u : Running os.State) × ((n : ℕ) × Run os begin n u)
        × HasEnded u
        × (u.machine ≡ sequential.1)
        × ((k : ℕ) (r : Result (Unit {0}))
            → get_elem? sequential.0 k ≡ some r
            → task_result (u.tasks k) ≡ r)
  generate_all-Run s =
      let (u, all) =
        run_all service.settings.dhcp_interfaces (λ k. k)
          (start (menu_tasks os hb service.settings infos failed) s) (λ j k e. e) (λ k. refl) in
      (u, all.reaches, all.ended, all.machine, all.results)
