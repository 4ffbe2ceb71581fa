-- ===== src/Service/Interleaving/Menus.antt =====
-- lib.rs: the files of the interfaces after the menus have been written one after the other.
use nixos_router_module.Base.{
  All, Bool, List, Option, subst, get_elem?, nat_eq, none, refl, some, true, ℕ, ◌≡◌,
}
use nixos_router_module.Autoinstall.Seeds.{CopiesFiles}
use nixos_router_module.Config.{DhcpInterface}
use nixos_router_module.Config.Validation.{validate}
use nixos_router_module.Errors.{PxeBootError, is_ok, ok}
use nixos_router_module.Grub.Menu.{Handlebars}
use nixos_router_module.Os.{Os}
use nixos_router_module.Service.Collaborators.{PxeBootService}
use nixos_router_module.Service.Entries.{Bootable}
use nixos_router_module.Service.Interleaving.Outcome.{HasMenus, Run-HasMenus}
use nixos_router_module.Service.Interleaving.Places.{HasPlainMacs}
use nixos_router_module.Paths.{FilePath}
use nixos_router_module.Service.Written.{StoresFiles}
use nixos_router_module.Service.Prepare.{generate_all}
use nixos_router_module.Service.Tasks.{Task, task_result}
use nixos_router_module.Text.{Text}
use nixos_router_module.Service.Interleaving.Sequential.{generate_all-Run}

steps_done : (t : Task) → task_result t ≡ ok tt → t.failure ≡ none
steps_done t h = go t.failure refl h
  where
    go :
        (f : Option PxeBootError)
        → t.failure ≡ f
        → task_result (record t { failure = f }) ≡ ok tt
        → t.failure ≡ none
    go none e h = e
    go (some x) e h = cc

-- After the menus have been written one after the other, the files of every interface whose menu
-- could be written hold its menu and those of its reservations, although other menus were written
-- since, and whichever of them failed. The configuration passes `validate`, files behave as
-- `CopiesFiles` and `StoresFiles` say, and in each interface the addresses of the reservations
-- differ, in lower case, and have no separator.
pub generate_all-HasMenus :
    (os : Os) (hb : Handlebars) (copies : CopiesFiles os) (stores : StoresFiles os)
    (exists : FilePath → Bool) (service : PxeBootService os.State)
    (infos : List (Bootable os.State)) (failed : List (Text × Text)) (s : os.State) (k : ℕ)
    (i : DhcpInterface)
    → is_ok (validate exists service.settings) ≡ true
    → All HasPlainMacs service.settings.dhcp_interfaces
    → let done = generate_all os hb service service.settings.dhcp_interfaces infos failed s in
      get_elem? service.settings.dhcp_interfaces k ≡ some i
      → get_elem? done.0 k ≡ some (ok tt)
      → HasMenus os hb stores service.settings infos failed done.1 i
generate_all-HasMenus os hb copies stores exists service infos failed s k i valid plain at done =
    let (u, (n, run), ended, same, results) = generate_all-Run os hb service infos failed s in
    subst (λ t. HasMenus os hb stores service.settings infos failed t i) same
      (Run-HasMenus os hb copies stores exists service.settings infos failed s n u k i valid plain
        run at (ended k) (steps_done (u.tasks k) (results k (ok tt) done)))
