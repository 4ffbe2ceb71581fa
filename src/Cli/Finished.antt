-- ===== src/Cli/Finished.antt =====
-- main.rs: the menus that stand in the files after `prepare` was run as a command.
use nixos_router_module.Base.{
  All, List, [], ap, get_elem?, refl, some, subst, sym, true, ℕ, ◌∙◌, ◌∷◌, ◌≡◌,
}
use nixos_router_module.Autoinstall.Seeds.{CopiesFiles}
use nixos_router_module.Cli.{
  Commands, OutputLine, ParseConfig, checked_dispatch, dispatch, main, prepare_command, printed,
  with_config, with_contents,
}
use nixos_router_module.Config.{DhcpInterface, PxeBootConfig}
use nixos_router_module.Config.Validation.{validate}
use nixos_router_module.Distro.NixOs.{ParseBootSpec}
use nixos_router_module.Errors.{Result, err, is_ok, ok, with_path, ◌>>◌}
use nixos_router_module.Grub.Menu.{Handlebars}
use nixos_router_module.Os.{Os}
use nixos_router_module.Paths.{FilePath}
use nixos_router_module.Service.Collaborators.{PxeBootService}
use nixos_router_module.Service.Completes.{outcome, prepare-outcome}
use nixos_router_module.Service.Finished.{ReleaseKeepsFiles, prepare-HasMenus}
use nixos_router_module.Service.Interleaving.Outcome.{HasMenus}
use nixos_router_module.Service.Interleaving.Places.{HasPlainMacs}
use nixos_router_module.Service.New.{new_service}
use nixos_router_module.Service.Prepare.{
  acquire_prepare_lock, detected_isos, generate_all, lock_path, prepare,
}
use nixos_router_module.Service.Written.{StoresFiles}
use nixos_router_module.Text.{Text}

printed-is_ok :
    {S A : Type 0} (lines_of : A → List OutputLine) (p : Result A × S)
    → is_ok (printed lines_of p).0 ≡ is_ok p.0
printed-is_ok lines_of (ok a, s) = refl
printed-is_ok lines_of (err e, s) = refl

printed-state :
    {S A : Type 0} (lines_of : A → List OutputLine) (p : Result A × S)
    → (printed lines_of p).1 ≡ p.1
printed-state lines_of (ok a, s) = refl
printed-state lines_of (err e, s) = refl

-- A chain that succeeds has passed its first step.
first_ok : (a b : Result (Unit {0})) → is_ok (a >> b) ≡ true → a ≡ ok tt
first_ok (ok a) b h = refl
first_ok (err e) b h = cc

module _ (os : Os) (hb : Handlebars) (from_str : ParseBootSpec) (parse : ParseConfig)
    (c : PxeBootConfig) where
  abbrev service : PxeBootService os.State
  service = new_service os from_str c

  prepare-is_ok :
      (s : os.State)
      → is_ok (prepare os hb service s).0 ≡ true
      → (acquire_prepare_lock os hb service s).0 ≡ ok tt
  prepare-is_ok s h =
      first_ok (acquire_prepare_lock os hb service s).0
        (outcome (service.collaborators.discover (acquire_prepare_lock os hb service s).1).0)
        (ap is_ok (sym (prepare-outcome os hb service s)) ∙ h)

  -- A configuration that was read and parsed is checked, and then the command runs.
  main_lem :
      (config_path : FilePath) (contents : Text) (command : Commands) (s : os.State)
      → os.read_to_string s config_path ≡ ok contents
      → parse contents ≡ ok c
      → main os hb from_str parse config_path command s
        ≡ checked_dispatch os hb from_str parse command c (validate (os.exists s) c) s
  unfolding main with_path
  main_lem config_path contents command s read parsed =
      ap (λ r. with_contents os hb from_str parse command (with_path r config_path) s) read
      ∙ ap (λ r. with_config os hb from_str parse command r s) parsed

  -- A `prepare` that succeeds has passed the validation.
  checked_dispatch-prepare :
      (v : Result (Unit {0})) (s : os.State)
      → is_ok (checked_dispatch os hb from_str parse prepare_command c v s).0 ≡ true
      → (is_ok v ≡ true)
        × (is_ok (prepare os hb service s).0 ≡ true)
        × ((checked_dispatch os hb from_str parse prepare_command c v s).1
            ≡ (prepare os hb service s).1)
  unfolding checked_dispatch dispatch
  checked_dispatch-prepare (err e) s h = cc
  checked_dispatch-prepare (ok a) s h = (
    refl,
    sym (printed-is_ok (λ u. []) (prepare os hb service s)) ∙ h,
    printed-state (λ u. []) (prepare os hb service s),
  )

-- When the command `prepare` succeeds and images were found, the files of every interface of the
-- configuration whose menu could be written hold its menu and those of its reservations, for the
-- images that were detected and those that were not. That the configuration is valid and the lock was
-- taken follows from the success. Files and the lock behave as `CopiesFiles`, `StoresFiles` and
-- `ReleaseKeepsFiles` say, and in each interface the addresses of the reservations differ, in lower
-- case, and have no separator.
pub main-HasMenus :
    (os : Os) (hb : Handlebars) (from_str : ParseBootSpec) (parse : ParseConfig)
    (copies : CopiesFiles os) (stores : StoresFiles os) (c : PxeBootConfig)
    (keeps : ReleaseKeepsFiles os (lock_path c.runtime_root)) (config_path : FilePath)
    (contents : Text) (p : FilePath) (rest : List FilePath) (s : os.State) (k : ℕ)
    (i : DhcpInterface)
    → os.read_to_string s config_path ≡ ok contents
    → parse contents ≡ ok c
    → All HasPlainMacs c.dhcp_interfaces
    → let service = new_service os from_str c in
      let found = service.collaborators.discover (acquire_prepare_lock os hb service s).1 in
      let (d, v) = detected_isos os hb service (p ∷ rest) found.1 in
      let ended = main os hb from_str parse config_path prepare_command s in
      is_ok ended.0 ≡ true
      → found.0 ≡ ok (p ∷ rest)
      → get_elem? c.dhcp_interfaces k ≡ some i
      → get_elem? (generate_all os hb service c.dhcp_interfaces d.iso_infos d.failed_isos v).0 k
        ≡ some (ok tt)
      → HasMenus os hb stores c d.iso_infos d.failed_isos ended.1 i
main-HasMenus os hb from_str parse copies stores c keeps config_path contents p rest s k i read
      parsed plain succeeded found at written =
    let service = new_service os from_str c in
    let locked = acquire_prepare_lock os hb service s in
    let images = service.collaborators.discover locked.1 in
    let (d, v) = detected_isos os hb service (p ∷ rest) images.1 in
    let ran = main_lem os hb from_str parse c config_path contents prepare_command s read parsed in
    let (valid, done, same) =
      checked_dispatch-prepare os hb from_str parse c (validate (os.exists s) c) s
        (ap (λ r. is_ok r.0) (sym ran) ∙ succeeded) in
    subst (λ t. HasMenus os hb stores c d.iso_infos d.failed_isos t i)
      (sym (ap (λ r. r.1) ran ∙ same))
      (prepare-HasMenus os hb copies stores (os.exists s) service keeps p rest s locked.1 images.1 k
        i valid plain (ap (λ r. (r, locked.1)) (prepare-is_ok os hb from_str parse c s done))
        (ap (λ r. (r, images.1)) found) at written).1
