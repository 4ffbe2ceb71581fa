-- ===== src/Autoinstall.antt =====
-- autoinstall/manager.rs: the seeds of the installers. The copies, which the source makes
-- concurrently, are made one after the other; like there, a failure does not stop the others.
-- Concurrent has their interleavings, of which this order is one.
pub mod Served
pub mod Seeds
pub mod Places
pub mod Installed
pub mod Concurrent
use nixos_router_module.Base.{
  list_eq, nat_eq, Bool, List, [], false, if◌then◌else◌, list_eq, nat_eq, true, ◌++◌, ◌==◌, ◌∷◌,
}
use nixos_router_module.Actions.{Action, attempt, ◌>>◌}
use nixos_router_module.Config.{Autoinstall, AutoinstallScript, DistroType, PxeBootConfig, ubuntu}
use nixos_router_module.Errors.{IoResult, Result, err, first_error, io, not_found, ok, other}
use nixos_router_module.Os.{Os}
use nixos_router_module.Paths.{FilePath, join_text_path}
use nixos_router_module.Service.Detection.{distro_by_iso}
use nixos_router_module.Text.{Text, text}

-- `remove_file`, where a file that is not there is no error.
abbrev pub unless_not_found : IoResult (Unit {0}) → Result (Unit {0})
unless_not_found (ok _) = ok tt
unless_not_found (err e) = elim e.kind [ not_found ↦ ok tt | other ↦ err (io e) ]

-- `matches!(distro_by_iso.get(iso_name), Some(DistroType::Ubuntu))`
abbrev pub is_ubuntu_type : DistroType → Bool
is_ubuntu_type ubuntu = true
is_ubuntu_type _ = false

unfoldable pub is_ubuntu_iso : List (Text × DistroType) → Text → Bool
is_ubuntu_iso [] iso_name = false
is_ubuntu_iso ((name, distro) ∷ rest) iso_name =
    let later = is_ubuntu_iso rest iso_name in
    if name == iso_name then is_ubuntu_type distro else later

abbrev pub iso_script_dir : FilePath → Text → FilePath
iso_script_dir runtime_root iso_name =
    join_text_path (join_text_path runtime_root (text "unattented-install")) iso_name

module _ (os : Os) where
  pub remove_if_exists : FilePath → Action os.State (Unit {0})
  remove_if_exists path s = let (r, t) = os.remove_file path s in (unless_not_found r, t)

  pub install_file : FilePath → FilePath → Action os.State (Unit {0})
  unfolding remove_if_exists
  install_file src dest = do remove_if_exists dest; attempt io (os.copy src dest)

  pub write_fresh : FilePath → Text → Action os.State (Unit {0})
  unfolding remove_if_exists
  write_fresh dest contents = do remove_if_exists dest; attempt io (os.write dest contents)

  -- A file that stands where the directory is wanted is removed first.
  pub ensure_dir : FilePath → Action os.State (Unit {0})
  ensure_dir dir s = elim (os.is_dir s dir) [
    | err e ↦ attempt io (os.create_dir_all dir) s
    | ok directory ↦
        if directory
        then attempt io (os.create_dir_all dir) s
        else (◌>>◌ (attempt io (os.remove_file dir)) (attempt io (os.create_dir_all dir))) s
  ]

  -- One task: the seed directory of an Ubuntu image, or the script under its own name.
  unfoldable pub install_script : Bool → FilePath → AutoinstallScript → Action os.State (Unit {0})
  unfolding ensure_dir install_file write_fresh
  install_script false dir script = do
    ensure_dir dir
    install_file script.script_path (join_text_path dir script.name)
  install_script true dir script = do
    ensure_dir dir
    ensure_dir (join_text_path dir script.name)
    install_file script.script_path
        (join_text_path (join_text_path dir script.name) (text "user-data"))
    write_fresh (join_text_path (join_text_path dir script.name) (text "meta-data")) []

  unfoldable pub install_scripts :
      Bool → FilePath → List AutoinstallScript → os.State → List (Result (Unit {0})) × os.State
  unfolding install_script
  install_scripts is_ubuntu dir [] s = ([], s)
  install_scripts is_ubuntu dir (script ∷ rest) s =
      let (r, t) = install_script is_ubuntu dir script s in
      let (later, u) = install_scripts is_ubuntu dir rest t in (r ∷ later, u)

  unfoldable pub install_all :
      FilePath
      → List (Text × DistroType)
      → Autoinstall
      → os.State
      → List (Result (Unit {0})) × os.State
  unfolding install_scripts is_ubuntu_iso
  install_all runtime_root distro_by_iso [] s = ([], s)
  install_all runtime_root distro_by_iso ((iso_name, scripts) ∷ rest) s =
      let (first, t) =
        install_scripts (is_ubuntu_iso distro_by_iso iso_name)
          (iso_script_dir runtime_root iso_name) scripts s in
      let (later, u) = install_all runtime_root distro_by_iso rest t in (first ++ later, u)

  unfoldable pub prepare_autoinstall :
      FilePath → PxeBootConfig → List (Text × DistroType) → Action os.State (Unit {0})
  unfolding install_all first_error
  prepare_autoinstall runtime_root c distro_by_iso s =
      let (results, t) = install_all runtime_root distro_by_iso c.autoinstall s in
      (first_error results, t)
