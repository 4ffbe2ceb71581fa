-- ===== src/Autoinstall/Seeds.antt =====
-- autoinstall/manager.rs: what an installed script leaves to be served.
use nixos_router_module.Base.{
  Bool, Option, [], ap, false, list_beq, list_beq_iff, list_eq, nat_eq, none, refl, some, sym, true,
  ◌∙◌, ◌≡◌, ◌≢◌,
}
use nixos_router_module.Config.{AutoinstallScript}
use nixos_router_module.Errors.{is_ok, ok}
use nixos_router_module.Os.{Os}
use nixos_router_module.Paths.{FilePath, file_name, join_text_path}
use nixos_router_module.Paths.Names.{IsName, IsName-of_is_name, file_name-join_text_path}
use nixos_router_module.Service.Written.{StoresFiles}
use nixos_router_module.Text.{Text, text}

-- How the system copies, removes and makes files, where different paths are different files: what is
-- copied is read back, and no other file changes.
pub record CopiesFiles (os : Os) : Type 0 where
  pub read_copied :
      (src dest : FilePath) (s : os.State)
      → is_ok (os.copy src dest s).0 ≡ true
      → os.read_to_string (os.copy src dest s).1 dest ≡ os.read_to_string s src
  pub copy_keeps :
      (src dest q : FilePath) (s : os.State)
      → dest ≢ q
      → os.read_to_string (os.copy src dest s).1 q ≡ os.read_to_string s q
  pub remove_keeps :
      (p q : FilePath) (s : os.State)
      → p ≢ q
      → os.read_to_string (os.remove_file p s).1 q ≡ os.read_to_string s q
  pub create_keeps :
      (p q : FilePath) (s : os.State)
      → os.read_to_string (os.create_dir_all p s).1 q ≡ os.read_to_string s q

pub meta-IsName : IsName (text "meta-data")
meta-IsName = IsName-of_is_name (text "meta-data") refl

pub user-IsName : IsName (text "user-data")
user-IsName = IsName-of_is_name (text "user-data") refl

abbrev name_or_empty : Option Text → Text
name_or_empty none = []
name_or_empty (some name) = name

names_differ : text "meta-data" ≢ text "user-data"
names_differ h =
    let same : list_beq (text "meta-data") (text "user-data") ≡ true =
      (list_beq_iff (text "meta-data") (text "user-data")).1 h in
    cc

module _ (os : Os) (copies : CopiesFiles os) (stores : StoresFiles os) where
  -- The places of a seed: all of them differ from where the script comes from.
  module _ (dir : FilePath) (script : AutoinstallScript) where
    abbrev pub seed_dest : FilePath
    seed_dest = join_text_path dir script.name

    abbrev pub user_data : FilePath
    user_data = join_text_path seed_dest (text "user-data")

    abbrev pub meta_data : FilePath
    meta_data = join_text_path seed_dest (text "meta-data")

    pub meta_ne : meta_data ≢ user_data
    meta_ne same = names_differ (
        ap name_or_empty (
          sym (file_name-join_text_path seed_dest (text "meta-data") meta-IsName)
          ∙ (ap file_name same
              ∙ file_name-join_text_path seed_dest (text "user-data") user-IsName)))

    -- What can be read after an installation, by whether the image is an Ubuntu image.
    abbrev pub Installed : Bool → os.State → os.State → Type 0
    Installed false s t = os.read_to_string t seed_dest ≡ os.read_to_string s script.script_path
    Installed true s t =
        (os.read_to_string t user_data ≡ os.read_to_string s script.script_path)
        × (os.read_to_string t meta_data ≡ ok [])
