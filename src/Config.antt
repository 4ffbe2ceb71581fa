-- ===== src/Config.antt =====
-- config/schema.rs: the configuration, what is known of an ISO, and a menu entry.
pub mod Validation
pub mod Valid
use nixos_router_module.Base.{
  List, Option, [], if◌then◌else◌, list_eq, nat_eq, none, some, ℕ, ◌++◌, ◌==◌, ◌∷◌,
}
use nixos_router_module.Paths.{FilePath}
use nixos_router_module.Text.{Text, decimal, text}

-- `std::net::IpAddr`, which the program only formats: four octets, or the text of an IPv6 address.
pub data IpAddr : Type 0 where
  v4 : (a b c d : ℕ) → IpAddr
  v6 : Text → IpAddr

unfoldable pub display_ip : IpAddr → Text
display_ip (v4 a b c d) =
    decimal a ++ (text "." ++ (decimal b ++ (text "." ++ (decimal c ++ (text "." ++ decimal d)))))
display_ip (v6 s) = s

pub record ReservationOverride : Type 0 where
  pub mac : Text
  pub default_iso : Option Text
  pub default_script : Option Text

pub record DhcpInterface : Type 0 where
  pub id : ℕ
  pub name : Text
  pub gateway : IpAddr
  pub default_iso : Option Text
  pub default_script : Option Text
  pub tftp_root : Option FilePath
  pub reservations : List ReservationOverride

pub record AutoinstallScript : Type 0 where
  pub name : Text
  pub script_path : FilePath

pub record HttpConfig : Type 0 where
  pub port : ℕ

-- `HashMap<String, Vec<AutoinstallScript>>`, in the order in which it is iterated
abbrev pub Autoinstall : Type 0
Autoinstall = List (Text × List AutoinstallScript)

pub record PxeBootConfig : Type 0 where
  pub iso_folder_paths : List FilePath
  pub tftp_root : FilePath
  pub runtime_root : FilePath
  pub dhcp_interfaces : List DhcpInterface
  pub autoinstall : Autoinstall
  pub http : HttpConfig

pub data DistroType : Type 0 where
  nix_os ubuntu red_hat : DistroType
  unknown : Text → DistroType

pub record BootInfo : Type 0 where
  pub kernel_path : FilePath
  pub initrd_path : FilePath
  pub distro_type : DistroType
  pub version : Option Text
  pub architecture : Option Text
  pub init_path : Option Text

pub record IsoInfo : Type 0 where
  pub file_name : Text
  pub file_path : FilePath
  pub mount_path : FilePath
  pub distro_type : DistroType
  pub kernel_path : FilePath
  pub initrd_path : FilePath

unfoldable pub placeholder : Text → FilePath → FilePath → IsoInfo
placeholder file_name file_path mount_path = record {
  file_name = file_name;
  file_path = file_path;
  mount_path = mount_path;
  distro_type = unknown [];
  kernel_path = [];
  initrd_path = [];
}

unfoldable pub apply_boot_info : IsoInfo → BootInfo → IsoInfo
apply_boot_info iso boot = record iso {
  distro_type = boot.distro_type;
  kernel_path = boot.kernel_path;
  initrd_path = boot.initrd_path;
}

pub record MenuEntry : Type 0 where
  pub title : Text
  pub kernel_url : Text
  pub kernel_params : List Text
  pub initrd_url : Text
  pub position : ℕ
  pub architecture : Option Text

-- `HashMap::get`
unfoldable pub scripts_of : Autoinstall → Text → Option (List AutoinstallScript)
scripts_of [] iso = none
scripts_of ((k, v) ∷ m) iso = let rest = scripts_of m iso in if k == iso then some v else rest
