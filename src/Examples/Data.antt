-- ===== src/Examples/Data.antt =====
-- A small machine: an image with Ubuntu, a configuration with two interfaces, and a reservation.
use nixos_router_module.Base.{
  All, List, [], arith, false, none, refl, some, true, ℕ, ◌++◌, ◌∷◌, ◌≡◌,
}
use nixos_router_module.Config.{
  Autoinstall, AutoinstallScript, BootInfo, DhcpInterface, IsoInfo, PxeBootConfig,
  ReservationOverride, apply_boot_info, placeholder, ubuntu, v4,
}
use nixos_router_module.Distro.BootPaths.{BootsBelow}
use nixos_router_module.Distro.Detector.{DistroDetector}
use nixos_router_module.Distro.NixOs.{ParseBootSpec}
use nixos_router_module.Distro.Ubuntu.{ubuntu_detector}
use nixos_router_module.Distro.Unknown.{new_registry}
use nixos_router_module.Errors.{Result, err, is_ok, ok}
use nixos_router_module.Grub.Decode.{IsByte}
use nixos_router_module.Grub.Entry.{MenuEntryFactory}
use nixos_router_module.Grub.Menu.{Handlebars}
use nixos_router_module.Grub.Rendered.{fill}
use nixos_router_module.Machine.{Machine, machine}
use nixos_router_module.Paths.{FilePath, normal, root_dir}
use nixos_router_module.Paths.Names.{IsName, IsName-of_is_name}
use nixos_router_module.Service.Collaborators.{PxeBootService}
use nixos_router_module.Service.Entries.{Bootable}
use nixos_router_module.Service.New.{new_service}
use nixos_router_module.Text.{Text, text}

abbrev pub mount_path : FilePath
mount_path = root_dir ∷ normal (text "mnt") ∷ normal (text "noble-amd64.iso") ∷ []

abbrev pub iso_path : FilePath
iso_path = root_dir ∷ normal (text "isos") ∷ normal (text "noble-amd64.iso") ∷ []

abbrev pub iso_name : Text
iso_name = text "noble-amd64.iso"

abbrev pub kernel : FilePath
kernel = mount_path ++ normal (text "casper") ∷ normal (text "vmlinuz") ∷ []

abbrev pub initrd : FilePath
initrd = mount_path ++ normal (text "casper") ∷ normal (text "initrd") ∷ []

abbrev pub marker : FilePath
marker = mount_path ++ normal (text "casper") ∷ normal (text "ubuntu-server-minimal.squashfs") ∷ []

abbrev pub state : Machine
state = record {
  files = (marker, []) ∷ (kernel, []) ∷ (initrd, []) ∷ [];
  links = [];
  locked = false;
}

-- A parser that knows no document.
abbrev pub from_str : ParseBootSpec
from_str contents = err (text "no bootspec")

abbrev pub script : AutoinstallScript
script = record { name = text "server"; script_path = root_dir ∷ normal (text "seed") ∷ [] }

abbrev pub autoinstall : Autoinstall
autoinstall = (iso_name, script ∷ []) ∷ []

abbrev pub reservation : ReservationOverride
reservation = record {
  mac = text "AA:BB";
  default_iso = none;
  default_script = some (text "server");
}

abbrev pub lan : ℕ → DhcpInterface
lan n = record {
  id = n;
  name = text "lan";
  gateway = v4 10 0 0 1;
  default_iso = some iso_name;
  default_script = none;
  tftp_root = none;
  reservations = reservation ∷ [];
}

abbrev pub settings : PxeBootConfig
settings = record {
  iso_folder_paths = [];
  tftp_root = root_dir ∷ normal (text "tftp") ∷ [];
  runtime_root = root_dir ∷ normal (text "run") ∷ [];
  dhcp_interfaces = lan 1 ∷ lan 12 ∷ [];
  autoinstall = autoinstall;
  http = record { port = 8080 };
}

abbrev pub registry : List (DistroDetector Machine)
registry = new_registry machine from_str

abbrev pub service : PxeBootService Machine
service = new_service machine from_str settings

abbrev pub handlebars : Handlebars
handlebars = record {
  register_template_string = λ t. ok tt;
  render = λ t fields. ok (fill fields none 0 t);
}

abbrev pub factory : MenuEntryFactory
factory = record { gateway = v4 10 0 0 1; http_port = 8080 }

abbrev pub boot : BootInfo
boot = record {
  kernel_path = kernel;
  initrd_path = initrd;
  distro_type = ubuntu;
  version = none;
  architecture = some (text "x86_64");
  init_path = none;
}

abbrev pub info : IsoInfo
info = apply_boot_info (placeholder iso_name iso_path mount_path) boot

abbrev pub bootable : List (Bootable Machine)
bootable = (info, boot, ubuntu_detector machine) ∷ []

pub boots_below : BootsBelow mount_path boot
boots_below = (
  (normal (text "casper") ∷ normal (text "vmlinuz") ∷ [], refl),
  (normal (text "casper") ∷ normal (text "initrd") ∷ [], refl),
)

pub iso_bytes : All IsByte iso_name
iso_bytes = (
  omega arith,
  (
    omega arith,
    (
      omega arith,
      (
        omega arith,
        (
          omega arith,
          (
            omega arith,
            (
              omega arith,
              (
                omega arith,
                (
                  omega arith,
                  (
                    omega arith,
                    (omega arith, (omega arith, (omega arith, (omega arith, (omega arith, tt))))),
                  ),
                ),
              ),
            ),
          ),
        ),
      ),
    ),
  ),
)

pub script_bytes : All IsByte script.name
script_bytes =
    (omega arith, (omega arith, (omega arith, (omega arith, (omega arith, (omega arith, tt))))))

pub iso-IsName : IsName iso_name
iso-IsName = IsName-of_is_name iso_name refl

pub script-IsName : IsName script.name
script-IsName = IsName-of_is_name script.name refl

pub with_state : (m : Result (Unit {0}) × Machine) → is_ok m.0 ≡ true → m ≡ (ok tt, m.1)
with_state (ok a, m) h = refl
with_state (err e, m) h = cc
