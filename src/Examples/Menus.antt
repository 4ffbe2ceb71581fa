-- ===== src/Examples/Menus.antt =====
-- grub/: examples.
use nixos_router_module.Base.{false, [], all, false, refl, some, true, ◌++◌, ◌∷◌, ◌≡◌}
use nixos_router_module.Config.{MenuEntry}
use nixos_router_module.Distro.Rhel.{rhel_boot_params}
use nixos_router_module.Distro.Ubuntu.{ubuntu_boot_params}
use nixos_router_module.Examples.Data.{boot, factory, iso_bytes, iso_name, script, script_bytes}
use nixos_router_module.Grub.Decode.{
  all-is_url_safe-url_encode_segment, is_url_safe, url_decode, url_decode-url_encode_segment,
}
use nixos_router_module.Grub.Entry.{
  autoinstall_dir_url, autoinstall_url, filled_params, iso_url, mounted_url,
}
use nixos_router_module.Grub.Entry.Encode.{url_encode_segment}
use nixos_router_module.Grub.Escape.{read_quoted, read_quoted-escape_grub_string}
use nixos_router_module.Grub.Menu.{escape_grub_string}
use nixos_router_module.Grub.Params.{filled_params-seeded, v4-HasNoBrace}
use nixos_router_module.Grub.Rendered.{shown_on}
use nixos_router_module.Distro.Arch.{to_grub_cpu}
use nixos_router_module.Text.{Text, text}

read_quoted-escape_grub_string_example :
    read_quoted false (escape_grub_string (text "a\"b\\") ++ b'"' ∷ text " {")
    ≡ some (text "a\"b\\", text " {")
read_quoted-escape_grub_string_example = read_quoted-escape_grub_string (text "a\"b\\") (text " {")

filled_params-seeded_example :
    (filled_params factory iso_name (some script) (
        rhel_boot_params
          (iso_url factory iso_name)
          (mounted_url factory iso_name)
          boot
          (some script))
      ≡ text "initrd=initrd.img"
        ∷ (text "inst.repo=" ++ mounted_url factory iso_name)
        ∷ (text "inst.ks=" ++ autoinstall_url factory iso_name script.name)
        ∷ [])
    × (filled_params factory iso_name (some script) (
          ubuntu_boot_params
            (iso_url factory iso_name)
            (mounted_url factory iso_name)
            boot
            (some script))
        ≡ text "BOOTIF=${net_default_mac}"
          ∷ text "ip=dhcp"
          ∷ (text "url=" ++ iso_url factory iso_name)
          ∷ text "autoinstall"
          ∷ (text "ds=nocloud-net\\;s=" ++ autoinstall_dir_url factory iso_name script.name)
          ∷ [])
filled_params-seeded_example =
    filled_params-seeded factory (v4-HasNoBrace 10 0 0 1) script iso_name boot iso_bytes
      script_bytes

url_decode-url_encode_segment_example : url_decode (url_encode_segment iso_name) ≡ iso_name
url_decode-url_encode_segment_example = url_decode-url_encode_segment iso_name iso_bytes

all-is_url_safe-url_encode_segment_example : all is_url_safe (url_encode_segment iso_name) ≡ true
all-is_url_safe-url_encode_segment_example = all-is_url_safe-url_encode_segment iso_name iso_bytes

abbrev quoting_entry : MenuEntry
quoting_entry = record {
  title = text "say \"hi\"\n";
  kernel_url = text "(http,h:1)/k";
  kernel_params = text "a" ∷ text "b" ∷ [];
  initrd_url = text "(http,h:1)/i";
  position = 0;
  architecture = some (text "aarch64");
}

-- An entry for another architecture is hidden.
hidden : shown_on (text "x86_64") (some (text "aarch64")) ≡ false
unfolding shown_on to_grub_cpu
hidden = refl
