-- ===== src/Grub/Entry.antt =====
-- grub/entry.rs: URLs and kernel parameters of a menu entry.
pub mod Encode
use nixos_router_module.Base.{List, Option, map, none, some, ℕ, ◌++◌}
use nixos_router_module.Config.{AutoinstallScript, BootInfo, IpAddr, IsoInfo, MenuEntry, display_ip}
use nixos_router_module.Distro.Detector.{
  DistroDetector, autoinstall_dir_url_placeholder, autoinstall_url_placeholder,
}
use nixos_router_module.Errors.{Result, err, grub_generation, ok, ◌>>=◌, ◌>>◌}
use nixos_router_module.Grub.Entry.Encode.{url_encode_segment}
use nixos_router_module.Paths.{FilePath, display_path, strip_path}
use nixos_router_module.Text.{Text, decimal, replace, replace_byte, text}

pub record MenuEntryFactory : Type 0 where
  pub gateway : IpAddr
  pub http_port : ℕ

-- `{gateway}:{port}`
unfoldable pub authority : MenuEntryFactory → Text
authority f = display_ip f.gateway ++ (text ":" ++ decimal f.http_port)

abbrev pub iso_mount : MenuEntryFactory → Text → Text
iso_mount f name =
    text "(http,"
    ++ (authority f ++ (text ")" ++ (text "/iso-mountpoint/" ++ url_encode_segment name)))

abbrev pub iso_url : MenuEntryFactory → Text → Text
iso_url f name = text "http://" ++ (authority f ++ (text "/isos/" ++ url_encode_segment name))

abbrev pub mounted_url : MenuEntryFactory → Text → Text
mounted_url f name =
    text "http://" ++ (authority f ++ (text "/iso-mountpoint/" ++ url_encode_segment name))

abbrev pub autoinstall_url : MenuEntryFactory → Text → Text → Text
autoinstall_url f name script =
    text "http://"
    ++ (authority f
        ++ (text "/unattented-install/"
            ++ (url_encode_segment name ++ (text "/" ++ url_encode_segment script))))

abbrev pub autoinstall_dir_url : MenuEntryFactory → Text → Text → Text
autoinstall_dir_url f name script = autoinstall_url f name script ++ text "/"

-- `path_to_url`
pub path_to_url : FilePath → Text
path_to_url path = replace_byte (display_path path) b'\\' (text "/")

abbrev pub entry_title : Text → Option AutoinstallScript → Text
entry_title name none = name
entry_title name (some script) = name ++ (text " (" ++ (script.name ++ text ")"))

-- The two replacements in one parameter.
unfoldable pub fill_placeholders : MenuEntryFactory → Text → AutoinstallScript → Text → Text
fill_placeholders f name script param =
    replace (replace param autoinstall_dir_url_placeholder (autoinstall_dir_url f name script.name))
      autoinstall_url_placeholder (autoinstall_url f name script.name)

unfoldable pub filled_params :
    MenuEntryFactory → Text → Option AutoinstallScript → List Text → List Text
unfolding fill_placeholders
filled_params f name none params = params
filled_params f name (some script) params = map (fill_placeholders f name script) params

-- `strip_prefix` with its error converted
abbrev pub or_generation_error : Text → Option FilePath → Result FilePath
or_generation_error message none = err (grub_generation message)
or_generation_error message (some q) = ok q

module _ {S : Type 0} where
  unfoldable pub create_entry :
      MenuEntryFactory
      → IsoInfo
      → BootInfo
      → DistroDetector S
      → Option AutoinstallScript
      → ℕ
      → Result MenuEntry
  unfolding filled_params path_to_url
  create_entry f iso boot detector autoinstall position = do
    kernel_rel ←
        or_generation_error (text "Invalid kernel path")
          (strip_path boot.kernel_path iso.mount_path)
    initrd_rel ←
        or_generation_error (text "Invalid initrd path")
          (strip_path boot.initrd_path iso.mount_path)
    ok (record {
      title = entry_title iso.file_name autoinstall;
      kernel_url = iso_mount f iso.file_name ++ (text "/" ++ path_to_url kernel_rel);
      kernel_params = filled_params f iso.file_name autoinstall (
          detector.generate_boot_params (iso_url f iso.file_name) (mounted_url f iso.file_name) boot
            autoinstall);
      initrd_url = iso_mount f iso.file_name ++ (text "/" ++ path_to_url initrd_rel);
      position = position;
      architecture = boot.architecture;
    })
