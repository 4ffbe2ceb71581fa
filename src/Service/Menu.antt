-- ===== src/Service/Menu.antt =====
-- lib.rs: `write_grub_cfg` and `generate_grub_menu`.
use nixos_router_module.Base.{List, Option, [], if◌then◌else◌, none, some, ◌++◌, ◌∷◌}
use nixos_router_module.Actions.{Action, attempt, pure, ◌>>◌}
use nixos_router_module.Config.{DhcpInterface, PxeBootConfig, ReservationOverride}
use nixos_router_module.Errors.{err, grub_write, ok}
use nixos_router_module.Grub.Menu.{Handlebars}
use nixos_router_module.Os.{Os}
use nixos_router_module.Paths.{FilePath, join_text_path}
use nixos_router_module.Service.Defaults.{NamedEntry, effective_iso, effective_script, has_override}
use nixos_router_module.Service.Entries.{Bootable, menu_entries}
use nixos_router_module.Service.Render.{render_grub_cfg}
use nixos_router_module.Text.{Text, decimal, text, to_lowercase}

-- `grub.cfg-override-<mac>`
abbrev pub override_name : Text → Text
override_name mac = text "grub.cfg-override-" ++ to_lowercase mac

abbrev pub root_or : Option FilePath → FilePath → FilePath
root_or none root = root
root_or (some r) root = r

unfoldable pub grub_dir : PxeBootConfig → DhcpInterface → FilePath
grub_dir c i =
    join_text_path (join_text_path (root_or i.tftp_root c.tftp_root) (decimal i.id)) (text "grub")

module _ (os : Os) (hb : Handlebars) (c : PxeBootConfig) where
  unfoldable pub write_grub_cfg :
      FilePath
      → List NamedEntry
      → List (Text × Text)
      → Option Text
      → Option Text
      → Action os.State (Unit {0})
  write_grub_cfg path entries failed default_iso default_script s =
      elim (render_grub_cfg hb entries failed default_iso default_script) [
        | err e ↦ (err e, s)
        | ok grub_cfg ↦ attempt (grub_write path) (os.write path grub_cfg) s
      ]

  -- The loop over the reservations.
  unfoldable pub write_overrides :
      DhcpInterface
      → List NamedEntry
      → List (Text × Text)
      → List ReservationOverride
      → Action os.State (Unit {0})
  unfolding write_grub_cfg
  write_overrides i entries failed [] = pure tt
  write_overrides i entries failed (r ∷ rest) =
      ◌>>◌
        (if has_override r
          then write_grub_cfg (join_text_path (grub_dir c i) (override_name r.mac)) entries failed
              (effective_iso i r) (effective_script i r)
          else pure tt)
        (write_overrides i entries failed rest)

  abbrev pub interface_entries : DhcpInterface → List (Bootable os.State) → List NamedEntry
  interface_entries i infos =
      menu_entries (record { gateway = i.gateway; http_port = c.http.port }) c.autoinstall infos 0

  unfoldable pub generate_grub_menu :
      DhcpInterface → List (Bootable os.State) → List (Text × Text) → Action os.State (Unit {0})
  unfolding write_overrides
  generate_grub_menu i infos failed =
      let entries = interface_entries i infos in
      do
        attempt (grub_write (grub_dir c i)) (os.create_dir_all (grub_dir c i))
        write_grub_cfg (join_text_path (grub_dir c i) (text "grub.cfg")) entries failed
            i.default_iso i.default_script
        write_overrides i entries failed i.reservations
