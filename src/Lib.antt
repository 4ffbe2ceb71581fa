-- ===== src/Lib.antt =====
-- pxe-boot-prepare (packages/pxe-boot-prepare): the program of a NixOS router that prepares network
-- boot from ISO images. It reads a configuration, finds and mounts the images, detects which
-- distribution each holds, and writes a GRUB menu for every DHCP interface; `status` reports on the
-- same images without a menu.
--
-- The parts, with their files under packages/pxe-boot-prepare/src:
--   Config, Config.Validation     config/schema.rs, config/validation.rs
--   Errors                        error.rs
--   Distro.Detector, Distro.Arch  distro/detector.rs, distro/arch.rs
--   Distro.NixOs, Ubuntu, Rhel, Unknown
--                                 distro/nixos.rs, ubuntu.rs, rhel.rs, unknown.rs; Distro.Unknown has
--                                 `DetectorRegistry::new` too
--   Iso.FindFile                  iso/info.rs
--   Iso.Discovery                 iso/discovery.rs
--   Iso.Mount, Iso.Mounter        iso/mount.rs
--   Iso.ServeTree                 iso/serve_tree.rs
--   Autoinstall                   autoinstall/manager.rs; Installed.Tasks has its tasks as one list,
--                                 Concurrent the `join_all` over them as a step relation
--   Grub.Entry, Grub.Entry.Encode grub/entry.rs
--   Grub.Menu                     grub/menu.rs
--   Service                       lib.rs: Defaults has `resolve_default_position`, Warnings the checks
--                                 of the defaults, Entries the loop of `generate_grub_menu`, Render
--                                 and Menu `write_grub_cfg` and the rest of `generate_grub_menu`,
--                                 Detection the third step of `prepare`, Prepare `prepare`, its lock,
--                                 `cleanup` and `list_isos`, Status `status`; Tasks has the menu of
--                                 an interface as steps, Interleaving the `join_all` over those tasks
--                                 as a step relation; Collaborators has the
--                                 traits behind which the other components stand, and New
--                                 `PxeBootService::new`, which puts the program's own there
--   Cli                           main.rs
-- Base, Text and Paths are shared: native numbers, lists and Boolean tests, Rust's `str` as bytes,
-- and Rust's `Path` as components. Os is the interface to the operating system, and Actions passes
-- its state along. Names are those of the source; a `&mut` builder is a record that is returned,
-- and `Result` is Errors.Result. The other modules hold proofs, Machine is a machine in memory, and
-- the modules under Examples apply the theorems to runs on it; Tables is what Machine is made of.
--
-- How the parts interact: the service mounts each image, asks the registry for the first detector
-- that accepts it, and takes the boot information of that detector. For every interface it makes an
-- entry for each image and for each of its scripts, with positions that the default of the
-- interface or of a reservation is resolved to, and hands the entries to the menu builder. `status`
-- goes through the same steps up to the boot information.
--
-- Parameters: the operating system (Os) with its file system, locks and mount commands, the template
-- engine (Grub.Menu.Handlebars), and the parsers of boot.json (Distro.NixOs.ParseBootSpec) and of the
-- configuration (Cli.ParseConfig). The service takes its collaborators as a record, as
-- `new_with_dependencies` does. What is assumed of the system is in WalksBelow of Distro.BootPaths,
-- that a walk of a directory stays below it, in WalksInside of Distro.BootPaths.Inside, that it also
-- never leads back up, in LocksFiles of Service.Lock, how advisory locks behave, in StoresFiles of
-- Service.Written and CopiesFiles of Autoinstall.Seeds, how files are kept, in LinksFiles of
-- Iso.Links, how links are kept, and in KernelMounts of Iso.MountTable, how the kernel lists its
-- mounts in /proc/mounts. Machine satisfies all of them but the last, which Machine.Loop
-- satisfies, a machine with one loop device. UnmountsFiles of Iso.Unmounted says what an unmount
-- undoes, which Machine.Busy satisfies, a machine with a busy mount; FailsLinks of Iso.Links.Failed
-- what failing actions do to links, which Machine.Unrenaming satisfies, a machine on which no path is
-- renamed; ReleaseKeepsFiles of Service.Finished that giving back a lock changes no file; and
-- RendersRaw of Grub.Rendered what the template engine does with the one template of the program.
--
-- Bounds: every loop of the program is over a list and is structural recursion. The one fuel is
-- that of `digits_from` in Text, the number itself and one more, which is more than its digits.
-- Ports, priorities, identifiers and positions are natural numbers; the program adds only to
-- positions, by one, and no menu has more entries than memory holds.
--
-- Concurrency: the menus and the seeds have step relations in which the tasks take turns at the calls
-- that they await, each call whole. In the run of the whole program they are written one after the
-- other, as the links are in Iso.ServeTree, in an order that is chosen.
--
-- Not modelled: log lines; file names that are not UTF-8; the lowering of letters outside ASCII; what
-- another task sees of a call that is not finished; the parsing of arguments and of JSON. The Nix modules and their tests are not Rust.
pub mod Base
pub mod Text
pub mod Paths
pub mod Errors
pub mod Config
pub mod Os
pub mod Actions
pub mod Iso
pub mod Distro
pub mod Grub
pub mod Autoinstall
pub mod Service
pub mod Cli
pub mod Tables
pub mod Machine
pub mod Examples
