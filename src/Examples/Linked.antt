-- ===== src/Examples/Linked.antt =====
-- iso/serve_tree.rs: a tree with a stale link is rebuilt on the machine.
use nixos_router_module.Base.{
  All, List, [], ap, false, flat_map, none, refl, true, ◌++◌, ◌∷◌, ◌≡◌, ◌⊎◌,
}
use nixos_router_module.Errors.{PxeBootError, Result, err, first_error, io_path, is_ok, other}
use nixos_router_module.Examples.Data.{iso-IsName, iso_name, settings, with_state}
use nixos_router_module.Iso.Discovery.{discover_isos, extension, found_in, insert_path, name_of}
use nixos_router_module.Iso.FirstMatch.{at_name}
use nixos_router_module.Iso.Links.{IsNamed, head_of}
use nixos_router_module.Iso.Links.AnyOrder.{rebuild-Perm}
use nixos_router_module.Iso.Links.Failed.{rebuild-failed}
use nixos_router_module.Machine.Unrenaming.{unrenaming, unrenaming_fails, unrenaming_links}
use nixos_router_module.Paths.Names.{IsName-of_is_name}
use mathlib.Core.List.{Perm}
use mathlib.Core.List.Perm
use nixos_router_module.Iso.ServeTree.{
  build_tree, isos_dir, rebuild, swap_tree, tmp_dir_of, with_file_name,
}
use nixos_router_module.Machine.{Machine, files_below, machine, moved}
use nixos_router_module.Machine.Links.{machine_links}
use nixos_router_module.Paths.{FilePath, file_name, normal, root_dir, join_text_path}
use nixos_router_module.Tables.{find_entry, lies_below, outside}
use nixos_router_module.Text.{Text, text, to_lowercase}

abbrev folder : Text → FilePath
folder name = root_dir ∷ normal name ∷ []

-- Two folders with an image of one name and one of another, and a link from an earlier run.
abbrev before : Machine
before = record {
  files =
      (folder (text "more") ++ normal iso_name ∷ [], [])
      ∷ (folder (text "more") ++ normal (text "zfs.iso") ∷ [], [])
      ∷ (folder (text "pool") ++ normal iso_name ∷ [], [])
      ∷ [];
  links = (isos_dir settings.runtime_root ++ normal (text "gone.iso") ∷ [], []) ∷ [];
  locked = false;
}

abbrev folders : List FilePath
folders = folder (text "pool") ∷ folder (text "more") ∷ []

-- The links are made in the other order.
abbrev order : List FilePath
order =
    (folder (text "pool") ++ normal iso_name ∷ [])
    ∷ (folder (text "more") ++ normal (text "zfs.iso") ∷ [])
    ∷ []

abbrev after : Machine
after = (rebuild machine settings.runtime_root order before).1

all-IsNamed : All IsNamed order
unfolding file_name
all-IsNamed = ((iso_name, iso-IsName, refl), ((text "zfs.iso", IsName-of_is_name _ refl, refl), tt))

reordered : Perm (discover_isos machine before folders) order
unfolding discover_isos files_below name_of extension file_name to_lowercase insert_path
reordered =
    Perm.swap (folder (text "pool") ++ normal iso_name ∷ [])
      (folder (text "more") ++ normal (text "zfs.iso") ∷ []) []

rebuilt : is_ok (rebuild machine settings.runtime_root order before).0 ≡ true
unfolding rebuild with_file_name swap_tree join_text_path moved lies_below first_error outside
    file_name
rebuilt = refl

rebuild-Perm_example :
    find_entry (isos_dir settings.runtime_root ++ normal iso_name ∷ []) after.links
    ≡ head_of (at_name iso_name (flat_map (found_in machine before) folders))
rebuild-Perm_example =
    rebuild-Perm machine machine_links settings.runtime_root folders order before after iso_name
      reordered all-IsNamed
      (with_state (rebuild machine settings.runtime_root order before) rebuilt)

abbrev unchanged : Result (Unit {0}) × Machine
unchanged = rebuild unrenaming settings.runtime_root order before

abbrev refusal : PxeBootError
refusal =
    io_path (isos_dir settings.runtime_root) (record { kind = other; message = text "Read-only" })

-- The old tree is removed, and the new one cannot take its place.
not_renamed : unchanged.0 ≡ err refusal
unfolding rebuild with_file_name swap_tree join_text_path lies_below first_error outside file_name
not_renamed = refl

rebuild-failed_example :
    (find_entry (isos_dir settings.runtime_root ++ normal (text "gone.iso") ∷ []) unchanged.1.links
      ≡ find_entry (isos_dir settings.runtime_root ++ normal (text "gone.iso") ∷ []) before.links)
    ⊎ ((is_ok (build_tree unrenaming (tmp_dir_of settings.runtime_root) order before).0 ≡ true)
        × (find_entry
              (isos_dir settings.runtime_root ++ normal (text "gone.iso") ∷ [])
              unchanged.1.links
            ≡ none))
rebuild-failed_example =
    rebuild-failed unrenaming unrenaming_links unrenaming_fails settings.runtime_root
      (text "gone.iso") order before unchanged.1 refusal all-IsNamed
      (ap (λ r. (r, unchanged.1)) not_renamed)
