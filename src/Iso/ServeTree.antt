-- ===== src/Iso/ServeTree.antt =====
-- iso/serve_tree.rs: the directory of links from which images are served. The links, which the
-- source makes concurrently, are made one after the other.
use nixos_router_module.Base.{List, [], if◌then◌else◌, none, some, ◌∷◌}
use nixos_router_module.Actions.{Action, attempt, ◌>>◌}
use nixos_router_module.Errors.{Result, first_error, io_path, ok}
use nixos_router_module.Os.{Os}
use nixos_router_module.Paths.{FilePath, file_name, join_text_path}
use nixos_router_module.Text.{Text, text}

abbrev pub drop_last : FilePath → FilePath
drop_last [] = []
drop_last (c ∷ []) = []
drop_last (c ∷ d ∷ p) = c ∷ drop_last (d ∷ p)

-- `Path::with_file_name`
unfoldable pub with_file_name : FilePath → Text → FilePath
with_file_name path name = elim (file_name path) [
  | none ↦ join_text_path path name
  | some old ↦ join_text_path (drop_last path) name
]

abbrev pub isos_dir : FilePath → FilePath
isos_dir runtime_root = join_text_path runtime_root (text "isos")

abbrev pub tmp_dir_of : FilePath → FilePath
tmp_dir_of runtime_root = with_file_name (isos_dir runtime_root) (text "isos.new")

module _ (os : Os) where
  -- One link for each image that has a file name, with the results.
  unfoldable pub link_all :
      FilePath → List FilePath → os.State → List (Result (Unit {0})) × os.State
  link_all tmp_dir [] s = ([], s)
  link_all tmp_dir (iso_path ∷ rest) s = elim (file_name iso_path) [
    | none ↦ link_all tmp_dir rest s
    | some name ↦
        let (r, t) =
          attempt (io_path (join_text_path tmp_dir name))
            (os.symlink iso_path (join_text_path tmp_dir name)) s in
        let (later, u) = link_all tmp_dir rest t in (r ∷ later, u)
  ]

  -- `if dir.exists() { remove_dir_all(dir) }`
  unfoldable pub remove_dir_if_exists : FilePath → Action os.State (Unit {0})
  remove_dir_if_exists dir s =
      if os.exists s dir then attempt (io_path dir) (os.remove_dir_all dir) s else (ok tt, s)

  unfoldable pub link_tree : FilePath → List FilePath → Action os.State (Unit {0})
  unfolding link_all
  link_tree tmp_dir iso_paths s =
      let (results, t) = link_all tmp_dir iso_paths s in (first_error results, t)

  -- The new tree is built beside the old one,
  unfoldable pub build_tree : FilePath → List FilePath → Action os.State (Unit {0})
  unfolding remove_dir_if_exists link_tree
  build_tree tmp_dir iso_paths = do
    remove_dir_if_exists tmp_dir
    attempt (io_path tmp_dir) (os.create_dir_all tmp_dir)
    link_tree tmp_dir iso_paths

  -- and then the old one is removed, and the new one renamed.
  unfoldable pub swap_tree : FilePath → FilePath → Action os.State (Unit {0})
  unfolding remove_dir_if_exists
  swap_tree tmp_dir dir = do remove_dir_if_exists dir; attempt (io_path dir) (os.rename tmp_dir dir)

  unfoldable pub rebuild : FilePath → List FilePath → Action os.State (Unit {0})
  unfolding build_tree swap_tree
  rebuild runtime_root iso_paths = do
    build_tree (tmp_dir_of runtime_root) iso_paths
    swap_tree (tmp_dir_of runtime_root) (isos_dir runtime_root)
