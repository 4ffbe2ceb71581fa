-- ===== src/Os.antt =====
-- What the program takes from the operating system and does not implement: queries on a state of
-- the machine, and actions that return a result with the next state. An action may fail.
use nixos_router_module.Base.{Bool, List, Option, ℕ}
use nixos_router_module.Errors.{IoResult}
use nixos_router_module.Paths.{FilePath}
use nixos_router_module.Text.{Text}

-- How a command that ran has ended.
pub record CommandOutput : Type 0 where
  pub success : Bool
  -- the `Display` of the exit status
  pub status : Text
  pub stderr : Text

pub record Os : Type 1 where
  pub State : Type 0
  pub exists : State → FilePath → Bool
  pub is_file : State → FilePath → Bool
  pub read_to_string : State → FilePath → IoResult Text
  -- the entries below a directory, itself first, in the order of `WalkDir`, up to a depth
  pub walk : State → FilePath → Option ℕ → List (IoResult FilePath)
  pub create_dir_all : FilePath → State → IoResult (Unit {0}) × State
  pub write : FilePath → Text → State → IoResult (Unit {0}) × State
  -- opens a file for writing, and creates it or makes it empty
  pub open_truncated : FilePath → State → IoResult (Unit {0}) × State
  -- whether the exclusive lock of an open file could be taken without waiting
  pub try_lock : FilePath → State → Bool × State
  -- drops the handle that holds the lock, and so the lock
  pub release : FilePath → State → State
  -- whether a path is a directory, with links followed
  pub is_dir : State → FilePath → IoResult Bool
  pub canonicalize : State → FilePath → IoResult FilePath
  -- the entries of a directory
  pub read_dir : State → FilePath → IoResult (List (IoResult FilePath))
  pub remove_file : FilePath → State → IoResult (Unit {0}) × State
  pub remove_dir_all : FilePath → State → IoResult (Unit {0}) × State
  -- from the first path to the second
  pub copy : FilePath → FilePath → State → IoResult (Unit {0}) × State
  pub rename : FilePath → FilePath → State → IoResult (Unit {0}) × State
  -- a link to the first path at the second
  pub symlink : FilePath → FilePath → State → IoResult (Unit {0}) × State
  -- `mountpoint -q`, `mount -t iso9660 -o loop,ro` and `umount`
  pub mountpoint : State → FilePath → IoResult Bool
  pub mount : FilePath → FilePath → State → IoResult CommandOutput × State
  pub umount : FilePath → State → IoResult CommandOutput × State
