-- ===== src/Machine.antt =====
-- A machine in memory, on which the examples run the program: its files and one lock.
pub mod Busy
pub mod Links
pub mod Loop
pub mod Unrenaming
use nixos_router_module.Base.{
  ==-refl, All, All-imply, Bool, Bool-cases, List, Option-cases, [], any, ap, ap₂, arith, false,
  if◌then◌else◌, inl, inr, list_beq_iff, list_eq, nat_eq, none, not, refl, some, sym, true, ◌++◌,
  ◌==◌, ◌||◌, ◌∙◌, ◌∷◌, ◌≡◌, ◌≢◌,
}
use nixos_router_module.Autoinstall.Seeds.{CopiesFiles}
use nixos_router_module.Distro.BootPaths.{EntryHas, EntryIsBelow, WalksBelow}
use nixos_router_module.Distro.BootPaths.Inside.{IsInside, WalksInside, stays_down}
use nixos_router_module.Errors.{IoResult, err, is_ok, not_found, ok, other}
use nixos_router_module.Os.{CommandOutput, Os}
use nixos_router_module.Paths.{FilePath, component_eq, component_eq, strip_path}
use nixos_router_module.Paths.Below.{IsBelow, IsBelow-trans, strip_path-of_IsBelow}
use nixos_router_module.Paths.Laws.{strip_path_sound}
use nixos_router_module.Service.Lock.{LocksFiles}
use nixos_router_module.Service.Written.{StoresFiles}
use nixos_router_module.Tables.{holds_below, outside, removed, renamed}
use nixos_router_module.Text.{Text, text}

pub record Machine : Type 0 where
  pub files : List (FilePath × Text)
  pub links : List (FilePath × FilePath)
  pub locked : Bool

unfoldable pub find_contents : FilePath → List (FilePath × Text) → IoResult Text
find_contents p [] = err (record { kind = not_found; message = text "not found" })
find_contents p ((q, contents) ∷ rest) =
    let later = find_contents p rest in if q == p then ok contents else later

-- The files below a directory, as a walk finds them: the table has no other names for them.
unfoldable pub files_below : FilePath → List (FilePath × Text) → List (IoResult FilePath)
unfolding strip_path
files_below base [] = []
files_below base ((p, contents) ∷ rest) =
    let later = files_below base rest in
    elim (strip_path p base) [
      | none ↦ later
      | some q ↦ if stays_down q then ok (base ++ q) ∷ later else later
    ]

pub files_below-IsInside :
    (base : FilePath) (files : List (FilePath × Text))
    → All (EntryHas (IsInside base)) (files_below base files)
unfolding files_below
files_below-IsInside base [] = tt
files_below-IsInside base ((p, contents) ∷ rest) = elim (Option-cases (strip_path p base)) [
  | inl h ↦ rw (h, files_below) (files_below-IsInside base rest)
  | inr (q, h) ↦ elim (Bool-cases (stays_down q)) [
    | inl down ↦ rw (h, files_below, down) ((q, refl, down), files_below-IsInside base rest)
    | inr up ↦ rw (h, files_below, up) (files_below-IsInside base rest)
  ]
]

files_below-EntryIsBelow :
    (base : FilePath) (files : List (FilePath × Text))
    → All (EntryIsBelow base) (files_below base files)
files_below-EntryIsBelow base files =
    All-imply (EntryHas (IsInside base)) (EntryIsBelow base) (files_below base files) below
      (files_below-IsInside base files)
  where
    below : (e : IoResult FilePath) → EntryHas (IsInside base) e → EntryIsBelow base e
    below (ok p) (q, h, down) = (q, h)
    below (err e) h = tt

unfoldable pub copied : FilePath → IoResult Text → Machine → IoResult (Unit {0}) × Machine
copied dest (err e) m = (err e, m)
copied dest (ok contents) m = (ok tt, record m { files = (dest, contents) ∷ m.files })

-- Whether there is something at a path.
abbrev pub present : FilePath → Machine → Bool
present p m = holds_below p m.files || holds_below p m.links

-- A directory takes no place that is taken.
unfoldable pub moved : FilePath → FilePath → Bool → Machine → IoResult (Unit {0}) × Machine
moved old new true m = (err (record { kind = other; message = text "Directory not empty" }), m)
moved old new false m =
    (ok tt, record m { files = renamed old new m.files; links = renamed old new m.links })

abbrev pub command_done : CommandOutput
command_done = record { success = true; status = text "exit status: 0"; stderr = [] }

abbrev pub machine : Os
machine = record {
  State = Machine;
  exists = λ m p. present p m;
  is_file = λ m p. any (λ f. f.0 == p) m.files;
  read_to_string = λ m p. find_contents p m.files;
  walk = λ m base depth. files_below base m.files;
  create_dir_all = λ p m. (ok tt, m);
  write = λ p contents m. (ok tt, record m { files = (p, contents) ∷ m.files });
  open_truncated = λ p m. (ok tt, record m { files = (p, []) ∷ m.files });
  try_lock = λ p m. (not m.locked, record m { locked = true });
  release = λ p m. record m { locked = false };
  is_dir = λ m p. ok (not (any (λ f. f.0 == p) m.files));
  canonicalize = λ m p. ok p;
  read_dir = λ m p. ok (files_below p m.files);
  remove_file = λ p m. (ok tt, record m { files = removed p m.files; links = removed p m.links });
  remove_dir_all =
      λ p m. (ok tt, record m { files = outside p m.files; links = outside p m.links });
  copy = λ src dest m. copied dest (find_contents src m.files) m;
  rename = λ old new m. moved old new (present new m) m;
  symlink = λ target p m. (ok tt, record m { links = (p, target) ∷ m.links });
  mountpoint = λ m p. ok false;
  mount = λ p mount_point m. (ok command_done, m);
  umount = λ p m. (ok command_done, m);
}

pub machine-WalksInside : WalksInside machine
machine-WalksInside = record { walk_inside = λ m base depth. files_below-IsInside base m.files }

pub machine-WalksBelow : WalksBelow machine
machine-WalksBelow = record { walk_below = λ m base depth. files_below-EntryIsBelow base m.files }

-- A lock that is free is not refused.
pub not_refused : (held : Bool) → held ≡ false → not held ≡ false → true ≡ false
not_refused held h k = cc (ap not h, k)

abbrev pub machine_locks : (path : FilePath) → LocksFiles machine path
machine_locks path = record {
  taken = λ m. m.locked;
  open_keeps = λ m. refl;
  try_of_taken = λ m h. (ap not h, refl);
  try_refused = λ m h k. not_refused m.locked h k;
  release_frees = λ m. refl;
}

pub beq_of_ne : (p q : FilePath) → p ≢ q → (p == q) ≡ false
beq_of_ne p q h = ground (arith, list_beq_iff p q)

pub machine-StoresFiles : StoresFiles machine
unfolding find_contents
machine-StoresFiles = record {
  read_written = λ p contents m h. rw (==-refl p) refl;
  write_keeps = λ p q contents m h. rw (beq_of_ne p q h) refl;
}

copied_reads :
    (dest : FilePath) (r : IoResult Text) (m : Machine)
    → is_ok (copied dest r m).0 ≡ true
    → find_contents dest (copied dest r m).1.files ≡ r
unfolding copied find_contents
copied_reads dest (ok contents) m h = rw (==-refl dest) refl
copied_reads dest (err e) m h = cc

copied_keeps :
    (dest q : FilePath) (r : IoResult Text) (m : Machine)
    → dest ≢ q
    → find_contents q (copied dest r m).1.files ≡ find_contents q m.files
unfolding copied find_contents
copied_keeps dest q (ok contents) m h = rw (beq_of_ne dest q h) refl
copied_keeps dest q (err e) m h = refl

removed_keeps :
    (p q : FilePath) (files : List (FilePath × Text))
    → p ≢ q
    → find_contents q (removed p files) ≡ find_contents q files
unfolding removed find_contents
removed_keeps p q [] h = refl
removed_keeps p q ((f, contents) ∷ rest) h = elim (Bool-cases (f == p)) [
  | inl hit ↦
      rw (hit, beq_of_ne f q (λ same. h (sym ((list_beq_iff f p).0 hit) ∙ same)))
        (removed_keeps p q rest h)
  | inr miss ↦ rw miss (ap (λ r. if f == q then ok contents else r) (removed_keeps p q rest h))
]

pub machine-CopiesFiles : CopiesFiles machine
machine-CopiesFiles = record {
  read_copied = λ src dest m h. copied_reads dest (find_contents src m.files) m h;
  copy_keeps = λ src dest q m h. copied_keeps dest q (find_contents src m.files) m h;
  remove_keeps = λ p q m h. removed_keeps p q m.files h;
  create_keeps = λ p q m. refl;
}
