-- ===== src/Autoinstall/Concurrent/Steps.antt =====
-- autoinstall/manager.rs: the one path that a step of a seed changes.
use nixos_router_module.Base.{
  All, All-append, Bool, List, [], false, refl, subst, sym, true, ◌++◌, ◌∷◌, ◌≡◌, ◌≢◌,
}
use nixos_router_module.Autoinstall.Concurrent.{
  SeedStep, copy_file, create_dir, no_more, perform_seed, remove_old, remove_stale, stale_steps,
  test_dir, write_file,
}
use nixos_router_module.Autoinstall.Seeds.{CopiesFiles}
use nixos_router_module.Errors.{IoResult, Result, err, ok}
use nixos_router_module.Os.{Os}
use nixos_router_module.Paths.{FilePath}
use nixos_router_module.Service.Written.{StoresFiles}

abbrev pub changes : SeedStep → FilePath
changes (test_dir dir) = dir
changes (remove_stale dir) = dir
changes (create_dir dir) = dir
changes (remove_old path) = path
changes (copy_file src dest) = dest
changes (write_file dest contents) = dest

-- None of the steps changes a path.
abbrev pub Spares : FilePath → List SeedStep → Type 0
Spares q xs = All (λ x. changes x ≢ q) xs

module _ (os : Os) (copies : CopiesFiles os) (stores : StoresFiles os) where
  -- What a step does not change is read as before.
  pub perform_seed-keeps :
      (x : SeedStep) (q : FilePath) (s : os.State)
      → changes x ≢ q
      → os.read_to_string (perform_seed os x s).1 q ≡ os.read_to_string s q
  unfolding perform_seed
  perform_seed-keeps (test_dir dir) q s h = refl
  perform_seed-keeps (remove_stale dir) q s h = copies.remove_keeps dir q s h
  perform_seed-keeps (create_dir dir) q s h = copies.create_keeps dir q s
  perform_seed-keeps (remove_old path) q s h = copies.remove_keeps path q s h
  perform_seed-keeps (copy_file src dest) q s h = copies.copy_keeps src dest q s h
  perform_seed-keeps (write_file dest contents) q s h = stores.write_keeps dest q contents s h

ok-injective : {a b : List SeedStep} → (r : Result (List SeedStep)) → r ≡ ok a → r ≡ ok b → a ≡ b
ok-injective r e f = cc

-- An operation without a value asks for no further step.
pub no_more-eq : (r : Result (Unit {0})) (more : List SeedStep) → no_more r ≡ ok more → more ≡ []
no_more-eq (ok a) more h = cc
no_more-eq (err e) more h = cc

-- What holds of the path of a step holds of the paths of all steps that come in its place.
module _ (P : FilePath → Type 0) where
  abbrev pub OnPaths : List SeedStep → Type 0
  OnPaths xs = All (λ x. P (changes x)) xs

  stale-OnPaths : (dir : FilePath) (r : IoResult Bool) → P dir → OnPaths (stale_steps dir r)
  stale-OnPaths dir (ok false) h = (h, tt)
  stale-OnPaths dir (ok true) h = tt
  stale-OnPaths dir (err e) h = tt

  no_more-OnPaths :
      (r : Result (Unit {0})) (more : List SeedStep) → no_more r ≡ ok more → OnPaths more
  no_more-OnPaths r more h = subst OnPaths (sym (no_more-eq r more h)) tt

  perform_seed-OnPaths :
      (os : Os) (x : SeedStep) (s : os.State) (more : List SeedStep)
      → P (changes x)
      → (perform_seed os x s).0 ≡ ok more
      → OnPaths more
  unfolding perform_seed
  perform_seed-OnPaths os (test_dir dir) s more h e =
      subst OnPaths (ok-injective _ refl e) (stale-OnPaths dir (os.is_dir s dir) h)
  perform_seed-OnPaths os (remove_stale dir) s more h e = no_more-OnPaths _ more e
  perform_seed-OnPaths os (create_dir dir) s more h e = no_more-OnPaths _ more e
  perform_seed-OnPaths os (remove_old path) s more h e = no_more-OnPaths _ more e
  perform_seed-OnPaths os (copy_file src dest) s more h e = no_more-OnPaths _ more e
  perform_seed-OnPaths os (write_file dest contents) s more h e = no_more-OnPaths _ more e

  pub resume-OnPaths :
      (os : Os) (x : SeedStep) (rest : List SeedStep) (s : os.State) (more : List SeedStep)
      → OnPaths (x ∷ rest)
      → (perform_seed os x s).0 ≡ ok more
      → OnPaths (more ++ rest)
  resume-OnPaths os x rest s more (h, g) e =
      All-append (λ z. P (changes z)) more rest (perform_seed-OnPaths os x s more h e) g
