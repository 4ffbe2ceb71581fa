-- ===== src/Autoinstall/Concurrent/Invariant.antt =====
-- autoinstall/manager.rs: what holds of each seed whatever the order in which the tasks run.
use nixos_router_module.Base.{
  Bool, Bool-cases, List, [], arith, false, inl, inr, nat_beq_iff, nat_eq, refl, true, ℕ, ◌++◌,
  ◌==◌, ◌∙◌, ◌∷◌, ◌≡◌, ◌≢◌,
}
use nixos_router_module.Autoinstall.Concurrent.{
  Progress, SeedStep, copy_file, failed_with, left, no_more, perform_seed, proceed, resume_seed,
  write_file,
}
use nixos_router_module.Autoinstall.Concurrent.Steps.{
  OnPaths, changes, no_more-eq, perform_seed-keeps, resume-OnPaths,
}
use nixos_router_module.Autoinstall.Concurrent.Targets.{Puts, Target, Target-other, Target-own}
use nixos_router_module.Autoinstall.Installed.Apart.{
  IsOutside, IsPlaced, Untouched, dest-Untouched, dest_of, file-Untouched, key, meta_of,
  outside-Untouched, user_of,
}
use nixos_router_module.Autoinstall.Installed.Tasks.{SeedTask}
use nixos_router_module.Autoinstall.Seeds.{CopiesFiles, meta-IsName, user-IsName}
use nixos_router_module.Errors.{IoResult, Result, err, io, is_ok, map_err, ok}
use nixos_router_module.Os.{Os}
use nixos_router_module.Paths.{FilePath}
use nixos_router_module.Service.Written.{StoresFiles}
use nixos_router_module.Text.{Text}

pub proceed-elim {ℓ} :
    (P : Progress → Type ℓ) (progress : ℕ → Progress) (k : ℕ) (p : Progress) (j : ℕ)
    → (j ≡ k → P p)
    → (j ≢ k → P (progress j))
    → P (proceed progress k p j)
proceed-elim P progress k p j h g = elim (Bool-cases (j == k)) [
  | inl same ↦ rw same (h ((nat_beq_iff j k).0 same))
  | inr other ↦ rw other (g (λ e. ground (arith, (nat_beq_iff j k).1 e)))
]

went_well :
    (r : IoResult (Unit {0})) (more : List SeedStep)
    → no_more (map_err io r) ≡ ok more
    → is_ok r ≡ true
went_well (ok a) more h = refl
went_well (err e) more h = cc

module _ (os : Os) (copies : CopiesFiles os) (stores : StoresFiles os) (root : FilePath)
    (before : os.State) where
  copy_file-Puts :
      (src q : FilePath) (v : IoResult Text) (s : os.State)
      → os.read_to_string s src ≡ v
      → Puts os copies stores (copy_file src q) q v s
  unfolding perform_seed
  copy_file-Puts src q v s h more e =
      (no_more-eq _ more e, copies.read_copied src q s (went_well _ more e) ∙ h)

  write_file-Puts :
      (q : FilePath) (contents : Text) (s : os.State)
      → Puts os copies stores (write_file q contents) q (ok contents) s
  unfolding perform_seed
  write_file-Puts q contents s more e =
      (no_more-eq _ more e, stores.read_written q contents s (went_well _ more e))

  -- The contents that the source of a seed had before.
  abbrev source : SeedTask → IoResult Text
  source y = os.read_to_string before y.script.script_path

  -- The files of a seed, by whether the image is an Ubuntu image.
  abbrev pub Targets : SeedTask → Bool → List SeedStep → os.State → Type 0
  Targets y false xs s =
      Target os copies stores (copy_file y.script.script_path (dest_of root y)) (dest_of root y)
        (source y) xs s
  Targets y true xs s =
      Target os copies stores (copy_file y.script.script_path (user_of root y)) (user_of root y)
        (source y) xs s
      × Target os copies stores (write_file (meta_of root y) []) (meta_of root y) (ok []) xs s

  -- A path that only the task itself may change.
  abbrev pub OwnPlace : SeedTask → FilePath → Type 0
  OwnPlace y p = (q : FilePath) → Untouched root y q → p ≢ q

  -- The source is as before; the steps that are left change places of the seed alone, and will put,
  -- or have put, its files there.
  abbrev pub SeedInv : SeedTask → os.State → Progress → Type 0
  SeedInv y s (failed_with e) = os.read_to_string s y.script.script_path ≡ source y
  SeedInv y s (left xs) =
      (os.read_to_string s y.script.script_path ≡ source y)
      × OnPaths (OwnPlace y) xs
      × Targets y y.is_ubuntu xs s

  Targets-own :
      (y : SeedTask) (is_ubuntu : Bool) (x : SeedStep) (rest more : List SeedStep) (s : os.State)
      → os.read_to_string s y.script.script_path ≡ source y
      → (perform_seed os x s).0 ≡ ok more
      → Targets y is_ubuntu (x ∷ rest) s
      → Targets y is_ubuntu (more ++ rest) (perform_seed os x s).1
  Targets-own y false x rest more s same e h =
      Target-own os copies stores _ _ _ x rest more s (copy_file-Puts _ _ _ s same) e h
  Targets-own y true x rest more s same e (h, g) = (
    Target-own os copies stores _ _ _ x rest more s (copy_file-Puts _ _ _ s same) e h,
    Target-own os copies stores _ _ _ x rest more s (write_file-Puts _ _ s) e g,
  )

  -- A step of the task itself.
  pub SeedInv-own :
      (y : SeedTask) (x : SeedStep) (rest : List SeedStep) (s : os.State)
      → IsPlaced y
      → IsOutside root y
      → SeedInv y s (left (x ∷ rest))
      → SeedInv y (perform_seed os x s).1 (resume_seed rest (perform_seed os x s).0)
  SeedInv-own y x rest s placed out (same, (own, others), targets) = go (perform_seed os x s).0 refl
    where
      kept : os.read_to_string (perform_seed os x s).1 y.script.script_path ≡ source y
      kept =
          perform_seed-keeps os copies stores x y.script.script_path s
            (own y.script.script_path (outside-Untouched root y y.script.script_path placed out))
          ∙ same

      go :
          (r : Result (List SeedStep))
          → (perform_seed os x s).0 ≡ r
          → SeedInv y (perform_seed os x s).1 (resume_seed rest r)
      go (err e) k = kept
      go (ok more) k = (
        kept,
        resume-OnPaths (OwnPlace y) os x rest s more (own, others) k,
        Targets-own y y.is_ubuntu x rest more s same k targets,
      )

  Targets-other :
      (y z : SeedTask) (is_ubuntu : Bool) (x : SeedStep) (xs : List SeedStep) (s : os.State)
      → IsPlaced y
      → IsPlaced z
      → key y ≢ key z
      → OwnPlace z (changes x)
      → Targets y is_ubuntu xs s
      → Targets y is_ubuntu xs (perform_seed os x s).1
  Targets-other y z false x xs s i j ne own h =
      Target-other os copies stores _ _ _ x xs s (own _ (dest-Untouched root z y j i ne)) h
  Targets-other y z true x xs s i j ne own (h, g) = (
    Target-other os copies stores _ _ _ x xs s
        (own _ (file-Untouched root z y _ j i user-IsName ne)) h,
    Target-other os copies stores _ _ _ x xs s
        (own _ (file-Untouched root z y _ j i meta-IsName ne)) g,
  )

  -- A step of another task.
  pub SeedInv-other :
      (y z : SeedTask) (x : SeedStep) (p : Progress) (s : os.State)
      → IsPlaced y
      → IsPlaced z
      → IsOutside root y
      → key y ≢ key z
      → OwnPlace z (changes x)
      → SeedInv y s p
      → SeedInv y (perform_seed os x s).1 p
  SeedInv-other y z x p s i j out ne own = go p
    where
      kept :
          os.read_to_string (perform_seed os x s).1 y.script.script_path
          ≡ os.read_to_string s y.script.script_path
      kept =
          perform_seed-keeps os copies stores x y.script.script_path s
            (own y.script.script_path (outside-Untouched root z y.script.script_path j out))

      go : (p : Progress) → SeedInv y s p → SeedInv y (perform_seed os x s).1 p
      go (failed_with e) h = kept ∙ h
      go (left xs) (h, paths, targets) =
          (kept ∙ h, paths, Targets-other y z y.is_ubuntu x xs s i j ne own targets)
