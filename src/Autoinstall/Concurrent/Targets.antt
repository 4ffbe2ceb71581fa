-- ===== src/Autoinstall/Concurrent/Targets.antt =====
-- autoinstall/manager.rs: a file that a task will put at its place, or has put there.
use nixos_router_module.Base.{List, [], ap, inl, inr, sym, ◌++◌, ◌∙◌, ◌∷◌, ◌≡◌, ◌≢◌, ◌⊎◌}
use nixos_router_module.Autoinstall.Concurrent.{SeedStep, perform_seed}
use nixos_router_module.Autoinstall.Concurrent.Steps.{
  Spares, changes, perform_seed-keeps, resume-OnPaths,
}
use nixos_router_module.Autoinstall.Seeds.{CopiesFiles}
use nixos_router_module.Errors.{IoResult, ok}
use nixos_router_module.Os.{Os}
use nixos_router_module.Paths.{FilePath}
use nixos_router_module.Service.Written.{StoresFiles}
use nixos_router_module.Text.{Text}

-- The step that puts the file is left, and none behind it changes the place.
abbrev pub Awaits : SeedStep → FilePath → List SeedStep → Type 0
Awaits w q [] = ⊥
Awaits w q (x ∷ rest) = ((x ≡ w) × Spares q rest) ⊎ Awaits w q rest

Awaits-append :
    (w : SeedStep) (q : FilePath) (xs ys : List SeedStep) → Awaits w q ys → Awaits w q (xs ++ ys)
Awaits-append w q [] ys h = h
Awaits-append w q (x ∷ xs) ys h = inr (Awaits-append w q xs ys h)

module _ (os : Os) (copies : CopiesFiles os) (stores : StoresFiles os) where
  -- A step that succeeds leaves the place with its contents and asks for no other step.
  abbrev pub Puts : SeedStep → FilePath → IoResult Text → os.State → Type 0
  Puts w q v s =
      (more : List SeedStep)
      → (perform_seed os w s).0 ≡ ok more
      → (more ≡ []) × (os.read_to_string (perform_seed os w s).1 q ≡ v)

  -- The file is still to come, or it is there and no step that is left changes it.
  abbrev pub Target : SeedStep → FilePath → IoResult Text → List SeedStep → os.State → Type 0
  Target w q v xs s = Awaits w q xs ⊎ (Spares q xs × (os.read_to_string s q ≡ v))

  pub Target-own :
      (w : SeedStep) (q : FilePath) (v : IoResult Text) (x : SeedStep) (rest more : List SeedStep)
      (s : os.State)
      → Puts w q v s
      → (perform_seed os x s).0 ≡ ok more
      → Target w q v (x ∷ rest) s
      → Target w q v (more ++ rest) (perform_seed os x s).1
  Target-own w q v x rest more s puts e (inl (inl (same, spared))) =
      let (a, b) = puts more (ap (λ z. (perform_seed os z s).0) (sym same) ∙ e) in
      rw (a, same) (inr (spared, b))
  Target-own w q v x rest more s puts e (inl (inr later)) = inl (Awaits-append w q more rest later)
  Target-own w q v x rest more s puts e (inr ((ne, spared), there)) = inr (
    resume-OnPaths (λ p. p ≢ q) os x rest s more (ne, spared) e,
    perform_seed-keeps os copies stores x q s ne ∙ there,
  )

  pub Target-other :
      (w : SeedStep) (q : FilePath) (v : IoResult Text) (x : SeedStep) (xs : List SeedStep)
      (s : os.State)
      → changes x ≢ q
      → Target w q v xs s
      → Target w q v xs (perform_seed os x s).1
  Target-other w q v x xs s ne (inl later) = inl later
  Target-other w q v x xs s ne (inr (spared, there)) =
      inr (spared, perform_seed-keeps os copies stores x q s ne ∙ there)
