-- ===== src/Service/Completes.antt =====
-- lib.rs: which errors end a run of `prepare`.
use nixos_router_module.Base.{List, [], refl, ◌∷◌, ◌≡◌}
use nixos_router_module.Errors.{Result, err, ok, ◌>>◌}
use nixos_router_module.Grub.Menu.{Handlebars}
use nixos_router_module.Os.{Os}
use nixos_router_module.Paths.{FilePath}
use nixos_router_module.Service.Collaborators.{PxeBootService}
use nixos_router_module.Actions.{◌>>=◌}
use nixos_router_module.Service.Prepare.{
  prepare_discovered, acquire_prepare_lock, prepare, prepare_locked, run_locked,
}

-- A result without its value.
abbrev pub outcome : {A : Type 0} → Result A → Result (Unit {0})
outcome (ok a) = ok tt
outcome (err e) = err e

module _ (os : Os) (hb : Handlebars) (service : PxeBootService os.State) where
  prepare_locked-outcome :
      (t : os.State)
      → (prepare_locked os hb service t).0 ≡ outcome (service.collaborators.discover t).0
  unfolding prepare_locked
  prepare_locked-outcome t = go (service.collaborators.discover t)
    where
      go :
          (p : Result (List FilePath) × os.State)
          → (◌>>=◌ (λ u. p) (prepare_discovered os hb service) t).0 ≡ outcome p.0
      go (err e, u) = refl
      go (ok [], u) = unfold prepare_discovered in refl
      go (ok (p ∷ rest), u) = unfold prepare_discovered in refl

  -- A run of `prepare` ends with the error of the lock if it cannot be taken, with the error of the
  -- discovery of images if that fails under the lock, and succeeds otherwise: whatever happens to the
  -- serving tree, a mount, a detection, a seed or a menu is no error of the run.
  pub prepare-outcome :
      (s : os.State)
      → let locked = acquire_prepare_lock os hb service s in
        (prepare os hb service s).0
        ≡ (locked.0 >> outcome (service.collaborators.discover locked.1).0)
  unfolding prepare
  prepare-outcome s = go (acquire_prepare_lock os hb service s)
    where
      go :
          (p : Result (Unit {0}) × os.State)
          → (run_locked os hb service p).0 ≡ (p.0 >> outcome (service.collaborators.discover p.1).0)
      go (err e, t) = unfold run_locked in refl
      go (ok a, t) = unfold run_locked in prepare_locked-outcome t
