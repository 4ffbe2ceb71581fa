-- ===== src/Paths/Laws.antt =====
-- How `join`, `strip_prefix` and `file_name` of a path go together.
use nixos_router_module.Base.{==-refl, [], arith, refl, some, ◌++◌, ◌∷◌, ◌≡◌}
use nixos_router_module.Paths.{FilePath, component_beq_iff, strip_path}

pub strip_path-append : (p q : FilePath) → strip_path (p ++ q) p ≡ some q
unfolding strip_path
strip_path-append [] q = refl
strip_path-append (c ∷ p) q = rw (strip_path-append p q, ==-refl c)

pub strip_path_sound : (p base q : FilePath) → strip_path p base ≡ some q → p ≡ base ++ q
unfolding strip_path
strip_path_sound p [] q h = ground arith
strip_path_sound [] (b ∷ base) q h = cc
strip_path_sound (c ∷ p) (b ∷ base) q h =
    ground (arith, component_beq_iff c b, strip_path_sound p base q)
