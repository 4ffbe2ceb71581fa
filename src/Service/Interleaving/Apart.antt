-- ===== src/Service/Interleaving/Apart.antt =====
-- lib.rs: steps of menu tasks that do not disturb one another.
use nixos_router_module.Base.{
  All, All-append, List, [], ◌++◌, ap, refl, subst, sym, ◌∙◌, ◌∷◌, ◌≡◌, ◌≢◌,
}
use nixos_router_module.Autoinstall.Seeds.{CopiesFiles}
use nixos_router_module.Errors.{err, grub_write, is_ok_of_map_err, ok}
use nixos_router_module.Os.{Os}
use nixos_router_module.Service.Tasks.{MenuStep, make_dir, perform, write_menu}
use nixos_router_module.Service.Written.{StoresFiles}
use nixos_router_module.Text.{Text}

-- Two steps that write write to different files.
abbrev pub Apart : MenuStep → MenuStep → Type 0
Apart (make_dir p) y = Unit
Apart (write_menu p a) (make_dir q) = Unit
Apart (write_menu p a) (write_menu q b) = p ≢ q

abbrev pub AllApart : List MenuStep → List MenuStep → Type 0
AllApart xs ys = All (λ x. All (Apart x) ys) xs

abbrev pub SelfApart : List MenuStep → Type 0
SelfApart [] = Unit
SelfApart (x ∷ xs) = All (Apart x) xs × SelfApart xs

pub Apart-sym : (x y : MenuStep) → Apart x y → Apart y x
Apart-sym (make_dir p) (make_dir q) h = tt
Apart-sym (make_dir p) (write_menu q b) h = tt
Apart-sym (write_menu p a) (make_dir q) h = tt
Apart-sym (write_menu p a) (write_menu q b) h = λ e. h (sym e)

pub Apart-sym-All : (x : MenuStep) (ys : List MenuStep) → All (Apart x) ys → All (λ y. Apart y x) ys
Apart-sym-All x [] h = tt
Apart-sym-All x (y ∷ ys) (a, h) = (Apart-sym x y a, Apart-sym-All x ys h)

pub AllApart-snoc :
    (ys xs : List MenuStep) (x : MenuStep)
    → AllApart ys xs
    → All (λ y. Apart y x) ys
    → AllApart ys (xs ++ x ∷ [])
AllApart-snoc [] xs x h g = tt
AllApart-snoc (y ∷ ys) xs x (a, h) (b, g) =
    (All-append (Apart y) xs (x ∷ []) a (b, tt), AllApart-snoc ys xs x h g)

pub AllApart-nil : (ys : List MenuStep) → AllApart ys []
AllApart-nil [] = tt
AllApart-nil (y ∷ ys) = (tt, AllApart-nil ys)

pub All-head :
    (x : MenuStep) (rest ys : List MenuStep) → AllApart ys (x ∷ rest) → All (λ y. Apart y x) ys
All-head x rest [] h = tt
All-head x rest (y ∷ ys) ((a, b), h) = (a, All-head x rest ys h)

pub All-tail : (x : MenuStep) (rest ys : List MenuStep) → AllApart ys (x ∷ rest) → AllApart ys rest
All-tail x rest [] h = tt
All-tail x rest (y ∷ ys) ((a, b), h) = (b, All-tail x rest ys h)

module _ (os : Os) (copies : CopiesFiles os) (stores : StoresFiles os) where
  -- What a step has left: the file that it wrote holds the text that was rendered.
  abbrev pub Kept : os.State → MenuStep → Type 0
  Kept s (make_dir p) = Unit
  Kept s (write_menu p rendered) =
      (contents : Text) × (rendered ≡ ok contents) × (os.read_to_string s p ≡ ok contents)

  pub perform-keeps :
      (x y : MenuStep) (s : os.State) → Apart x y → Kept s y → Kept (perform os x s).1 y
  unfolding perform
  perform-keeps x (make_dir q) s apart held = tt
  perform-keeps (make_dir p) (write_menu q b) s apart (contents, r, held) =
      (contents, r, copies.create_keeps p q s ∙ held)
  perform-keeps (write_menu p (ok a)) (write_menu q b) s apart (contents, r, held) =
      (contents, r, stores.write_keeps p q a s apart ∙ held)
  perform-keeps (write_menu p (err e)) (write_menu q b) s apart held = held

  pub perform-keeps-All :
      (x : MenuStep) (ys : List MenuStep) (s : os.State)
      → All (Apart x) ys
      → All (Kept s) ys
      → All (Kept (perform os x s).1) ys
  perform-keeps-All x [] s apart held = tt
  perform-keeps-All x (y ∷ ys) s (a, apart) (h, held) =
      (perform-keeps x y s a h, perform-keeps-All x ys s apart held)

  pub perform-Kept : (x : MenuStep) (s t : os.State) → perform os x s ≡ (ok tt, t) → Kept t x
  unfolding perform
  perform-Kept (make_dir p) s t done = tt
  perform-Kept (write_menu p (err e)) s t done = cc
  perform-Kept (write_menu p (ok a)) s t done = (
    a,
    refl,
    subst (λ u. os.read_to_string u p ≡ ok a) (ap (λ m. m.1) done)
        (stores.read_written p a s (is_ok_of_map_err (grub_write p) _ tt (ap (λ m. m.0) done))),
  )
