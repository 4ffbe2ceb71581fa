-- ===== src/Service/Reported.antt =====
-- lib.rs: every mounted image ends up either in the menu or among the placeholders.
use mathlib.Core.List.{Memᴰ}
use mathlib.Core.List.Memᴰ.{head, tail}
use nixos_router_module.Base.{
  All, List, Option, [], arith, length, none, refl, some, ℕ, ◌+◌, ◌∷◌, ◌≡◌,
}
use nixos_router_module.Distro.Detector.{DistroDetector}
use nixos_router_module.Errors.{Result, err, error_text, ok}
use nixos_router_module.Iso.Mounter.{mount_path}
use nixos_router_module.Paths.{FilePath, file_name}
use nixos_router_module.Service.Detection.{Detected, add_detected, add_named, boot_of, detect_all}
use nixos_router_module.Service.Entries.{Bootable}
use nixos_router_module.Text.{Text}

-- What became of one mounted image: it is an image to boot, or a placeholder with the reason. A
-- path that has no file name is passed over.
abbrev pub Kept : {S : Type 0} → Detected S → Text → Result (Bootable S) → Type 0
Kept d name (ok b) = Memᴰ b d.iso_infos
Kept d name (err e) = Memᴰ (name, error_text e) d.failed_isos

abbrev pub KeptNamed :
    {S : Type 0} → Detected S → (Text → Result (Bootable S)) → Option Text → Type 0
KeptNamed d boot none = Unit
KeptNamed d boot (some name) = Kept d name (boot name)

abbrev pub Reported :
    {S : Type 0} → List (DistroDetector S) → S → Detected S → FilePath × FilePath → Type 0
Reported registry s d (iso_path, mount_path) =
    KeptNamed d (λ name. boot_of registry s name iso_path mount_path) (file_name iso_path)

abbrev pub count_named : Option Text → ℕ
count_named none = 0
count_named (some name) = 1

-- How many images have a file name.
abbrev pub named_count : List (FilePath × FilePath) → ℕ
named_count [] = 0
named_count ((iso_path, mount_path) ∷ rest) = count_named (file_name iso_path) + named_count rest

module _ {S : Type 0} (registry : List (DistroDetector S)) (s : S) where
  Kept-add_detected :
      (name another : Text) (r added : Result (Bootable S)) (d : Detected S)
      → Kept d name r
      → Kept (add_detected another added d) name r
  Kept-add_detected name another (ok b) (ok c) d h = tail h
  Kept-add_detected name another (ok b) (err e) d h = h
  Kept-add_detected name another (err e) (ok c) d h = h
  Kept-add_detected name another (err e) (err x) d h = tail h

  Kept-added :
      (name : Text) (r : Result (Bootable S)) (d : Detected S) → Kept (add_detected name r d) name r
  Kept-added name (ok b) d = head refl
  Kept-added name (err e) d = head refl

  KeptNamed-add_detected :
      (another : Text) (added : Result (Bootable S)) (d : Detected S)
      (boot : Text → Result (Bootable S)) (o : Option Text)
      → KeptNamed d boot o
      → KeptNamed (add_detected another added d) boot o
  KeptNamed-add_detected another added d boot none h = tt
  KeptNamed-add_detected another added d boot (some name) h =
      Kept-add_detected name another (boot name) added d h

  Reported-add_detected :
      (another : Text) (added : Result (Bootable S)) (d : Detected S)
      (mounted : List (FilePath × FilePath))
      → All (Reported registry s d) mounted
      → All (Reported registry s (add_detected another added d)) mounted
  Reported-add_detected another added d [] h = tt
  Reported-add_detected another added d (m ∷ rest) (a, h) = (
    KeptNamed-add_detected another added d _ (file_name m.0) a,
    Reported-add_detected another added d rest h,
  )

  outcomes : Detected S → ℕ
  outcomes d = length d.iso_infos + length d.failed_isos

  outcomes-add_detected :
      (name : Text) (r : Result (Bootable S)) (d : Detected S)
      → outcomes (add_detected name r d) ≡ 1 + outcomes d
  unfolding outcomes
  outcomes-add_detected name (ok b) d = omega arith
  outcomes-add_detected name (err e) d = omega arith

  -- Each mounted image with a file name is, after detection, an image of the menu if it can be
  -- booted and a placeholder with the text of its error if it cannot; and there is nothing else, as
  -- many of both together as there are such images.
  pub detect_all-Reported :
      (mounted : List (FilePath × FilePath))
      → let d = detect_all registry s mounted in
        All (Reported registry s d) mounted
        × (length d.iso_infos + length d.failed_isos ≡ named_count mounted)
  unfolding detect_all outcomes
  detect_all-Reported [] = (tt, omega arith)
  detect_all-Reported ((iso_path, mount_path) ∷ rest) =
      let (reported, count) = detect_all-Reported rest in go (file_name iso_path) reported count
    where
      boot : Text → Result (Bootable S)
      boot name = boot_of registry s name iso_path mount_path

      before : Detected S
      before = detect_all registry s rest

      go :
          (o : Option Text)
          → All (Reported registry s before) rest
          → outcomes before ≡ named_count rest
          → (KeptNamed (add_named boot o before) boot o
              × All (Reported registry s (add_named boot o before)) rest)
            × (outcomes (add_named boot o before) ≡ count_named o + named_count rest)
      go none reported count = ((tt, reported), omega (arith, count))
      go (some first) reported count = (
        (
          Kept-added first (boot first) before,
          Reported-add_detected first (boot first) before rest reported,
        ),
        omega (arith, count, outcomes-add_detected first (boot first) before),
      )
