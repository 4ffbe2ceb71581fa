-- ===== src/Distro/Registry.antt =====
-- distro/: what the detectors that are built in detect, and where they find kernel and initrd.
use nixos_router_module.Base.{Bool, false, if◌then◌else◌, refl, subst, sym, true, ◌≡◌}
use nixos_router_module.Distro.Detector.{DistroDetector, detect, register}
use nixos_router_module.Distro.NixOs.{ParseBootSpec, nixos_detector}
use nixos_router_module.Distro.Rhel.{rhel_detector}
use nixos_router_module.Distro.Ubuntu.{ubuntu_detector}
use nixos_router_module.Distro.Unknown.{new_registry, unknown_detector}
use nixos_router_module.Errors.{StdResult, ok}
use nixos_router_module.Os.{Os}
use nixos_router_module.Paths.{FilePath, join_text_path}
use nixos_router_module.Text.{text}

ok-choice {ℓ κ} :
    {E : Type ℓ} {A : Type κ} (a b c : Bool) (w x y z : A)
    → ◌≡◌ {A = StdResult E A}
        (ok (if a then w else if b then x else if c then y else z))
        (if a then ok w else if b then ok x else if c then ok y else ok z)
ok-choice true b c w x y z = refl
ok-choice false true c w x y z = refl
ok-choice false false true w x y z = refl
ok-choice false false false w x y z = refl

choice-elim {ℓ κ} :
    {A : Type ℓ} (P : A → Type κ) (a b c : Bool) {w x y z : A}
    → P w
    → P x
    → P y
    → P z
    → P (if a then w else if b then x else if c then y else z)
choice-elim P true b c w x y z = w
choice-elim P false true c w x y z = x
choice-elim P false false true w x y z = y
choice-elim P false false false w x y z = z

module _ (os : Os) (from_str : ParseBootSpec) (s : os.State) where
  -- The first of the three marker files that is there decides; without any, `unknown` does.
  abbrev pub chosen_detector : FilePath → DistroDetector os.State
  chosen_detector mount =
      if os.exists s (join_text_path mount (text "nix-store.squashfs"))
      then nixos_detector os from_str
      else if os.exists s (join_text_path mount (text "casper/ubuntu-server-minimal.squashfs"))
      then ubuntu_detector os
      else if os.exists s (join_text_path mount (text "RPM-GPG-KEY-redhat-release"))
      then rhel_detector os
      else unknown_detector os

  -- Detection with the built-in registry never fails, and goes by the marker files.
  pub detect-new_registry :
      (mount : FilePath) → detect (new_registry os from_str) s mount ≡ ok (chosen_detector mount)
  unfolding detect new_registry register
  detect-new_registry mount = sym (
      ok-choice (os.exists s (join_text_path mount (text "nix-store.squashfs")))
        (os.exists s (join_text_path mount (text "casper/ubuntu-server-minimal.squashfs")))
        (os.exists s (join_text_path mount (text "RPM-GPG-KEY-redhat-release")))
        (nixos_detector os from_str) (ubuntu_detector os) (rhel_detector os) (unknown_detector os))

  -- What holds of the four detectors holds of the one that is detected.
  pub detected_elim {κ} :
      (P : DistroDetector os.State → Type κ) (mount : FilePath) (d : DistroDetector os.State)
      → detect (new_registry os from_str) s mount ≡ ok d
      → P (nixos_detector os from_str)
      → P (ubuntu_detector os)
      → P (rhel_detector os)
      → P (unknown_detector os)
      → P d
  detected_elim P mount d found w x y z = subst P (cc (detect-new_registry mount)) (
      choice-elim P (os.exists s (join_text_path mount (text "nix-store.squashfs")))
        (os.exists s (join_text_path mount (text "casper/ubuntu-server-minimal.squashfs")))
        (os.exists s (join_text_path mount (text "RPM-GPG-KEY-redhat-release"))) w x y z)
