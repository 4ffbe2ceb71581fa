-- ===== src/Distro/BootPaths/Inside.antt =====
-- distro/, iso/info.rs: kernel and initrd of a detected image are on that image.
use nixos_router_module.Base.{
  All, Bool, Option, [], ap, append_assoc, false, none, refl, true, ℕ, ◌++◌, ◌∙◌, ◌∷◌, ◌≡◌, list_eq,
  nat_eq,
}
use nixos_router_module.Config.{BootInfo, IsoInfo}
use nixos_router_module.Distro.BootPaths.{EntryHas, extract_boot_info-Has}
use nixos_router_module.Distro.Detector.{DistroDetector, detect}
use nixos_router_module.Distro.NixOs.{BootSpecV1, ParseBootSpec, read_bootspec, resolve_on_iso}
use nixos_router_module.Distro.Unknown.{new_registry}
use nixos_router_module.Errors.{ok}
use nixos_router_module.Os.{Os}
use nixos_router_module.Paths.{
  FilePath, cur_dir, join, join_text_path, normal, parent_dir, path_of, root_dir,
}
use nixos_router_module.Paths.Below.{
  is_absolute, is_absolute-path_of, starts_with-trim_start_matches,
}
use nixos_router_module.Text.{Text, text, trim_start_matches}

-- No component leads back up.
abbrev pub stays_down : FilePath → Bool
stays_down [] = true
stays_down (parent_dir ∷ p) = false
stays_down (root_dir ∷ p) = stays_down p
stays_down (cur_dir ∷ p) = stays_down p
stays_down (normal s ∷ p) = stays_down p

-- A path continues a directory and does not lead back up.
abbrev pub IsInside : FilePath → FilePath → Type 0
IsInside base p = (q : FilePath) × (p ≡ base ++ q) × (stays_down q ≡ true)

-- `WalkDir` yields the directory that it walks and entries inside of it.
pub record WalksInside (os : Os) : Type 0 where
  pub walk_inside :
      (s : os.State) (base : FilePath) (depth : Option ℕ)
      → All (EntryHas (IsInside base)) (os.walk s base depth)

-- A store path has no `..` behind its leading slashes.
abbrev pub NeverClimbs : Text → Type 0
NeverClimbs store_path = stays_down (path_of (trim_start_matches b'/' store_path)) ≡ true

join-IsInside :
    (p q : FilePath) → is_absolute q ≡ false → stays_down q ≡ true → IsInside p (join p q)
unfolding join
join-IsInside p (root_dir ∷ q) h k = cc
join-IsInside [] [] h k = ([], refl, refl)
join-IsInside [] (cur_dir ∷ q) h k = (cur_dir ∷ q, refl, k)
join-IsInside [] (parent_dir ∷ q) h k = cc
join-IsInside [] (normal s ∷ q) h k = (normal s ∷ q, refl, k)
join-IsInside (c ∷ p) [] h k = ([], refl, refl)
join-IsInside (c ∷ p) (cur_dir ∷ q) h k = (q, refl, k)
join-IsInside (c ∷ p) (parent_dir ∷ q) h k = cc
join-IsInside (c ∷ p) (normal s ∷ q) h k = (normal s ∷ q, refl, k)

stays_down-append :
    (p q : FilePath) → stays_down p ≡ true → stays_down q ≡ true → stays_down (p ++ q) ≡ true
stays_down-append [] q h k = k
stays_down-append (root_dir ∷ p) q h k = stays_down-append p q h k
stays_down-append (cur_dir ∷ p) q h k = stays_down-append p q h k
stays_down-append (parent_dir ∷ p) q h k = cc
stays_down-append (normal s ∷ p) q h k = stays_down-append p q h k

IsInside-trans : (p q r : FilePath) → IsInside p q → IsInside q r → IsInside p r
IsInside-trans p q r (a, h, i) (b, k, j) =
    (a ++ b, k ∙ (ap (λ t. t ++ b) h ∙ append_assoc p a b), stays_down-append a b i j)

resolve_on_iso-IsInside :
    (mount : FilePath) (store_path : Text)
    → NeverClimbs store_path
    → IsInside mount (resolve_on_iso mount store_path)
unfolding resolve_on_iso join_text_path
resolve_on_iso-IsInside mount store_path h =
    IsInside-trans mount _ _ (join-IsInside mount (path_of (text "boot")) boot_relative boot_down) (
      join-IsInside _ (path_of (trim_start_matches b'/' store_path))
        (is_absolute-path_of (trim_start_matches b'/' store_path)
          (starts_with-trim_start_matches b'/' store_path))
        h)
  where
    boot_relative : is_absolute (path_of (text "boot")) ≡ false
    boot_relative = is_absolute-path_of (text "boot") refl

    boot_down : stays_down (path_of (text "boot")) ≡ true
    boot_down = unfold path_of in refl

-- Whichever detector the registry chooses for an image, the paths of kernel and initrd that it
-- extracts continue the mount point of the image without leading back up, if walks of a directory
-- stay inside of it and, where the image has a boot.json, its two paths have no `..`. The program does
-- not check the latter.
pub extract_boot_info-BootsInside :
    (os : Os) (from_str : ParseBootSpec) (walks : WalksInside os) (s : os.State) (iso : IsoInfo)
    (d : DistroDetector os.State) (boot : BootInfo)
    → ((spec : BootSpecV1)
        → read_bootspec os from_str s iso.mount_path ≡ ok spec
        → NeverClimbs spec.kernel × NeverClimbs spec.initrd)
    → detect (new_registry os from_str) s iso.mount_path ≡ ok d
    → d.extract_boot_info s iso ≡ ok boot
    → IsInside iso.mount_path boot.kernel_path × IsInside iso.mount_path boot.initrd_path
extract_boot_info-BootsInside os from_str walks s iso d boot never_climbs chosen extracted =
    extract_boot_info-Has os from_str s (IsInside iso.mount_path) iso d boot
      (walks.walk_inside s iso.mount_path none)
      (λ spec read.
        let (kernel, initrd) = never_climbs spec read in
        (
          resolve_on_iso-IsInside iso.mount_path spec.kernel kernel,
          resolve_on_iso-IsInside iso.mount_path spec.initrd initrd,
        ))
      chosen extracted
