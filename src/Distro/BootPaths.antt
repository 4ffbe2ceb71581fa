-- ===== src/Distro/BootPaths.antt =====
-- distro/, iso/info.rs: where kernel and initrd of a detected image are.
pub mod Inside
use nixos_router_module.Base.{
  All, Bool-cases, List, Option, [], arith, inl, inr, none, refl, subst, sym, ℕ, ◌&&◌, ◌∷◌, ◌≡◌,
}
use nixos_router_module.Config.{BootInfo, IsoInfo}
use nixos_router_module.Distro.Detector.{DistroDetector, detect}
use nixos_router_module.Distro.NixOs.{
  BootSpecV1, ParseBootSpec, checked_boot_info, nixos_extract_boot_info, read_bootspec,
  resolve_on_iso,
}
use nixos_router_module.Distro.Registry.{detected_elim}
use nixos_router_module.Distro.Rhel.{rhel_extract_boot_info}
use nixos_router_module.Distro.Ubuntu.{ubuntu_extract_boot_info}
use nixos_router_module.Distro.Unknown.{new_registry}
use nixos_router_module.Errors.{>>=-eq-ok, IoResult, err, ok, ◌>>=◌}
use nixos_router_module.Iso.FindFile.{entry_matches, find_file, find_from}
use nixos_router_module.Os.{Os}
use nixos_router_module.Paths.{FilePath}
use nixos_router_module.Paths.Below.{
  IsBelow, IsBelow-trans, join_text_path-IsBelow, starts_with-trim_start_matches,
}
use nixos_router_module.Text.{Text, text, trim_start_matches}

-- An entry of a walk has a property, where it could be read.
abbrev pub EntryHas : (FilePath → Type 0) → IoResult FilePath → Type 0
EntryHas P (ok p) = P p
EntryHas P (err e) = Unit

-- `WalkDir` yields nothing but continuations of the directory that it walks.
abbrev pub EntryIsBelow : FilePath → IoResult FilePath → Type 0
EntryIsBelow base = EntryHas (IsBelow base)

pub record WalksBelow (os : Os) : Type 0 where
  pub walk_below :
      (s : os.State) (base : FilePath) (depth : Option ℕ)
      → All (EntryIsBelow base) (os.walk s base depth)

-- Both paths of a boot information begin with a mount point.
abbrev pub BootsBelow : FilePath → BootInfo → Type 0
BootsBelow mount boot = IsBelow mount boot.kernel_path × IsBelow mount boot.initrd_path

resolve_on_iso-IsBelow :
    (mount : FilePath) (store_path : Text) → IsBelow mount (resolve_on_iso mount store_path)
unfolding resolve_on_iso
resolve_on_iso-IsBelow mount store_path =
    IsBelow-trans mount _ _ (join_text_path-IsBelow mount (text "boot") refl) (
      join_text_path-IsBelow _ (trim_start_matches b'/' store_path)
        (starts_with-trim_start_matches b'/' store_path))

module _ (os : Os) (s : os.State) (P : FilePath → Type 0) where
  find_from-Has :
      (base : FilePath) (patterns : List Text) (entries : List (IoResult FilePath)) (p : FilePath)
      → All (EntryHas P) entries
      → find_from os s base patterns entries ≡ ok p
      → P p
  unfolding find_from
  find_from-Has base patterns [] p h found = cc
  find_from-Has base patterns (err e ∷ rest) p (_, h) found =
      find_from-Has base patterns rest p h found
  find_from-Has base patterns (ok path ∷ rest) p (b, h) found =
      elim (Bool-cases (os.is_file s path && entry_matches base patterns path)) [
        | inl hit ↦ subst P (cc (rw hit at found)) b
        | inr miss ↦ find_from-Has base patterns rest p h (rw miss at found)
      ]

  find_file-Has :
      (base : FilePath) (patterns : List Text) (p : FilePath)
      → All (EntryHas P) (os.walk s base none)
      → find_file os s base patterns ≡ ok p
      → P p
  unfolding find_file
  find_file-Has base patterns p walks found = find_from-Has base patterns _ p walks found

  -- Both paths of a boot information have the property.
  abbrev BootsHave : BootInfo → Type 0
  BootsHave boot = P boot.kernel_path × P boot.initrd_path

  extract-Has :
      (iso : IsoInfo) (kernel initrd : List Text) (make : FilePath → FilePath → BootInfo)
      → All (EntryHas P) (os.walk s iso.mount_path none)
      → ((k i : FilePath) → (make k i).kernel_path ≡ k)
      → ((k i : FilePath) → (make k i).initrd_path ≡ i)
      → (boot : BootInfo)
      → (find_file os s iso.mount_path kernel >>= λ k.
          find_file os s iso.mount_path initrd >>= λ i. ok (make k i))
        ≡ ok boot
      → BootsHave boot
  extract-Has iso kernel initrd make walks at_kernel at_initrd boot found =
      let (k, rest, found_k) = >>=-eq-ok _ (find_file os s iso.mount_path kernel) (sym found) in
      let (i, made, found_i) = >>=-eq-ok _ (find_file os s iso.mount_path initrd) (sym rest) in
      let same : make k i ≡ boot = cc made in
      subst BootsHave same (
        subst P (sym (at_kernel k i)) (find_file-Has iso.mount_path kernel k walks found_k),
        subst P (sym (at_initrd k i)) (find_file-Has iso.mount_path initrd i walks found_i),
      )

  ubuntu-Has :
      (iso : IsoInfo) (boot : BootInfo)
      → All (EntryHas P) (os.walk s iso.mount_path none)
      → ubuntu_extract_boot_info os s iso ≡ ok boot
      → BootsHave boot
  unfolding ubuntu_extract_boot_info
  ubuntu-Has iso boot walks found =
      extract-Has iso _ _ _ walks (λ k i. refl) (λ k i. refl) boot found

  rhel-Has :
      (iso : IsoInfo) (boot : BootInfo)
      → All (EntryHas P) (os.walk s iso.mount_path none)
      → rhel_extract_boot_info os s iso ≡ ok boot
      → BootsHave boot
  unfolding rhel_extract_boot_info
  rhel-Has iso boot walks found = extract-Has iso _ _ _ walks (λ k i. refl) (λ k i. refl) boot found

module _ (os : Os) (from_str : ParseBootSpec) (s : os.State) where
  checked_paths :
      (mount : FilePath) (spec : BootSpecV1) (kernel initrd : FilePath) (boot : BootInfo)
      → checked_boot_info os from_str s mount spec kernel initrd ≡ ok boot
      → (boot.kernel_path ≡ kernel) × (boot.initrd_path ≡ initrd)
  unfolding checked_boot_info
  checked_paths mount spec kernel initrd boot h = ground arith

  -- Where the two paths of a boot.json lead to has the property.
  abbrev pub ResolvesTo : (FilePath → Type 0) → FilePath → Type 0
  ResolvesTo P mount =
      (spec : BootSpecV1)
      → read_bootspec os from_str s mount ≡ ok spec
      → P (resolve_on_iso mount spec.kernel) × P (resolve_on_iso mount spec.initrd)

  nixos-Has :
      (P : FilePath → Type 0) (iso : IsoInfo) (boot : BootInfo)
      → ResolvesTo P iso.mount_path
      → nixos_extract_boot_info os from_str s iso ≡ ok boot
      → BootsHave os s P boot
  unfolding nixos_extract_boot_info
  nixos-Has P iso boot resolves found =
      let (spec, checked, read) =
        >>=-eq-ok _ (read_bootspec os from_str s iso.mount_path) (sym found) in
      let (at_kernel, at_initrd) = checked_paths iso.mount_path spec _ _ boot checked in
      let (kernel, initrd) = resolves spec read in
      (subst P (sym at_kernel) kernel, subst P (sym at_initrd) initrd)

  -- What a built-in detector extracts has every property that the entries of the walk and the paths
  -- of a boot.json have.
  pub extract_boot_info-Has :
      (P : FilePath → Type 0) (iso : IsoInfo) (d : DistroDetector os.State) (boot : BootInfo)
      → All (EntryHas P) (os.walk s iso.mount_path none)
      → ResolvesTo P iso.mount_path
      → detect (new_registry os from_str) s iso.mount_path ≡ ok d
      → d.extract_boot_info s iso ≡ ok boot
      → P boot.kernel_path × P boot.initrd_path
  extract_boot_info-Has P iso d boot walks resolves chosen extracted =
      detected_elim os from_str s (λ e. e.extract_boot_info s iso ≡ ok boot → BootsHave os s P boot)
        iso.mount_path d chosen (nixos-Has P iso boot resolves) (ubuntu-Has os s P iso boot walks)
        (rhel-Has os s P iso boot walks) (λ h. cc) extracted

  -- Kernel and initrd of whichever detector begin with the mount point of the image.
  pub extract_boot_info-BootsBelow :
      WalksBelow os
      → (iso : IsoInfo) (d : DistroDetector os.State) (boot : BootInfo)
      → detect (new_registry os from_str) s iso.mount_path ≡ ok d
      → d.extract_boot_info s iso ≡ ok boot
      → BootsBelow iso.mount_path boot
  extract_boot_info-BootsBelow laws iso d boot chosen extracted =
      extract_boot_info-Has (IsBelow iso.mount_path) iso d boot
        (laws.walk_below s iso.mount_path none)
        (λ spec read. (resolve_on_iso-IsBelow _ spec.kernel, resolve_on_iso-IsBelow _ spec.initrd))
        chosen extracted
