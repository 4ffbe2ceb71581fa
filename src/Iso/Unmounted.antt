-- ===== src/Iso/Unmounted.antt =====
-- iso/mount.rs: what is still mounted after `unmount_all`.
use nixos_router_module.Base.{
  All, All-imply, Bool, Bool-cases, Distinct, List, [], ap, false, if◌then◌else◌, inl, inr, map,
  refl, subst, sym, true, ◌++◌, ◌∙◌, ◌∷◌, ◌≡◌, ◌≢◌, ◌⊎◌,
}
use nixos_router_module.Actions.{ignore_error, pure, ◌>>=◌, ◌>>◌}
use nixos_router_module.Errors.{
  IoResult, Result, io, io_path, is_ok, map_err, ok, ok_of_is_ok, with_path,
}
use nixos_router_module.Iso.MountTable.Shown.{check_output-ok}
use nixos_router_module.Iso.Mounter.{iso_mountpoints, unmount, unmount_all, unmount_entries}
use nixos_router_module.Iso.ServeTree.{drop_last}
use nixos_router_module.Os.{CommandOutput, Os}
use nixos_router_module.Paths.{FilePath}
use nixos_router_module.Text.{text}

-- How the system unmounts, where no two images are mounted over one another: the test for a mount
-- can be run, an unmount that succeeds frees its mount point, and it changes nothing for the other
-- entries of the directory.
pub record UnmountsFiles (os : Os) : Type 0 where
  pub answers : (s : os.State) (p : FilePath) → is_ok (os.mountpoint s p) ≡ true
  pub frees :
      (p : FilePath) (s : os.State) (output : CommandOutput)
      → (os.umount p s).0 ≡ ok output
      → output.success ≡ true
      → os.mountpoint (os.umount p s).1 p ≡ ok false
  pub keeps :
      (p q : FilePath) (s : os.State)
      → drop_last p ≡ drop_last q
      → p ≢ q
      → os.mountpoint (os.umount p s).1 q ≡ os.mountpoint s q

module _ (os : Os) where
  -- The machine after an entry whose test has answered.
  abbrev after_entry : FilePath → Bool → os.State → os.State
  after_entry p mounted s = if mounted then (os.umount p s).1 else s

  unmount_entries-cons :
      (p : FilePath) (rest : List (IoResult FilePath)) (mounted : Bool) (s : os.State)
      → os.mountpoint s p ≡ ok mounted
      → unmount_entries os (ok p ∷ rest) s ≡ unmount_entries os rest (after_entry p mounted s)
  unfolding unmount_entries
  unmount_entries-cons p rest mounted s h = ap after h ∙ go mounted
    where
      after : IoResult Bool → Result (Unit {0}) × os.State
      after r =
          ◌>>=◌ (λ t. (map_err io r, t))
            (λ b. (if b then ignore_error (unmount os p) else pure tt) >> unmount_entries os rest) s

      go : (b : Bool) → after (ok b) ≡ unmount_entries os rest (after_entry p b s)
      go true = refl
      go false = refl

  -- When the loop over some entries comes to one of them, an image is mounted there and its unmount
  -- fails.
  abbrev IsStuck : os.State → List FilePath → FilePath → Type 0
  IsStuck s ps p =
      (before rest : List FilePath) × (ps ≡ before ++ p ∷ rest)
      × let u = (unmount_entries os (map ok before) s).1 in
        (os.mountpoint u p ≡ ok true) × (is_ok (unmount os p u).0 ≡ false)

  -- In the end nothing is mounted there, unless its unmount has failed.
  abbrev pub Tried : os.State → List FilePath → os.State → FilePath → Type 0
  Tried s ps t p = (os.mountpoint t p ≡ ok false) ⊎ IsStuck s ps p

  module _ (unmounts : UnmountsFiles os) where
    after_entry-keeps :
        (p q : FilePath) (mounted : Bool) (s : os.State)
        → drop_last p ≡ drop_last q
        → p ≢ q
        → os.mountpoint (after_entry p mounted s) q ≡ os.mountpoint s q
    after_entry-keeps p q true s beside ne = unmounts.keeps p q s beside ne
    after_entry-keeps p q false s beside ne = refl

    first-Tried :
        (p : FilePath) (ps : List FilePath) (mounted : Bool) (s t : os.State)
        → os.mountpoint s p ≡ ok mounted
        → os.mountpoint t p ≡ os.mountpoint (after_entry p mounted s) p
        → Tried s (p ∷ ps) t p
    unfolding unmount_entries
    first-Tried p ps false s t h same = inl (same ∙ h)
    first-Tried p ps true s t h same = elim (Bool-cases (is_ok (unmount os p s).0)) [
      | inl done ↦
          let (a, e) = ok_of_is_ok (unmount os p s).0 done in
          let (output, r, success) = check_output-ok (text "umount") p (os.umount p s).0 e in
          inl (same ∙ unmounts.frees p s output r success)
      | inr failed ↦ inr ([], ps, refl, (h, failed))
    ]

    -- What the loop does after its first entry.
    Tried-cons :
        (p q : FilePath) (ps : List FilePath) (mounted : Bool) (s t : os.State)
        → os.mountpoint s p ≡ ok mounted
        → Tried (after_entry p mounted s) ps t q
        → Tried s (p ∷ ps) t q
    Tried-cons p q ps mounted s t h (inl free) = inl free
    Tried-cons p q ps mounted s t h (inr (before, rest, at, (there, failed))) =
        let same = ap (λ r. r.1) (unmount_entries-cons p (map ok before) mounted s h) in
        inr (
          p ∷ before,
          rest,
          ap (λ xs. p ∷ xs) at,
          (
            ap (λ u. os.mountpoint u q) same ∙ there,
            ap (λ u. is_ok (unmount os q u).0) same ∙ failed,
          ),
        )

    module _ (dir : FilePath) where
      -- The entries that are still to come leave the others as they are.
      unmount_entries-keeps :
          (ps : List FilePath) (q : FilePath) (s : os.State)
          → drop_last q ≡ dir
          → All (λ p. drop_last p ≡ dir) ps
          → All (λ p. q ≢ p) ps
          → os.mountpoint (unmount_entries os (map ok ps) s).1 q ≡ os.mountpoint s q
      unfolding unmount_entries
      unmount_entries-keeps [] q s at all apart = refl
      unmount_entries-keeps (p ∷ ps) q s at (b, all) (ne, apart) =
          let (mounted, h) = ok_of_is_ok (os.mountpoint s p) (unmounts.answers s p) in
          ap (λ r. os.mountpoint r.1 q) (unmount_entries-cons p (map ok ps) mounted s h)
          ∙ (unmount_entries-keeps ps q (after_entry p mounted s) at all apart
              ∙ after_entry-keeps p q mounted s (b ∙ sym at) (λ e. ne (sym e)))

      unmount_entries-Tried :
          (ps : List FilePath) (s : os.State)
          → All (λ p. drop_last p ≡ dir) ps
          → Distinct ps
          → let ended = unmount_entries os (map ok ps) s in
            (ended.0 ≡ ok tt) × All (Tried s ps ended.1) ps
      unfolding unmount_entries
      unmount_entries-Tried [] s all apart = (refl, tt)
      unmount_entries-Tried (p ∷ ps) s (at, all) (fresh, apart) =
          let (mounted, h) = ok_of_is_ok (os.mountpoint s p) (unmounts.answers s p) in
          let t = after_entry p mounted s in
          let (done, tried) = unmount_entries-Tried ps t all apart in
          let ended = (unmount_entries os (map ok ps) t).1 in
          subst (λ r. (r.0 ≡ ok tt) × All (Tried s (p ∷ ps) r.1) (p ∷ ps))
            (sym (unmount_entries-cons p (map ok ps) mounted s h))
            (
              done,
              (
                first-Tried p ps mounted s ended h (unmount_entries-keeps ps p t at all fresh),
                All-imply _ _ ps (λ q. Tried-cons p q ps mounted s ended h) tried,
              ),
            )

-- When the directory of mount points is there and its entries can be read, `unmount_all` succeeds,
-- and in the end each entry has nothing mounted, unless its own unmount has failed when the loop came
-- to it: a mount that cannot be undone keeps none of the others. The system unmounts as
-- `UnmountsFiles` says, and the entries stand in that directory, each once.
pub unmount_all-Tried :
    (os : Os) (unmounts : UnmountsFiles os) (root : FilePath) (ps : List FilePath) (s : os.State)
    → os.exists s (iso_mountpoints root) ≡ true
    → os.read_dir s (iso_mountpoints root) ≡ ok (map ok ps)
    → All (λ p. drop_last p ≡ iso_mountpoints root) ps
    → Distinct ps
    → let ended = unmount_all os root s in (ended.0 ≡ ok tt) × All (Tried os s ps ended.1) ps
unfolding unmount_all with_path
unmount_all-Tried os unmounts root ps s there listed all apart = rw there (
    subst (λ r. let ended = after r in (ended.0 ≡ ok tt) × All (Tried os s ps ended.1) ps)
      (sym listed) (unmount_entries-Tried os unmounts (iso_mountpoints root) ps s all apart))
  where
    after : IoResult (List (IoResult FilePath)) → Result (Unit {0}) × os.State
    after r = ◌>>=◌ (λ t. (map_err (io_path (iso_mountpoints root)) r, t)) (unmount_entries os) s
