-- ===== src/Grub/Params.antt =====
-- The kernel parameters of an entry with a script: the placeholders of the detectors are replaced
-- by the URLs of the seed, and nothing else is touched.
use nixos_router_module.Base.{
  All, [], ap, append-nil, arith, flat_map, inr, refl, some, true, ℕ, ◌++◌, ◌<◌, ◌∷◌, ◌≡◌,
}
use nixos_router_module.Config.{AutoinstallScript, BootInfo, IpAddr, display_ip, v4}
use nixos_router_module.Distro.Detector.{
  autoinstall_dir_url_placeholder, autoinstall_url_placeholder,
}
use nixos_router_module.Distro.Rhel.{rhel_boot_params}
use nixos_router_module.Distro.Ubuntu.{ubuntu_boot_params}
use nixos_router_module.Grub.Decode.{IsByte}
use nixos_router_module.Grub.Entry.{
  MenuEntryFactory, authority, autoinstall_dir_url, autoinstall_url, fill_placeholders,
  filled_params, iso_url, mounted_url,
}
use nixos_router_module.Grub.Entry.Encode.{encode_byte, url_encode_segment}
use nixos_router_module.Text.{Text, decimal, replace, text}
use nixos_router_module.Text.Digits.{lacks-decimal}
use nixos_router_module.Text.Replace.{lacks, lacks-append, replace_of_lacks}

-- An address whose text has no brace. Every IPv4 address is one, and every text of an IPv6 address.
abbrev pub HasNoBrace : IpAddr → Type 0
HasNoBrace ip = lacks b'{' (display_ip ip) ≡ true

pub lacks-encode_byte : (c : ℕ) → c < 256 → lacks b'{' (encode_byte c) ≡ true
unfolding encode_byte
lacks-encode_byte c k = ground arith

lacks-url_encode_segment : (s : Text) → All IsByte s → lacks b'{' (url_encode_segment s) ≡ true
unfolding url_encode_segment
lacks-url_encode_segment [] k = refl
lacks-url_encode_segment (c ∷ s) (k, ks) =
    lacks-append b'{' (encode_byte c) (flat_map encode_byte s) (lacks-encode_byte c k)
      (lacks-url_encode_segment s ks)

pub v4-HasNoBrace : (a b c d : ℕ) → HasNoBrace (v4 a b c d)
unfolding display_ip
v4-HasNoBrace a b c d = lacks-append b'{' (decimal a) _ (digits a) (
    lacks-append b'{' (decimal b) _ (digits b)
      (lacks-append b'{' (decimal c) _ (digits c) (digits d)))
  where
    digits : (n : ℕ) → lacks b'{' (decimal n) ≡ true
    digits n = lacks-decimal b'{' n (inr (omega arith))

replace-kickstart :
    (dir_url url : Text)
    → replace
        (replace
          (text "inst.ks=" ++ autoinstall_url_placeholder)
          autoinstall_dir_url_placeholder
          dir_url)
        autoinstall_url_placeholder
        url
      ≡ text "inst.ks=" ++ url
unfolding replace
replace-kickstart dir_url url = ap (λ t. text "inst.ks=" ++ t) (append-nil url)

module _ (f : MenuEntryFactory) (no_brace : HasNoBrace f.gateway) where
  lacks-authority : lacks b'{' (authority f) ≡ true
  unfolding authority
  lacks-authority =
      lacks-append b'{' (display_ip f.gateway) _ no_brace
        (lacks-decimal b'{' f.http_port (inr (omega arith)))

  lacks-url :
      (path s : Text)
      → lacks b'{' path ≡ true
      → All IsByte s
      → lacks b'{' (text "http://" ++ (authority f ++ (path ++ url_encode_segment s))) ≡ true
  lacks-url path s h k =
      lacks-append b'{' (authority f) _ lacks-authority
        (lacks-append b'{' path _ h (lacks-url_encode_segment s k))

  lacks-autoinstall_url :
      (name script : Text)
      → All IsByte name
      → All IsByte script
      → lacks b'{' (autoinstall_url f name script) ≡ true
  lacks-autoinstall_url name script h k = lacks-append b'{' (authority f) _ lacks-authority (
      lacks-append b'{' (url_encode_segment name) _ (lacks-url_encode_segment name h)
        (lacks-url_encode_segment script k))

  module _ (script : AutoinstallScript) (name : Text) (boot : BootInfo) where
    fill_placeholders_of_lacks :
        (param : Text) → lacks b'{' param ≡ true → fill_placeholders f name script param ≡ param
    unfolding fill_placeholders
    fill_placeholders_of_lacks param h =
        rw (replace_of_lacks b'{' _ _ param h) (replace_of_lacks b'{' _ _ param h)

    fill_placeholders-kickstart :
        fill_placeholders f name script (text "inst.ks=" ++ autoinstall_url_placeholder)
        ≡ text "inst.ks=" ++ autoinstall_url f name script.name
    unfolding fill_placeholders
    fill_placeholders-kickstart =
        replace-kickstart (autoinstall_dir_url f name script.name)
          (autoinstall_url f name script.name)

    fill_placeholders-seed :
        All IsByte name
        → All IsByte script.name
        → fill_placeholders f name script
            (text "ds=nocloud-net\\;s=" ++ autoinstall_dir_url_placeholder)
          ≡ text "ds=nocloud-net\\;s=" ++ autoinstall_dir_url f name script.name
    unfolding fill_placeholders
    fill_placeholders-seed h k = rw first_replace (
        replace_of_lacks b'{' _ _ _ (
          lacks-append b'{' (autoinstall_url f name script.name) (text "/")
            (lacks-autoinstall_url name script.name h k) refl))
      where
        first_replace :
            replace
              (text "ds=nocloud-net\\;s=" ++ autoinstall_dir_url_placeholder)
              autoinstall_dir_url_placeholder
              (autoinstall_dir_url f name script.name)
            ≡ text "ds=nocloud-net\\;s=" ++ autoinstall_dir_url f name script.name
        first_replace = unfold replace in rw append-nil

    -- A RHEL entry with a script.
    filled_params-rhel :
        All IsByte name
        → filled_params f name
            (some script)
            (rhel_boot_params (iso_url f name) (mounted_url f name) boot (some script))
          ≡ text "initrd=initrd.img"
            ∷ (text "inst.repo=" ++ mounted_url f name)
            ∷ (text "inst.ks=" ++ autoinstall_url f name script.name)
            ∷ []
    unfolding filled_params rhel_boot_params
    filled_params-rhel h = rw (
      fill_placeholders_of_lacks (text "initrd=initrd.img") refl,
      fill_placeholders_of_lacks (text "inst.repo=" ++ mounted_url f name)
          (lacks-url (text "/iso-mountpoint/") name refl h),
      fill_placeholders-kickstart,
    )

    -- An Ubuntu entry with a script.
    filled_params-ubuntu :
        All IsByte name
        → All IsByte script.name
        → filled_params f name
            (some script)
            (ubuntu_boot_params (iso_url f name) (mounted_url f name) boot (some script))
          ≡ text "BOOTIF=${net_default_mac}"
            ∷ text "ip=dhcp"
            ∷ (text "url=" ++ iso_url f name)
            ∷ text "autoinstall"
            ∷ (text "ds=nocloud-net\\;s=" ++ autoinstall_dir_url f name script.name)
            ∷ []
    unfolding filled_params ubuntu_boot_params
    filled_params-ubuntu h k = rw (
      fill_bootif,
      fill_placeholders_of_lacks (text "ip=dhcp") refl,
      fill_placeholders_of_lacks (text "url=" ++ iso_url f name)
          (lacks-url (text "/isos/") name refl h),
      fill_placeholders_of_lacks (text "autoinstall") refl,
      fill_placeholders-seed h k,
    )
      where
        fill_bootif :
            fill_placeholders f name script (text "BOOTIF=${net_default_mac}")
            ≡ text "BOOTIF=${net_default_mac}"
        fill_bootif = unfold fill_placeholders replace in refl

    -- A RHEL entry with a script has three kernel parameters: the name of its initrd, the URL of the
    -- mounted tree, and the URL of the seed file in place of the placeholder. An Ubuntu entry with a
    -- script has five, among them the URL of the whole image, and the URL of the seed's directory in
    -- place of the placeholder; the variable of GRUB is left as it is. The gateway's text has no
    -- brace, and both names are made of bytes.
    pub filled_params-seeded :
        All IsByte name
        → All IsByte script.name
        → (filled_params f name
              (some script)
              (rhel_boot_params (iso_url f name) (mounted_url f name) boot (some script))
            ≡ text "initrd=initrd.img"
              ∷ (text "inst.repo=" ++ mounted_url f name)
              ∷ (text "inst.ks=" ++ autoinstall_url f name script.name)
              ∷ [])
          × (filled_params f name
                (some script)
                (ubuntu_boot_params (iso_url f name) (mounted_url f name) boot (some script))
              ≡ text "BOOTIF=${net_default_mac}"
                ∷ text "ip=dhcp"
                ∷ (text "url=" ++ iso_url f name)
                ∷ text "autoinstall"
                ∷ (text "ds=nocloud-net\\;s=" ++ autoinstall_dir_url f name script.name)
                ∷ [])
    filled_params-seeded h k = (filled_params-rhel h, filled_params-ubuntu h k)
