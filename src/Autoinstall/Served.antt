-- ===== src/Autoinstall/Served.antt =====
-- autoinstall/manager.rs, grub/entry.rs: a seed lies where its URL says.
use nixos_router_module.Base.{All, [], ap, append_assoc, refl, some, ◌++◌, ◌∙◌, ◌∷◌, ◌≡◌}
use nixos_router_module.Autoinstall.{iso_script_dir}
use nixos_router_module.Grub.Decode.{
  IsByte, url_decode, url_decode-append_of_lacks, url_decode-append_url_encode_segment,
  url_decode-url_encode_segment,
}
use nixos_router_module.Grub.Entry.{MenuEntryFactory, authority, autoinstall_url}
use nixos_router_module.Grub.Entry.Encode.{url_encode_segment}
use nixos_router_module.Paths.{FilePath, display_path, join_text_path, normal, strip_path}
use nixos_router_module.Paths.Laws.{strip_path-append}
use nixos_router_module.Paths.Names.{IsName, IsName-of_is_name, join_text_path_name}
use nixos_router_module.Text.{Text, join_text, text}

-- The path of a script of an image, a file or a directory with its seed.
abbrev pub script_dest : FilePath → Text → Text → FilePath
script_dest runtime_root iso_name script_name =
    join_text_path (iso_script_dir runtime_root iso_name) script_name

-- Where a URL of a server at the root of `runtime_root` leads to: the text behind the authority,
-- decoded, is a slash and the path below the root.
abbrev pub Serves : MenuEntryFactory → FilePath → Text → FilePath → Type 0
Serves f runtime_root url path =
    (u : Text) × (q : FilePath) × (url ≡ text "http://" ++ (authority f ++ u))
    × (strip_path path runtime_root ≡ some q)
    × (url_decode u ≡ text "/" ++ display_path q)

served_components : Text → Text → FilePath
served_components iso script = normal (text "unattented-install") ∷ normal iso ∷ normal script ∷ []

unattented-IsName : IsName (text "unattented-install")
unattented-IsName = IsName-of_is_name (text "unattented-install") refl

script_dest_lem :
    (root : FilePath) (iso script : Text)
    → IsName iso
    → IsName script
    → script_dest root iso script ≡ root ++ served_components iso script
unfolding served_components
script_dest_lem root iso script h k =
    join_text_path_name _ script k
    ∙ (ap (λ p. p ++ normal script ∷ []) (join_text_path_name _ iso h)
        ∙ (ap (λ p. (p ++ normal iso ∷ []) ++ normal script ∷ [])
              (join_text_path_name root _ unattented-IsName)
            ∙ ap (λ p. p ++ normal script ∷ []) (append_assoc root _ (normal iso ∷ []))
            ∙ append_assoc root _ (normal script ∷ [])))

decode_seed :
    (iso script : Text)
    → All IsByte iso
    → All IsByte script
    → url_decode (
        text "/unattented-install/"
        ++ (url_encode_segment iso ++ (text "/" ++ url_encode_segment script)))
      ≡ text "/unattented-install/" ++ (iso ++ (text "/" ++ script))
decode_seed iso script h k =
    url_decode-append_of_lacks (text "/unattented-install/") _ refl
    ∙ ap (λ t. text "/unattented-install/" ++ t)
        (url_decode-append_url_encode_segment iso _ h
          ∙ ap (λ t. iso ++ t)
              (url_decode-append_of_lacks (text "/") _ refl
                ∙ ap (λ t. text "/" ++ t) (url_decode-url_encode_segment script k)))

-- The URL of a script leads to the path to which the manager copies the script, or under which it
-- writes the seed of an Ubuntu image, if both names are bytes and each is the name of one path
-- component.
pub autoinstall_url-Serves :
    (f : MenuEntryFactory) (runtime_root : FilePath) (iso script : Text)
    → IsName iso
    → IsName script
    → All IsByte iso
    → All IsByte script
    → Serves f runtime_root (autoinstall_url f iso script) (script_dest runtime_root iso script)
unfolding display_path join_text served_components
autoinstall_url-Serves f root iso script iso_name script_name h k = (
  text "/unattented-install/"
      ++ (url_encode_segment iso ++ (text "/" ++ url_encode_segment script)),
  served_components iso script,
  refl,
  ap (λ p. strip_path p root) (script_dest_lem root iso script iso_name script_name)
      ∙ strip_path-append root (served_components iso script),
  decode_seed iso script h k,
)
