-- ===== src/Iso/Served.antt =====
-- iso/mount.rs, iso/serve_tree.rs, grub/entry.rs: images lie where their URLs say.
use nixos_router_module.Base.{
  All, [], ap, append_assoc, list_eq, nat_eq, refl, true, ◌++◌, ◌∙◌, ◌∷◌, ◌≡◌,
}
use nixos_router_module.Autoinstall.Served.{Serves}
use nixos_router_module.Grub.Decode.{
  IsByte, url_decode, url_decode-append_of_lacks, url_decode-url_encode_segment,
}
use nixos_router_module.Grub.Entry.{MenuEntryFactory, authority, iso_url, mounted_url}
use nixos_router_module.Grub.Entry.Encode.{url_encode_segment}
use nixos_router_module.Iso.Mounter.{mount_path}
use nixos_router_module.Iso.ServeTree.{isos_dir}
use nixos_router_module.Paths.{FilePath, display_path, join_text_path, normal, strip_path}
use nixos_router_module.Paths.Laws.{strip_path-append}
use nixos_router_module.Paths.Names.{IsName, IsName-of_is_name, join_text_path_name}
use nixos_router_module.Text.{Text, join_text, text}
use nixos_router_module.Text.Replace.{lacks}

-- A directory below the root and one name in it.
below_root : Text → Text → FilePath
below_root dir name = normal dir ∷ normal name ∷ []

below_root_lem :
    (root : FilePath) (dir name : Text)
    → IsName dir
    → IsName name
    → join_text_path (join_text_path root dir) name ≡ root ++ below_root dir name
unfolding below_root
below_root_lem root dir name h k =
    join_text_path_name _ name k
    ∙ (ap (λ p. p ++ normal name ∷ []) (join_text_path_name root dir h)
        ∙ append_assoc root (normal dir ∷ []) (normal name ∷ []))

decode_below :
    (dir name : Text)
    → lacks b'%' (text "/" ++ (dir ++ text "/")) ≡ true
    → All IsByte name
    → url_decode ((text "/" ++ (dir ++ text "/")) ++ url_encode_segment name)
      ≡ (text "/" ++ (dir ++ text "/")) ++ name
decode_below dir name h k =
    url_decode-append_of_lacks (text "/" ++ (dir ++ text "/")) _ h
    ∙ ap (λ t. (text "/" ++ (dir ++ text "/")) ++ t) (url_decode-url_encode_segment name k)

below_root-Serves :
    (f : MenuEntryFactory) (root : FilePath) (dir name : Text)
    → IsName dir
    → IsName name
    → lacks b'%' (text "/" ++ (dir ++ text "/")) ≡ true
    → All IsByte name
    → Serves f root
        (text "http://"
          ++ (authority f ++ ((text "/" ++ (dir ++ text "/")) ++ url_encode_segment name)))
        (join_text_path (join_text_path root dir) name)
unfolding display_path join_text below_root
below_root-Serves f root dir name h k plain bytes = (
  _,
  below_root dir name,
  refl,
  ap (λ p. strip_path p root) (below_root_lem root dir name h k)
      ∙ strip_path-append root (below_root dir name),
  decode_below dir name plain bytes ∙ ap (λ t. b'/' ∷ t) (append_assoc dir (text "/") name),
)

mountpoint-IsName : IsName (text "iso-mountpoint")
mountpoint-IsName = IsName-of_is_name (text "iso-mountpoint") refl

pub isos-IsName : IsName (text "isos")
isos-IsName = IsName-of_is_name (text "isos") refl

-- The URL of the mounted tree of an image leads to the mount point of the image, and the URL of the
-- whole image to its link in the serving tree, if the file name is bytes and the name of one path
-- component.
pub image_urls-Serves :
    (f : MenuEntryFactory) (root : FilePath) (name : Text)
    → IsName name
    → All IsByte name
    → Serves f root (mounted_url f name) (mount_path root name)
      × Serves f root (iso_url f name) (join_text_path (isos_dir root) name)
unfolding mount_path
image_urls-Serves f root name h bytes = (
  below_root-Serves f root (text "iso-mountpoint") name mountpoint-IsName h refl bytes,
  below_root-Serves f root (text "isos") name isos-IsName h refl bytes,
)
