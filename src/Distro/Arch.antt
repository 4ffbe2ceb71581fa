-- ===== src/Distro/Arch.antt =====
-- distro/arch.rs. No marker has a letter to which a letter outside ASCII is lowered, so the
-- lowering of ASCII letters alone gives the same answers.
use nixos_router_module.Base.{
  List, Option, [], if◌then◌else◌, list_eq, nat_eq, none, some, ◌==◌, ◌∷◌,
}
use nixos_router_module.Text.{Text, contains_text, text, to_lowercase}

abbrev pub markers : List (Text × Text)
markers =
    (text "x86_64", text "x86_64")
    ∷ (text "amd64", text "x86_64")
    ∷ (text "aarch64", text "aarch64")
    ∷ (text "arm64", text "aarch64")
    ∷ (text "ppc64le", text "ppc64le")
    ∷ (text "s390x", text "s390x")
    ∷ (text "i686", text "i686")
    ∷ (text "i386", text "i686")
    ∷ []

-- `find` on the markers, then `map`
pub find_marker : Text → List (Text × Text) → Option Text
find_marker lower [] = none
find_marker lower ((marker, normalized) ∷ rest) =
    let later = find_marker lower rest in
    if contains_text lower marker then some normalized else later

unfoldable pub detect_architecture_from_file_name : Text → Option Text
unfolding find_marker
detect_architecture_from_file_name name = find_marker (to_lowercase name) markers

unfoldable pub to_grub_cpu : Text → Option Text
to_grub_cpu architecture =
    if architecture == text "x86_64"
    then some (text "x86_64")
    else if architecture == text "aarch64"
    then some (text "arm64")
    else if architecture == text "i686"
    then some (text "i386")
    else none
