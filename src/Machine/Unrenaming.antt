-- ===== src/Machine/Unrenaming.antt =====
-- A machine on which no path can be renamed.
use nixos_router_module.Base.{List, Option-cases, ap, inl, inr, none, refl, ◌∙◌, ◌≡◌, ◌⊎◌}
use nixos_router_module.Errors.{err, other}
use nixos_router_module.Iso.Links.{LinksFiles}
use nixos_router_module.Iso.Links.Failed.{FailsLinks}
use nixos_router_module.Machine.{machine}
use nixos_router_module.Machine.Links.{
  find_entry-none, find_entry-outside, holds_below-outside, machine_links,
}
use nixos_router_module.Os.{Os}
use nixos_router_module.Paths.{FilePath, strip_path}
use nixos_router_module.Paths.Laws.{strip_path_sound}
use nixos_router_module.Tables.{find_entry, outside}
use nixos_router_module.Text.{text}

abbrev pub unrenaming : Os
unrenaming = record machine {
  rename = λ old new m. (err (record { kind = other; message = text "Read-only" }), m);
}

abbrev pub unrenaming_links : LinksFiles unrenaming
unrenaming_links = record {
  target = machine_links.target;
  link_reads = machine_links.link_reads;
  link_keeps = machine_links.link_keeps;
  create_keeps = machine_links.create_keeps;
  missing = machine_links.missing;
  remove_clears = machine_links.remove_clears;
  remove_keeps = machine_links.remove_keeps;
  rename_moves = λ old new n m h. cc;
}

pub find_entry-taken :
    (p q : FilePath) (links : List (FilePath × FilePath))
    → (find_entry q (outside p links) ≡ find_entry q links)
      ⊎ (find_entry q (outside p links) ≡ none)
find_entry-taken p q links = elim (Option-cases (strip_path q p)) [
  | inl beside ↦ inl (find_entry-outside p q links beside)
  | inr (x, below) ↦ inr (
      ap (λ r. find_entry r (outside p links)) (strip_path_sound q p x below)
      ∙ find_entry-none p x (outside p links) (holds_below-outside p links))
]

abbrev pub unrenaming_fails : FailsLinks unrenaming unrenaming_links
unrenaming_fails = record {
  remove_takes = λ p q m. find_entry-taken p q m.links;
  rename_fails = λ old new q m h. refl;
}
