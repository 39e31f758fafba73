-- ===== src/Issues/Tests.antt =====
-- A run of issues.py on an empty registry, and the theorems there.
use proxmoxve_integration.Prelude.{
  ◌≡◌, refl, [], ◌∷◌, true, some, none, inl, list_eq, nat_eq, ℕ_discrete, option_eq,
}
use proxmoxve_integration.Prelude.Dict.{lookup, insert, erase}
use proxmoxve_integration.Prelude.Text.{text, starts_with, ends_with}
use proxmoxve_integration.Issues.Registry.{Issue, IssueRegistry, dict_registry}
use proxmoxve_integration.Issues.{
  Kind, forbidden, nonexistent, ResourceLine, ConfigEntry, Hass, Lines, issue_id, note_resource,
  list_resource, unlist_resource, update_lines, rewrite, touch, forget_stale, forget_untracked,
  forget_entry, sweep_legacy_issues, sweep_from, is_legacy, stale_keys, erase_all,
}
use proxmoxve_integration.Issues.Lines.{kind_eq, Kind-discrete}
use proxmoxve_integration.Issues.InStep.{InStep, forget_untracked-InStep}

opened : Unit {0}
unfolding note_resource list_resource unlist_resource update_lines rewrite touch forget_stale
    forget_untracked forget_entry sweep_legacy_issues sweep_from is_legacy insert erase list_eq
    option_eq ℕ_discrete Kind-discrete kind_eq starts_with ends_with
opened = tt

abbrev registry : IssueRegistry
registry = dict_registry Issue

abbrev home : ConfigEntry
home = record {
  entry_id = text "e";
  username = text "u";
  host = text "h";
  port = text "1";
  ha_admin_username = none;
}

abbrev line : ResourceLine
line = record { label = text "Qemu 100"; permission = text "p"; tracked_as = some (text "100") }

abbrev empty : Hass registry.State
empty = record { lists = []; registry = [] }

empty-InStep : InStep registry home empty
empty-InStep forbidden = refl
empty-InStep nonexistent = refl

abbrev listed : Hass registry.State
listed = note_resource registry home forbidden (text "qemu_100") (some line) true empty

listed-InStep : InStep registry home listed
unfolding opened
listed-InStep forbidden = refl
listed-InStep nonexistent = refl

forget_untracked-InStep_example : InStep registry home (forget_untracked registry home [] listed)
forget_untracked-InStep_example =
    forget_untracked-InStep registry home home [] listed (inl refl) listed-InStep

abbrev lines : Lines
lines = (text "qemu_100", line) ∷ []

-- A legacy repair and one of a command.
abbrev stored : Hass registry.State
stored = record {
  lists = [];
  registry =
      (text "e_100_forbiden", proxmoxve_integration.Issues.issue_of home forbidden lines)
      ∷ (text "e_100_command_forbiden", proxmoxve_integration.Issues.issue_of home forbidden lines)
      ∷ [];
}

runs :
    (lookup (text "e_100_forbiden") (sweep_legacy_issues registry (text "e") stored).registry
      ≡ none)
    × (registry.ids (sweep_legacy_issues registry (text "e") stored).registry
        ≡ text "e_100_command_forbiden" ∷ [])
    × (registry.ids listed.registry ≡ text "e_forbidden" ∷ [])
    × (registry.ids (forget_untracked registry home [] listed).registry ≡ [])
    × (registry.ids (forget_untracked registry home (text "100" ∷ []) listed).registry
        ≡ text "e_forbidden" ∷ [])
unfolding opened
runs = (refl, refl, refl, refl, refl)
