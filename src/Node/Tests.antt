-- ===== src/Node/Tests.antt =====
-- A node that is not in the listing, one whose listing is empty, and the theorems there.
use proxmoxve_integration.Prelude.{
  ℕ, ◌+◌, ◌≡◌, refl, [], ◌∷◌, ◌==◌, if◌then◌else◌, Option, none, some, inl, list_eq, nat_eq,
  ℕ_discrete, option_eq,
}
use proxmoxve_integration.Prelude.Dict.{insert, erase}
use proxmoxve_integration.Prelude.Text.{
  Text, text, starts_with, split, partition, remove_all, remove_from,
}
use proxmoxve_integration.Json.{Value, str, arr, obj, item, end, field, nil}
use proxmoxve_integration.Const.{type_eq, ProxmoxType-discrete}
use proxmoxve_integration.Api.{Reply, answered}
use proxmoxve_integration.Issues.Registry.{Issue, IssueRegistry, dict_registry}
use proxmoxve_integration.Issues.{
  forbidden, nonexistent, ConfigEntry, note_resource, list_resource, unlist_resource, update_lines,
  rewrite, touch,
}
use proxmoxve_integration.Issues.InStep.{InStep}
use proxmoxve_integration.Poll.{poll_api, read_api, settle, node_of_path, resource_key}
use proxmoxve_integration.Sensors.{nothing_held}
use proxmoxve_integration.Node.{locate}
use proxmoxve_integration.Node.Update.{NodeState, async_update_data}
use proxmoxve_integration.Node.Kept.{async_update_data-InStep, async_update_data-HasMacs}

opened : Unit {0}
unfolding locate poll_api read_api settle node_of_path resource_key note_resource list_resource
    unlist_resource update_lines rewrite touch insert erase starts_with split partition remove_all
    remove_from list_eq option_eq ℕ_discrete type_eq ProxmoxType-discrete
opened = tt

abbrev registry : IssueRegistry
registry = dict_registry Issue

abbrev entry : ConfigEntry
entry = record {
  entry_id = text "e";
  username = text "u";
  host = text "h";
  port = text "8006";
  ha_admin_username = none;
}

abbrev plain : Value → Text
plain v = []

abbrev no_json : Text → Option Value
no_json s = none

abbrev other_node : Value
other_node =
    obj (field (text "node") (str (text "b")) (field (text "status") (str (text "online")) nil))

abbrev reply_to : ℕ → Value
reply_to n = if n == 0 then arr (item other_node end) else arr end

abbrev ask_api : ℕ → Text → Reply Value × ℕ
ask_api n path = (answered (reply_to n), n + 1)

abbrev State : Type 0
State = NodeState plain no_json plain registry ℕ ask_api entry 5 (text "a")

-- The first listing holds another node, the later ones none.
abbrev before : ℕ → State
before n = record {
  polls = record { hass = record { lists = []; registry = [] }; world = n; nodes_off = [] };
  held = nothing_held;
  mac_addresses = some (text "01" ∷ []);
}

before-InStep : InStep registry entry (before 0).polls.hass
before-InStep forbidden = refl
before-InStep nonexistent = refl

async_update_data-InStep_example :
    InStep registry entry
      (async_update_data plain no_json plain registry ℕ ask_api entry 5
        (text "a")
        (before 0)).1.polls.hass
async_update_data-InStep_example =
    async_update_data-InStep plain no_json plain registry ℕ ask_api entry 5 (text "a") entry
      (before 0) (inl refl) before-InStep

async_update_data-HasMacs_example :
    (async_update_data plain no_json plain registry ℕ ask_api entry 5
      (text "a")
      (before 0)).1.mac_addresses
    ≡ some (text "01" ∷ [])
async_update_data-HasMacs_example =
    async_update_data-HasMacs plain no_json plain registry ℕ ask_api entry 5 (text "a")
      (text "01" ∷ []) (before 0) refl
