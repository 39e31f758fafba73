-- ===== src/Resources/Tests.antt =====
-- Runs of the shared read against an API with one node that is off, and the theorems there.
use proxmoxve_integration.Prelude.{
  ℕ, ◌+◌, ◌≡◌, refl, List, [], ◌∷◌, Bool, true, false, some, none, list_eq, nat_eq, ℕ_discrete, any,
  contains, leb, ◌||◌,
}
use proxmoxve_integration.Prelude.Text.{Text, text, split, partition}
use proxmoxve_integration.Prelude.Sets.{add, set_of}
use proxmoxve_integration.Json.{Value, Values, Fields, str, arr, obj, item, end, field, nil}
use proxmoxve_integration.Const.{ProxmoxType}
use proxmoxve_integration.Api.{Reply, answered}
use proxmoxve_integration.Issues.Registry.{Issue, IssueRegistry, dict_registry}
use proxmoxve_integration.Issues.{ConfigEntry, note_resource, unlist_resource, touch}
use proxmoxve_integration.Poll.{
  update_failed, Read, State, poll_api, read_api, settle, node_of_path, offline_message,
}
use proxmoxve_integration.Resources.{
  resources_ttl, Shared, nothing_read, Listing, listed, serve, keep_rows, read_afresh, get_rows,
  note_nodes, nodes_not_online,
}
use proxmoxve_integration.Resources.Laws.{is_kept, reports_off, get_rows_burst, poll_api-note_nodes}

opened : Unit {0}
unfolding poll_api read_api settle node_of_path note_resource unlist_resource touch serve keep_rows
    read_afresh get_rows note_nodes nodes_not_online add set_of list_eq ℕ_discrete split partition
    proxmoxve_integration.Prelude.Dict.insert proxmoxve_integration.Poll.resource_key
opened = tt

abbrev registry : IssueRegistry
registry = dict_registry Issue

abbrev entry : ConfigEntry
entry = record {
  entry_id = text "e";
  username = text "u";
  host = text "h";
  port = text "8006";
  ha_admin_username = none;
}

abbrev plain : Value → Text
plain v = []

abbrev node_row : Text → Text → Fields
node_row node status =
    field (text "type") (str (text "node"))
      (field (text "node") (str node) (field (text "status") (str status) nil))

abbrev rows : List Fields
rows = node_row (text "a") (text "online") ∷ node_row (text "b") (text "offline") ∷ []

abbrev listing : Values
listing =
    item (obj (node_row (text "a") (text "online")))
      (item (obj (node_row (text "b") (text "offline"))) end)

abbrev ask : ℕ → Text → Reply Value × ℕ
ask n path = (answered (arr listing), n + 1)

abbrev start : State registry ℕ ask
start = record { hass = record { lists = []; registry = [] }; world = 0; nodes_off = [] }

abbrev first : Listing × (Shared × State registry ℕ ask)
first = get_rows plain registry ℕ ask entry 5000 5100 none false nothing_read start

first_kept : is_kept first.0 ≡ true
unfolding opened
first_kept = refl

get_rows_burst_example :
    (first.0 ≡ serve none first.1.0)
    × ((start2 now2 : ℕ) (type2 : _)
        → leb (5100 + resources_ttl) start2 ≡ false
        → get_rows plain registry ℕ ask entry start2 now2 type2 false first.1.0 first.1.1
          ≡ (serve type2 first.1.0, first.1))
get_rows_burst_example =
    get_rows_burst plain registry ℕ ask entry 5000 5100 none false nothing_read start refl
      first_kept

abbrev read_b : Read
read_b = record {
  api_path = text "nodes/b/status";
  api_category = ProxmoxType.node;
  resource_id = some (text "b");
  issue_create_permissions = true;
}

abbrev noted : State registry ℕ ask
noted = record { hass = start.hass; world = 0; nodes_off = text "b" ∷ [] }

b_noted : note_nodes plain registry ℕ ask (arr listing) start ≡ some noted
unfolding opened
b_noted = refl

b_named : proxmoxve_integration.Prelude.is_empty (node_of_path read_b.api_path none) ≡ false
unfolding opened
b_named = refl

b_off : any (reports_off plain (node_of_path read_b.api_path none)) rows ≡ true
unfolding opened
b_off = refl

poll_api-note_nodes_example :
    poll_api registry ℕ ask entry read_b noted
    ≡ (update_failed (offline_message (node_of_path read_b.api_path none)), noted)
poll_api-note_nodes_example =
    poll_api-note_nodes plain registry ℕ ask entry listing rows read_b start noted refl b_noted
      b_named b_off

runs :
    (first.1.1.world ≡ 1)
    × (first.1.1.nodes_off ≡ text "b" ∷ [])
    × (first.1.0.read_due ≡ 20100)
    × ((get_rows plain registry ℕ ask entry 20099 20099
          (some (text "qemu"))
          false
          first.1.0
          first.1.1).0
        ≡ listed (some []))
    × ((get_rows plain registry ℕ ask entry 20100 20100 none false first.1.0 first.1.1).1.1.world
        ≡ 2)
unfolding opened
runs = (refl, refl, refl, refl, refl)
