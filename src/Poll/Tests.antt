-- ===== src/Poll/Tests.antt =====
-- Runs of `poll_api` against an API that counts its requests, and the theorems there.
use proxmoxve_integration.Prelude.{
  ℕ, ◌+◌, ◌≡◌, refl, [], ◌∷◌, true, false, not, some, none, inl, list_eq, nat_eq, ℕ_discrete,
  option_eq, ◌==◌, ◌&&◌, ◌++◌, if◌then◌else◌,
}
use proxmoxve_integration.Prelude.Dict.{lookup, insert, erase}
use proxmoxve_integration.Prelude.Text.{
  Text, text, starts_with, split, partition, remove_all, remove_from, strip_by, lstrip_by,
  rstrip_by, digits_value, last_part,
}
use proxmoxve_integration.Json.{Value, null}
use proxmoxve_integration.Const.{ProxmoxType, type_eq, ProxmoxType-discrete}
use proxmoxve_integration.Api.{auth_error, api_error, Reply, answered, failed}
use proxmoxve_integration.Storage.{storage_name}
use proxmoxve_integration.Issues.Registry.{Issue, IssueRegistry, dict_registry}
use proxmoxve_integration.Issues.{
  forbidden, nonexistent, ConfigEntry, note_resource, list_resource, unlist_resource, update_lines,
  rewrite, touch,
}
use proxmoxve_integration.Issues.Lines.{lines_at}
use proxmoxve_integration.Issues.InStep.{InStep}
use proxmoxve_integration.Poll.{
  data_read, Read, State, poll_api, read_api, settle, refused, is_offline, auth_error_status,
  status_in, node_of_path, resource_key, resource_label, refused_line, permission_to_resource,
}
use proxmoxve_integration.Poll.Laws.{asks_for_login, credentials_refused, asks_for_login-poll_api}
use proxmoxve_integration.Poll.Repairs.{poll_api-InStep, poll_api_answered}

opened : Unit {0}
unfolding poll_api read_api settle refused auth_error_status status_in node_of_path resource_key
    resource_label refused_line permission_to_resource note_resource list_resource unlist_resource
    update_lines rewrite touch insert erase list_eq option_eq ℕ_discrete starts_with split partition
    remove_all remove_from strip_by lstrip_by rstrip_by digits_value last_part storage_name type_eq
    ProxmoxType-discrete
opened = tt

abbrev registry : IssueRegistry
registry = dict_registry Issue

abbrev entry : ConfigEntry
entry = record {
  entry_id = text "e";
  username = text "u";
  host = text "h";
  port = text "8006";
  ha_admin_username = none;
}

-- The first request finds the node busy; the paths of the node "b" are refused.
abbrev reply_to : ℕ → Text → Reply Value
reply_to n path =
    if n == 0
    then failed (api_error 596 (text "busy"))
    else if path == text "nodes/b/status"
    then failed (api_error 403 (text "no"))
    else answered null

abbrev ask : ℕ → Text → Reply Value × ℕ
ask n path = (reply_to n path, n + 1)

abbrev read_of : Text → Read
read_of node = record {
  api_path = text "nodes/" ++ (node ++ text "/status");
  api_category = ProxmoxType.node;
  resource_id = some node;
  issue_create_permissions = true;
}

abbrev start : State registry ℕ ask
start = record { hass = record { lists = []; registry = [] }; world = 0; nodes_off = text "c" ∷ [] }

start-InStep : InStep registry entry start.hass
start-InStep forbidden = refl
start-InStep nonexistent = refl

poll_api-InStep_example :
    InStep registry entry (poll_api registry ℕ ask entry (read_of (text "b")) start).1.hass
poll_api-InStep_example =
    poll_api-InStep registry ℕ ask entry entry (read_of (text "b")) start (inl refl) start-InStep

a_on : is_offline registry ℕ ask (read_of (text "a")) start ≡ false
unfolding opened
a_on = refl

a_answered : (read_api registry ℕ ask 0 (text "nodes/a/status")).0 ≡ answered null
unfolding opened
a_answered = refl

c_off : is_offline registry ℕ ask (read_of (text "c")) start ≡ true
unfolding opened
c_off = refl

poll_api_answered_example :
    let after = poll_api registry ℕ ask entry (read_of (text "a")) start in
    (after.0 ≡ data_read null)
    × (lookup
          (resource_key ProxmoxType.node (some (text "a")))
          (lines_at registry (text "e") forbidden after.1.hass)
        ≡ none)
poll_api_answered_example =
    poll_api_answered registry ℕ ask entry (read_of (text "a")) start null a_on a_answered

asks_for_login-poll_api_example :
    asks_for_login (poll_api registry ℕ ask entry (read_of (text "b")) start).0 ≡ (
      not (is_offline registry ℕ ask (read_of (text "b")) start)
      && credentials_refused (read_api registry ℕ ask 0 (text "nodes/b/status")).0)
asks_for_login-poll_api_example =
    asks_for_login-poll_api registry ℕ ask entry (read_of (text "b")) start

runs :
    ((poll_api registry ℕ ask entry (read_of (text "b")) start).1.world ≡ 2)
    × (resource_key ProxmoxType.node (some (text "b")) ≡ text "node_b")
    × ((refused_line entry
          (text "nodes/b/disks/smart?disk=1")
          ProxmoxType.disk
          (some (text "b"))).permission
        ≡ text "['perm','/',['Sys.Audit']]")
    × ((refused_line entry
          (text "nodes/b/apt/update")
          ProxmoxType.update
          (some (text "Update b"))).label
        ≡ text "Update b")
    × (auth_error_status (auth_error (text "refused: Code 401")) ≡ some 401)
    × (auth_error_status (auth_error (text "refused: Code x")) ≡ none)
unfolding opened
runs = (refl, refl, refl, refl, refl, refl)
