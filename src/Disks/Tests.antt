-- ===== src/Disks/Tests.antt =====
-- The report of a disk as text, and an API that lists a disk and refuses its report.
use proxmoxve_integration.Prelude.{
  ℕ, ◌+◌, ◌≡◌, List, [], ◌∷◌, ◌++◌, ◌==◌, if◌then◌else◌, none, list_eq, nat_eq, ℕ_discrete,
  option_eq,
}
use proxmoxve_integration.Prelude.Dict.{lookup, insert, erase}
use proxmoxve_integration.Prelude.Int.{pos}
use proxmoxve_integration.Prelude.Text.{
  Text, text, starts_with, split, partition, remove_all, remove_from,
}
use proxmoxve_integration.Json.{Value, str, arr, obj, int, item, end, Fields, field, nil, dicts}
use proxmoxve_integration.Const.{type_eq, ProxmoxType-discrete}
use proxmoxve_integration.Api.{api_error, Reply, answered, failed}
use proxmoxve_integration.Issues.Registry.{Issue, IssueRegistry, dict_registry}
use proxmoxve_integration.Issues.{
  ConfigEntry, note_resource, list_resource, unlist_resource, update_lines, rewrite, touch,
}
use proxmoxve_integration.Poll.{State, poll_api, read_api, settle, node_of_path, resource_key}
use proxmoxve_integration.Disk.{disk_matches_id, usable_wwn}
use proxmoxve_integration.Smart.{parse_smart_text, parse_smart_attributes}
use proxmoxve_integration.Disks.{disk_data}
use proxmoxve_integration.Disks.Readings.{last_reading, lookup-parse_smart_attributes}

opened : Unit {0}
unfolding poll_api read_api settle node_of_path resource_key note_resource list_resource
    unlist_resource update_lines rewrite touch insert erase starts_with split partition remove_all
    remove_from list_eq option_eq ℕ_discrete type_eq ProxmoxType-discrete disk_matches_id usable_wwn
    disk_data
opened = tt

abbrev report : List Value
report = parse_smart_text (text "Temperature:  36 (Min/Max 20/45)" ++ b'\n' ∷ text "Temperature: -")

lookup-parse_smart_attributes_example :
    lookup (text "temperature") (parse_smart_attributes report)
    ≡ last_reading (text "temperature") (dicts report)
lookup-parse_smart_attributes_example = lookup-parse_smart_attributes (text "temperature") report

abbrev registry : IssueRegistry
registry = dict_registry Issue

abbrev entry : ConfigEntry
entry = record {
  entry_id = text "e";
  username = text "u";
  host = text "h";
  port = text "8006";
  ha_admin_username = none;
}

abbrev plain : Value → Text
plain v = []

abbrev row : Fields
row = field (text "devpath") (str (text "/dev/sda")) (
    field (text "serial") (str (text "S1"))
      (field (text "type") (str (text "ssd")) (field (text "size") (int (pos 512)) nil)))

abbrev reply_to : ℕ → Reply Value
reply_to n =
    if n == 0 then answered (arr (item (obj row) end)) else failed (api_error 403 (text "no"))

abbrev ask_api : ℕ → Text → Reply Value × ℕ
ask_api n path = (reply_to n, n + 1)

abbrev start : State registry ℕ ask_api
start = record { hass = record { lists = []; registry = [] }; world = 0; nodes_off = [] }
