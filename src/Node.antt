-- ===== src/Node.antt =====
-- coordinator.py: one update of the coordinator of a node. `json.loads` and `json.dumps` are parameters,
-- `none` where the text is no JSON. `none` of a figure is `UNDEFINED`.
pub mod Update
pub mod Kept
mod Tests
use proxmoxve_integration.Prelude.{
  ℕ, List, [], ◌∷◌, ◌++◌, Bool, true, false, not, Option, none, some, ◌==◌, if◌then◌else◌, list_eq,
  nat_eq, length, any,
}
use proxmoxve_integration.Prelude.Dict.{Dict}
use proxmoxve_integration.Prelude.Float.{Float}
use proxmoxve_integration.Prelude.Text.{Text, text}
use proxmoxve_integration.Json
use proxmoxve_integration.Json.{
  Value, null, str, arr, obj, Fields, nil, field, find, get, fields?, is_text, truthy, iterate,
  elements, str_of, put,
}
use proxmoxve_integration.Const.{ProxmoxType, type_capital}
use proxmoxve_integration.Api.{Reply}
use proxmoxve_integration.Issues.Registry.{IssueRegistry}
use proxmoxve_integration.Issues.{forbidden, ResourceLine, ConfigEntry, note_resource}
use proxmoxve_integration.Poll.{Read, State, poll_api, within, resource_key}
use proxmoxve_integration.Sensors
use proxmoxve_integration.Sensors.{Readings, Held, hold_last_sensors}
use proxmoxve_integration.Hardware.{
  parse_load_average, readings_of, parse_sensors_dict, parse_mac_addresses,
}
use proxmoxve_integration.Coordinators.Monad.{
  Result, done, Action, pure, fail, crash, or_crash, answer_of, ◌>>=◌,
}
use proxmoxve_integration.Coordinators.{is_null, read_for, node_path}

pub record ProxmoxNodeData : Type 0 where
  pub model : Option Value
  pub status : Value
  pub version : Option Value
  pub uptime : Option Value
  pub cpu : Option Value
  pub io_wait : Option Value
  pub load_average : Option (Float × Float × Float)
  pub cpus : Option Value
  pub disk_total : Option Value
  pub disk_used : Option Value
  pub memory_total : Option Value
  pub memory_used : Option Value
  pub memory_free : Option Value
  pub swap_total : Option Value
  pub swap_free : Option Value
  pub swap_used : Option Value
  pub qemu_on : ℕ
  pub qemu_on_list : Option (List Text)
  pub lxc_on : ℕ
  pub lxc_on_list : Option (List Text)
  pub sensors : Readings
  pub mac_addresses : List Text

-- `key in v`; `none` for a `TypeError`.
abbrev pub key_in : Text → Value → Option Bool
key_in key (obj fs) = some (Json.has key fs)
key_in key (str s) = some (within key s)
key_in key (arr vs) = some (any (is_text key) (elements vs))
key_in key _ = none

-- `v[key]`, of a text
abbrev pub item_of : Text → Value → Option Value
item_of key (obj fs) = find key fs
item_of key _ = none

-- `d[outer][inner] if outer in d and inner in d[outer] else UNDEFINED`; the outer option is an exception.
abbrev pub inner_of : Text → Value → Bool → Option (Option Value)
inner_of inner v false = some none
inner_of inner v true = elim (item_of inner v) [ none ↦ none | some w ↦ some (some w) ]

abbrev pub nested : Text → Text → Fields → Option (Option Value)
nested outer inner fs = elim (find outer fs) [
  | none ↦ some none
  | some v ↦ elim (key_in inner v) [ none ↦ none | some there ↦ inner_of inner v there ]
]

-- Where a node stands in the listing: nowhere, or with its status and its row.
pub data Located : Type 0 where
  missing : Located
  at_row : Value → Fields → Located

-- The first row of the node. `none` where a row is no dict or lacks a key that is read.
unfoldable pub locate : Text → List Value → Option Located
locate node [] = some missing
locate node (v ∷ vs) =
    let rest = locate node vs in
    elim (fields? v) [
      | none ↦ none
      | some row ↦ elim (find (text "node") row) [
        | none ↦ none
        | some name ↦
            if is_text node name
            then elim (find (text "status") row) [
              | none ↦ none
              | some status ↦ some (at_row status row)
            ]
            else rest
      ]
    ]

-- `f"{guest['name']} ({guest['vmid']})"`
abbrev pub guest_line : (Value → Text) → Value → Option Text
guest_line repr guest = elim (item_of (text "name") guest) [
  | none ↦ none
  | some name ↦ elim (item_of (text "vmid") guest) [
    | none ↦ none
    | some vmid ↦ some (str_of repr name ++ (text " (" ++ (str_of repr vmid ++ text ")")))
  ]
]

-- `guest["status"] == "running"`; a VM without a status is passed over, a container without one raises.
abbrev pub qemu_running : Value → Option Bool
qemu_running guest = elim (key_in (text "status") guest) [
  | none ↦ none
  | some there ↦
      if there
      then elim (item_of (text "status") guest) [
        | none ↦ none
        | some status ↦ some (is_text (text "running") status)
      ]
      else some false
]

abbrev pub lxc_running : Value → Option Bool
lxc_running guest = elim (item_of (text "status") guest) [
  | none ↦ none
  | some status ↦ some (is_text (text "running") status)
]

abbrev pub with_line : Option Text → Option (List Text) → Option (List Text)
with_line none rest = none
with_line (some line) none = none
with_line (some line) (some lines) = some (line ∷ lines)

-- The lines of the guests that run.
unfoldable pub running_guests :
    (Value → Text) → (Value → Option Bool) → List Value → Option (List Text)
running_guests repr runs [] = some []
running_guests repr runs (guest ∷ guests) =
    let rest = running_guests repr runs guests in
    elim (runs guest) [
      | none ↦ none
      | some up ↦ if up then with_line (guest_line repr guest) rest else rest
    ]

-- What is read of a node: its status, with its row's figures, and, only of a node that is online, its
-- version and its guests.
pub record NodeRead : Type 0 where
  pub api_status : Fields
  pub version : Option Value
  pub qemu : Option (List Text)
  pub lxc : Option (List Text)

abbrev pub nothing_read : NodeRead
nothing_read = record { api_status = nil; version = none; qemu = none; lxc = none }

abbrev pub iterated : Value → Option (List Value)
iterated v = if is_null v then some [] else iterate v

-- The status with the figures of the row; `none` for a `KeyError`.
abbrev pub with_row : Fields → Fields → Option Fields
with_row row status = elim (find (text "status") row) [
  | none ↦ none
  | some state ↦ elim (find (text "cpu") row) [
    | none ↦ none
    | some cpu ↦ elim (find (text "maxdisk") row) [
      | none ↦ none
      | some total ↦ elim (find (text "disk") row) [
        | none ↦ none
        | some used ↦ some (
            put (text "disk_used") used (
              put (text "disk_max") total
                (put (text "cpu") cpu (put (text "status") state status))))
      ]
    ]
  ]
]

abbrev pub sensor_fields : List Text
sensor_fields =
    text "PveMods_SensorInfo" ∷ text "PveMods_JsonSensorInfo" ∷ text "PveMod_JsonSensorInfo" ∷ []

abbrev pub first_dict : List Text → Fields → Option Fields
first_dict [] status = none
first_dict (name ∷ names) status = elim (fields? (get name status)) [
  | none ↦ first_dict names status
  | some fs ↦ some fs
]

abbrev pub is_no_fields : Fields → Bool
is_no_fields nil = true
is_no_fields (field k v fs) = false

abbrev pub readings_from : Option Fields → Value → Readings
readings_from none raw = record { sensors = []; sensors_raw = raw }
readings_from (some chips) raw = record { sensors = parse_sensors_dict chips; sensors_raw = raw }

module _ (loads : Text → Option Value) (dumps : Value → Text) where
  abbrev pub loaded : Value → Option Fields
  loaded (str s) = elim (loads s) [ none ↦ none | some v ↦ fields? v ]
  loaded _ = none

  -- The hardware readings that a status carries.
  unfoldable pub sensors_of : Fields → Readings
  sensors_of status =
      let output = get (text "sensorsOutput") status in
      if truthy output
      then readings_from (loaded output) output
      else elim (first_dict sensor_fields status) [
        | none ↦ Sensors.no_readings
        | some payload ↦
            let chips = readings_of payload in
            if is_no_fields chips
            then Sensors.no_readings
            else readings_from (some chips) (str (dumps (obj chips)))
      ]
