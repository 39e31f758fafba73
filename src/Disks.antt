-- ===== src/Disks.antt =====
-- coordinator.py: the update of the disk coordinator.
pub mod Readings
pub mod Unread
mod Tests
use proxmoxve_integration.Prelude.{
  ℕ, ◌+◌, ◌*◌, ◌-◌, List, [], ◌∷◌, ◌++◌, Bool, true, false, Option, none, some, ◌==◌, ◌||◌, ◌&&◌,
  not, if◌then◌else◌, leb, list_eq, nat_eq, contains, any, collect, length, drop, is_empty, map,
}
use proxmoxve_integration.Prelude.Dict.{Dict, insert, lookup}
use proxmoxve_integration.Prelude.Float.{Float}
use proxmoxve_integration.Prelude.Int.{ℤ, pos, negsuc}
use proxmoxve_integration.Prelude.Text.{
  Text, text, starts_with, strip_by, lstrip_by, is_space, split, partition, remove_all,
  is_digit_char,
}
use proxmoxve_integration.Json
use proxmoxve_integration.Json.{
  Value, null, bool, int, float, str, arr, obj, Fields, nil, field, find, get, text?, is_text,
  elements, dicts, iterate, str_of, float_of,
}
use proxmoxve_integration.Const.{ProxmoxType}
use proxmoxve_integration.Api.{Reply}
use proxmoxve_integration.Issues.Registry.{IssueRegistry}
use proxmoxve_integration.Issues.{ConfigEntry}
use proxmoxve_integration.Poll.{State, poll_api, within}
use proxmoxve_integration.Disk.{Disk, disk_of, disk_matches_id}
use proxmoxve_integration.Coordinators.{is_null, read_for, node_path}
use proxmoxve_integration.Coordinators.Monad.{
  Result, done, Action, pure, fail, or_crash, recover, answer_of, ◌>>=◌,
}
use proxmoxve_integration.Smart.{parse_smart_text, parse_smart_attributes}

pub record ProxmoxDiskData : Type 0 where
  pub node : Text
  pub disk_id : Text
  pub path : Value
  pub serial : Value
  pub model : Value
  pub vendor : Value
  pub disk_type : Value
  pub size : Option Float
  pub health : Option Value
  pub disk_rpm : Option Float
  pub readings : Dict Text ℤ
  pub disk_wearout : Option Float
  pub wwn : Value

-- `s.upper()`, of the ASCII letters
abbrev pub upper_char : ℕ → ℕ
upper_char c = if leb 97 c && leb c 122 then c - 32 else c

abbrev pub upper : Text → Text
upper s = map upper_char s

abbrev pub solid_state : List Text
solid_state = text "SSD" ∷ text "NVME" ∷ []

abbrev pub without_rpm : List Text
without_rpm = text "SSD" ∷ text "NVME" ∷ text "USB" ∷ []

-- The attributes of a SMART report; `none` is the exception of a report of another shape.
unfoldable pub smart_attributes : Value → Option (List Value)
smart_attributes null = some []
smart_attributes (obj fs) =
    if Json.has (text "attributes") fs
    then iterate (get (text "attributes") fs)
    else if is_text (text "text") (get (text "type") fs)
    then elim (text? (get (text "text") fs)) [ none ↦ none | some s ↦ some (parse_smart_text s) ]
    else some []
smart_attributes (arr vs) =
    if any (is_text (text "attributes")) (elements vs) || any (is_text (text "type")) (elements vs)
    then none
    else some []
smart_attributes (str s) =
    if within (text "attributes") s || within (text "type") s then none else some []
smart_attributes _ = none

-- `float(v)`; the outer `none` is the exception.
abbrev pub as_float : Option Float → Option (Option Float)
as_float none = none
as_float (some x) = some (some x)

-- `float(v)` of a value that is there and of a type that passes a test; the test, which upper cases the type,
-- raises where there is no type.
abbrev pub float_under : (Text → Bool) → Option Value → Option Text → Option (Option Float)
float_under test none t = some none
float_under test (some v) none = none
float_under test (some v) (some t) = if test (upper t) then as_float (float_of v) else some none

abbrev pub size_as : Option Value → Option (Option Float)
size_as none = some none
size_as (some v) = as_float (float_of v)

module _ (repr : Value → Text) where
  abbrev pub float_where : Text → (Text → Bool) → Value → Fields → Option (Option Float)
  float_where key test disk_type fs = float_under test (find key fs) (text? disk_type)

  abbrev pub wearout_of : Value → Fields → Option (Option Float)
  wearout_of disk_type fs =
      float_where (text "wearout")
        (λ t.
          contains solid_state t
          && not (upper (str_of repr (get (text "wearout") fs)) == text "N/A"))
        disk_type fs

  abbrev pub size_of : Fields → Option (Option Float)
  size_of fs = size_as (find (text "size") fs)

  abbrev pub rpm_of : Value → Fields → Option (Option Float)
  rpm_of disk_type fs = float_where (text "rpm") (λ t. not (contains without_rpm t)) disk_type fs

  -- What is kept of a disk's row and its SMART readings.
  unfoldable pub disk_data : Text → Text → Value → Fields → Dict Text ℤ → Option ProxmoxDiskData
  disk_data node id path fs readings =
      let disk_type = get (text "type") fs in
      elim (wearout_of disk_type fs) [
        | none ↦ none
        | some wearout ↦ elim (size_of fs) [
          | none ↦ none
          | some size ↦ elim (rpm_of disk_type fs) [
            | none ↦ none
            | some rpm ↦ some (record {
              node = node;
              disk_id = id;
              path = path;
              serial = get (text "serial") fs;
              model = get (text "model") fs;
              vendor = get (text "vendor") fs;
              disk_type = disk_type;
              size = size;
              health = find (text "health") fs;
              disk_rpm = rpm;
              readings = readings;
              disk_wearout = wearout;
              wwn = get (text "wwn") fs;
            })
          ]
        ]
      ]

  module _ (R : IssueRegistry) (W : Type 0) (request : W → Text → Reply Value × W)
      (entry : ConfigEntry) (node : Text) (id : Text) where
    abbrev pub Update : Type 0 → Type 0
    Update A = Action (State R W request) A

    abbrev pub ask : Text → Update Value
    ask path s =
        let (outcome, after) = poll_api R W request entry (read_for path ProxmoxType.disk id) s in
        (answer_of outcome, after)

    -- The SMART report, or nothing where its read ends in an `UpdateFailed`.
    abbrev pub ask_smart : Value → Update Value
    ask_smart devpath s =
        let (answer, after) =
          ask (node_path node (text "/disks/smart?disk=" ++ str_of repr devpath)) s in
        recover answer (pure null) after

    unfoldable pub read_disk : Fields → Update ProxmoxDiskData
    read_disk fs = do
      devpath ← or_crash (find (text "devpath") fs)
      report ← ask_smart devpath
      attributes ← or_crash (smart_attributes report)
      or_crash (disk_data node id devpath fs (parse_smart_attributes attributes))

    -- The first row that is the disk; a row that is no dict raises.
    abbrev pub find_row : List Value → Option (Option Fields)
    find_row [] = some none
    find_row (obj fs ∷ rows) =
        let rest = find_row rows in
        elim (disk_of (obj fs)) [
          | none ↦ none
          | some d ↦ if disk_matches_id d id then some (some fs) else rest
        ]
    find_row (v ∷ rows) = none

    abbrev pub unread_disk : ProxmoxDiskData
    unread_disk = record {
      node = node;
      disk_id = id;
      path = null;
      serial = null;
      model = null;
      vendor = null;
      disk_type = null;
      size = none;
      health = none;
      disk_rpm = none;
      readings = [];
      disk_wearout = none;
      wwn = null;
    }

    abbrev pub found_disk : Option Fields → Update ProxmoxDiskData
    found_disk none =
        fail (text "Disk " ++ (id ++ (text " not found on node " ++ (node ++ text "."))))
    found_disk (some fs) = read_disk fs

    abbrev pub listed_disks : Value → Update ProxmoxDiskData
    listed_disks api_status = do
      rows ← or_crash (iterate api_status)
      row ← or_crash (find_row rows)
      found_disk row

    -- `_async_update_data` of a disk whose node is known
    unfoldable pub update_disk : Update ProxmoxDiskData
    unfolding read_disk
    update_disk = do
      api_status ← ask (node_path node (text "/disks/list"))
      if is_null api_status then pure unread_disk else listed_disks api_status
