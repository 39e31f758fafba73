-- ===== src/Migration.antt =====
-- __init__.py: the migration of an entry from version to version, and the renaming of disk devices in it.
-- The devices are those of the entry in the registry. Whether a client can be built, and its requests, are
-- parameters that act on a world of their own.
pub mod Steps
pub mod Versions
pub mod Kept
mod Tests
use proxmoxve_integration.Prelude.{
  ℕ, List, [], ◌∷◌, ◌++◌, Bool, true, false, not, Option, none, some, ◌==◌, if◌then◌else◌, list_eq,
  nat_eq, contains, any, first,
}
use proxmoxve_integration.Prelude.Text.{Text, text}
use proxmoxve_integration.Json
use proxmoxve_integration.Json.{
  Value, null, str, arr, obj, item, end, Fields, nil, field, find, get, text?, str_of, iterate,
  rows,
}
use proxmoxve_integration.Const.{ProxmoxType, type_upper}
use proxmoxve_integration.Api.{Reply, answered, failed}
use proxmoxve_integration.Disk.{Disk, disk_of, colliding_disk_wwns, resolve_disk_id}
use proxmoxve_integration.Discovery.Devices.{Device, without, identifier_of}
use proxmoxve_integration.Coordinators.Monad.{
  Result, done, crashed, Action, pure, crash, or_crash, ◌>>=◌, ◌>>◌,
}

-- The first device that carries an identifier, and whether there is one.
abbrev pub device_with : Text → List Device → Option Device
device_with id devices = first (λ d. contains d.identifiers id) devices

abbrev pub has_device : Text → List Device → Bool
has_device id devices = any (λ d. contains d.identifiers id) devices

abbrev pub remove_id : Text → List Device → List Device
remove_id id devices = without (λ d. d.id == id) devices

-- `async_update_device` of one device
abbrev pub update_id : Text → Text → List Device → List Device
update_id id new [] = []
update_id id new (d ∷ ds) =
    let rest = update_id id new ds in
    if d.id == id then record d { identifiers = new ∷ [] } ∷ rest else d ∷ rest

-- A device that carries `old` moves to `new`, or goes where `new` is taken.
unfoldable pub rename_device : Text → Text → List Device → List Device
rename_device old new devices = elim (device_with old devices) [
  | none ↦ devices
  | some d ↦
      if contains d.identifiers new
      then devices
      else if has_device new devices
      then remove_id d.id devices
      else update_id d.id new devices
]

-- What `async_get_or_create` and then `async_remove_device` leave: no device with the identifier.
abbrev pub drop_device : Text → List Device → List Device
drop_device id devices = elim (device_with id devices) [
  | none ↦ devices
  | some d ↦ remove_id d.id devices
]

abbrev pub drop_devices : List Text → List Device → List Device
drop_devices [] devices = devices
drop_devices (id ∷ ids) devices = drop_devices ids (drop_device id devices)

abbrev pub disks_of : List Value → Option (List Disk)
disks_of [] = some []
disks_of (v ∷ vs) =
    let rest = disks_of vs in
    elim (disk_of v) [ none ↦ none | some d ↦ elim rest [ none ↦ none | some ds ↦ some (d ∷ ds) ] ]

-- The ids of before: the path, and then the by-id link or the serial. `none` is a `KeyError`.
abbrev pub path_id : Disk → Option Text
path_id d = d.devpath

abbrev pub link_or_serial : Disk → Option Text
link_or_serial d = elim d.by_id_link [ none ↦ d.serial | some link ↦ some link ]

-- The disks of a node in turn: the devices, and whether all were reached. A disk without any id is a
-- `KeyError`.
unfoldable pub rename_disks :
    (Disk → Option Text) → Text → List Text → List Disk → List Device → Bool × List Device
unfolding rename_device
rename_disks old_id prefix colliding [] devices = (true, devices)
rename_disks old_id prefix colliding (d ∷ ds) devices = elim (old_id d) [
  | none ↦ rename_disks old_id prefix colliding ds devices
  | some old ↦ elim (resolve_disk_id d colliding) [
    | none ↦ (false, devices)
    | some new ↦
        rename_disks old_id prefix colliding ds
          (rename_device (prefix ++ old) (prefix ++ new) devices)
  ]
]

module _ (repr : Value → Text) (W : Type 0) (connects : W → Bool × W)
    (request : W → Text → Reply Value × W) (entry_id : Text) where
  pub record Migrated : Type 0 where
    pub version : ℕ
    pub data_of : Fields
    pub options : Fields
    pub devices : List Device
    pub world : W

  abbrev pub Step : Type 0
  Step = Action Migrated (Unit {0})

  -- `data[key]`; an exception where it is missing.
  abbrev pub need : Text → Fields → Action Migrated Value
  need key fs = or_crash (find key fs)

  abbrev pub disk_prefix : Text → Text
  disk_prefix node = identifier_of entry_id (type_upper ProxmoxType.disk) (node ++ text "_")

  abbrev pub renamed_from :
      (Disk → Option Text) → Text → List Value → List Device → Bool × List Device
  renamed_from old_id node vs devices = elim (disks_of vs) [
    | none ↦ (false, devices)
    | some ds ↦ rename_disks old_id (disk_prefix node) (colliding_disk_wwns ds) ds devices
  ]

  abbrev pub put_devices : Bool × List Device → Step
  put_devices (reached, ds) s = (if reached then done tt else crashed, record s { devices = ds })

  -- A node that cannot be read is passed over.
  abbrev pub rename_answer : (Disk → Option Text) → Text → Reply Value → Step
  rename_answer old_id node (failed f) s = (done tt, s)
  rename_answer old_id node (answered v) s =
      put_devices (renamed_from old_id node (rows v) s.devices) s

  unfoldable pub rename_node : (Disk → Option Text) → Value → Step
  unfolding rename_disks
  rename_node old_id node s =
      let name = str_of repr node in
      let (reply, after) = request s.world (text "nodes/" ++ (name ++ text "/disks/list")) in
      rename_answer old_id name reply (record s { world = after })

  unfoldable pub rename_nodes : (Disk → Option Text) → List Value → Step
  unfolding rename_node
  rename_nodes old_id [] = pure tt
  rename_nodes old_id (node ∷ nodes) = do rename_node old_id node; rename_nodes old_id nodes

  abbrev pub or_empty : Text → Fields → Value
  or_empty key fs = elim (find key fs) [ none ↦ arr end | some v ↦ v ]

  -- The client that could be built, or nothing to do.
  abbrev pub connected : (Disk → Option Text) → Bool → Step
  connected old_id false = λ s. pure tt s
  connected old_id true =
      λ s. (or_crash (iterate (or_empty (text "nodes") s.data_of)) >>= rename_nodes old_id) s

  abbrev pub connect : Action Migrated Bool
  connect s = let (made, after) = connects s.world in (done made, record s { world = after })

  -- `_async_rename_disk_devices`
  unfoldable pub rename_disk_devices : (Disk → Option Text) → Step
  unfolding rename_nodes
  rename_disk_devices old_id s =
      (do
        need (text "host") s.data_of
        need (text "port") s.data_of
        need (text "username") s.data_of
        need (text "realm") s.data_of
        need (text "password") s.data_of
        need (text "verify_ssl") s.data_of
        made ← connect
        connected old_id made)
        s
