-- ===== src/Discovery/Tests.antt =====
-- Runs of discovery on a small cluster, and the theorems there.
use proxmoxve_integration.Prelude.{
  ℕ, ◌≡◌, refl, List, [], ◌∷◌, some, list_eq, nat_eq, ℕ_discrete, contains,
}
use proxmoxve_integration.Prelude.Int.{pos}
use proxmoxve_integration.Prelude.Sets.{add, set_of, difference}
use proxmoxve_integration.Prelude.Sort.{sort_by}
use proxmoxve_integration.Prelude.Text.{
  Text, text, text_leb, parse_int, digits_value, strip_by, lstrip_by, rstrip_by, partition,
  starts_with, remove_all, remove_from, int_text, decimal,
}
use proxmoxve_integration.Json.{Value, Values, str, int, null, obj, item, end, field, nil}
use proxmoxve_integration.Const.{ProxmoxType}
use proxmoxve_integration.Storage.{tracked_storage_ids, shared_storage_names, storage_entries}
use proxmoxve_integration.Discovery.{
  Resources, qemu, ids_of, with_ints, sorted_by_int, discovered_resources, ConfigEntry,
  tracked_resources, sort_key, sorted_difference, resource_changes,
}
use proxmoxve_integration.Discovery.Devices.{
  Device, present, stale_rest, is_stale, remove_stale_devices, exact, prefixes,
  remove_resource_devices,
}
use proxmoxve_integration.Discovery.Coordinator.{
  remove_resource, remove_devices, add_resource, events_of, async_update_data,
}
use proxmoxve_integration.Discovery.Changes.{async_update_data_tracks, async_update_data_settles}

opened : Unit {0}
unfolding ids_of with_ints sorted_by_int discovered_resources sort_key sorted_difference
    resource_changes present stale_rest is_stale remove_stale_devices exact prefixes
    remove_resource_devices events_of async_update_data add set_of difference sort_by text_leb
    parse_int digits_value strip_by lstrip_by rstrip_by partition starts_with remove_all remove_from
    int_text decimal tracked_storage_ids shared_storage_names storage_entries list_eq ℕ_discrete
opened = tt

abbrev plain : Value → Text
plain v = []

abbrev guest_row : Text → ℕ → Value → Value
guest_row type vmid template = obj (
    field (text "type") (str type)
      (field (text "vmid") (int (pos vmid)) (field (text "template") template nil)))

abbrev listing : Values
listing =
    item (obj (field (text "type") (str (text "node")) (field (text "node") (str (text "a")) nil)))
      (item (guest_row (text "qemu") 100 (int (pos 0))) (
        item (guest_row (text "qemu") 9 null)
          (item (guest_row (text "qemu") 7 (int (pos 1))) (item null end))))

abbrev r : Resources
r = record { nodes = text "a" ∷ []; qemu = text "9" ∷ text "100" ∷ []; lxc = []; storage = [] }

abbrev entry : ConfigEntry
entry = record {
  picked = λ k. [];
  tracked = some (record { nodes = text "b" ∷ []; qemu = text "100" ∷ []; lxc = []; storage = [] });
}

listed : discovered_resources plain listing ≡ some r
unfolding opened
listed = refl

async_update_data_tracks_example :
    contains
      (tracked_resources plain (async_update_data plain (some listing) entry).1.0).qemu
      (text "9")
    ≡ contains r.qemu (text "9")
async_update_data_tracks_example =
    async_update_data_tracks plain listing entry r qemu (text "9") listed

async_update_data_settles_example :
    let first = async_update_data plain (some listing) entry in
    async_update_data plain (some listing) first.1.0 ≡ (first.0, (first.1.0, []))
async_update_data_settles_example = async_update_data_settles plain listing entry

abbrev before : Resources
before = record { nodes = text "b" ∷ []; qemu = text "100" ∷ []; lxc = []; storage = [] }

abbrev device : Text → Device
device id = record { id = id; identifiers = id ∷ [] }

abbrev devices : List Device
devices = device (text "e_cluster") ∷ device (text "e_DISK_b_x") ∷ device (text "e_QEMU_9") ∷ []

runs :
    ((async_update_data plain (some listing) entry).1.1
      ≡ remove_resource ProxmoxType.node (text "b")
        ∷ remove_devices (record { nodes = text "b" ∷ []; qemu = []; lxc = []; storage = [] })
        ∷ add_resource ProxmoxType.node (text "a")
        ∷ add_resource ProxmoxType.qemu (text "9")
        ∷ [])
    × (remove_stale_devices (text "e") r devices
        ≡ device (text "e_cluster") ∷ device (text "e_QEMU_9") ∷ [])
    × (remove_resource_devices (text "e") before devices
        ≡ device (text "e_cluster") ∷ device (text "e_QEMU_9") ∷ [])
unfolding opened
runs = (refl, refl, refl)
