-- ===== src/Discovery/Coordinator.antt =====
-- coordinator.py: one run of the discovery coordinator. What it has the integration do, for each
-- resource that came or went, is a sequence of events.
use proxmoxve_integration.Prelude.{
  List, [], ◌∷◌, ◌++◌, Bool, Option, none, some, ◌&&◌, if◌then◌else◌, is_empty, all,
}
use proxmoxve_integration.Prelude.Text.{Text, text}
use proxmoxve_integration.Json.{Value, Values}
use proxmoxve_integration.Const.{ProxmoxType}
use proxmoxve_integration.Discovery.{
  Resources, Key, at, category_of, resource_keys, discovered_resources, ConfigEntry,
  tracked_resources, resource_changes, remember_resources,
}

pub data Event : Type 0 where
  remove_resource : ProxmoxType → Text → Event
  remove_devices : Resources → Event
  add_resource : ProxmoxType → Text → Event

pub data Update : Type 0 where
  found : Resources → Update
  not_available : Text → Update
  value_error : Update

abbrev pub is_nothing : Resources → Bool
is_nothing r = all (λ k. is_empty (at k r)) resource_keys

abbrev each : (Text → Event) → List Text → List Event
each event [] = []
each event (id ∷ ids) = event id ∷ each event ids

abbrev pub per_key : (ProxmoxType → Text → Event) → List Key → Resources → List Event
per_key event [] r = []
per_key event (k ∷ ks) r = each (event (category_of k)) (at k r) ++ per_key event ks r

unfoldable pub events_of : Resources → Resources → List Event
events_of added removed =
    per_key remove_resource resource_keys removed
    ++ remove_devices removed ∷ per_key add_resource resource_keys added

-- `_async_update_data`, with the rows of the shared read, if that gave a list.
unfoldable pub async_update_data :
    (Value → Text) → Option Values → ConfigEntry → Update × (ConfigEntry × List Event)
async_update_data repr none entry =
    (not_available (text "Cluster resources are not available"), (entry, []))
async_update_data repr (some resources) entry = elim (discovered_resources repr resources) [
  | none ↦ (value_error, (entry, []))
  | some r ↦
      let changes = resource_changes (tracked_resources repr entry) r in
      if is_nothing changes.0 && is_nothing changes.1
      then (found r, (entry, []))
      else (found r, (remember_resources r entry, events_of changes.0 changes.1))
]
