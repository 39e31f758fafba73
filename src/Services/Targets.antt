-- ===== src/Services/Targets.antt =====
-- services.py: the devices that a call targets, by itself, by entity, area, floor or label.
use proxmoxve_integration.Prelude.{
  List, [], ◌∷◌, ◌++◌, Option, none, some, ◌||◌, contains, if◌then◌else◌, list_eq, nat_eq, is_empty,
}
use proxmoxve_integration.Prelude.Sets.{append_new}
use proxmoxve_integration.Prelude.Text.{Text, text}

-- What a call may hold under a target key.
pub data Given : Type 0 where
  absent : Given
  one : Text → Given
  several : List Text → Given

abbrev pub ids : Given → List Text
ids absent = []
ids (one t) = if is_empty t || contains (text "none" ∷ text "all" ∷ []) t then [] else t ∷ []
ids (several ts) = ts

-- The registries, as far as they are asked. An entity may have no device.
pub record Registries : Type 0 where
  pub areas_of_floor : Text → List Text
  pub entity_device : Text → Option (Option Text)
  pub devices_of_area : Text → List Text
  pub entity_devices_of_area : Text → List (Option Text)
  pub devices_of_label : Text → List Text
  pub entity_devices_of_label : Text → List (Option Text)

pub record Targeted : Type 0 where
  pub device_id : Given
  pub entity_id : Given
  pub area_id : Given
  pub floor_id : Given
  pub label_id : Given

-- The inner `add`.
unfoldable pub add_device : List Text → Option Text → List Text
add_device found none = found
add_device found (some []) = found
add_device found (some (c ∷ id)) = append_new found (c ∷ id)

abbrev pub add_devices : List Text → List Text → List Text
add_devices found [] = found
add_devices found (id ∷ ids) = add_devices (add_device found (some id)) ids

abbrev pub add_owners : List Text → List (Option Text) → List Text
add_owners found [] = found
add_owners found (id ∷ ids) = add_owners (add_device found id) ids

module _ (r : Registries) where
  abbrev pub add_entities : List Text → List Text → List Text
  add_entities found [] = found
  add_entities found (id ∷ ids) =
      add_entities
        (elim (r.entity_device id) [ none ↦ found | some owner ↦ add_device found owner ]) ids

  abbrev floor_areas : List Text → List Text
  floor_areas [] = []
  floor_areas (floor ∷ floors) = r.areas_of_floor floor ++ floor_areas floors

  abbrev add_areas : List Text → List Text → List Text
  add_areas found [] = found
  add_areas found (area ∷ areas) =
      add_areas
        (add_owners (add_devices found (r.devices_of_area area)) (r.entity_devices_of_area area))
        areas

  abbrev add_labels : List Text → List Text → List Text
  add_labels found [] = found
  add_labels found (label ∷ labels) =
      add_labels
        (add_owners (add_devices found (r.devices_of_label label))
          (r.entity_devices_of_label label))
        labels

  unfoldable pub targeted_devices : Targeted → List Text
  targeted_devices t =
      let areas = ids t.area_id ++ floor_areas (ids t.floor_id) in
      let named = add_entities (add_devices [] (ids t.device_id)) (ids t.entity_id) in
      add_labels (add_areas named areas) (ids t.label_id)
