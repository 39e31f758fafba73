-- ===== src/HaStatus.antt =====
-- coordinator.py: the cluster's HA status from the entries of `cluster/ha/status/current`. Reading a time
-- from a value, in milliseconds, is a parameter: `none` where that raises.
pub mod Entries
pub mod Laws
mod Tests
use proxmoxve_integration.Prelude.{
  ℕ, suc, ◌-◌, List, [], ◌∷◌, ◌++◌, Bool, true, false, Option, none, some, ◌==◌, ◌||◌, contains,
  if◌then◌else◌, ltb, list_eq, nat_eq,
}
use proxmoxve_integration.Prelude.Text.{Text, text}
use proxmoxve_integration.Json.{
  Value, null, bool, int, float, str, arr, obj, Values, Fields, find, get, is_text, str_of,
  elements,
}
use proxmoxve_integration.Storage.{is_one}

abbrev pub ha_armed_states : List Text
ha_armed_states = text "armed" ∷ text "standby" ∷ text "disarming" ∷ text "disarmed" ∷ []

abbrev pub ha_resource_modes : List Text
ha_resource_modes = text "freeze" ∷ text "ignore" ∷ []

abbrev pub ha_service_error_states : List Text
ha_service_error_states = text "error" ∷ text "fence" ∷ text "recovery" ∷ []

abbrev pub crm_master_dead_after : ℕ
crm_master_dead_after = 30000

-- `v in allowed` of a set of texts; `none` where the value has no hash and this raises.
abbrev pub text_in : List Text → Value → Option (Option Text)
text_in allowed (str s) = some (if contains allowed s then some s else none)
text_in allowed (arr vs) = none
text_in allowed (obj fs) = none
text_in allowed _ = some none

pub record ServiceError : Type 0 where
  pub sid : Text
  pub node : Text
  pub crm_state : Text

-- What is UNDEFINED or None is `none`.
pub record HaStatus : Type 0 where
  pub armed_state : Option Text
  pub resource_mode : Option Text
  pub quorate : Option Bool
  pub crm_master : Option Text
  pub crm_master_last_seen : Option ℕ
  pub crm_master_stale : Option Bool
  pub resources_total : ℕ
  pub resources_error : List ServiceError

abbrev pub nothing_known : HaStatus
nothing_known = record {
  armed_state = none;
  resource_mode = none;
  quorate = none;
  crm_master = none;
  crm_master_last_seen = none;
  crm_master_stale = none;
  resources_total = 0;
  resources_error = [];
}

module _ (repr : Value → Text) (to_time : Value → Option ℕ) (now : ℕ) where
  abbrev pub note_quorum : Value → HaStatus → HaStatus
  note_quorum null h = h
  note_quorum v h = record h { quorate = some (is_one v) }

  abbrev pub note_master : Value → HaStatus → HaStatus
  note_master null h = h
  note_master v h = record h { crm_master = some (str_of repr v) }

  abbrev pub note_seen : Option ℕ → HaStatus → HaStatus
  note_seen none h = h
  note_seen (some t) h = record h {
    crm_master_last_seen = some t;
    crm_master_stale = some (ltb crm_master_dead_after (now - t));
  }

  abbrev pub note_timestamp : Value → HaStatus → HaStatus
  note_timestamp null h = h
  note_timestamp v h = note_seen (to_time v) h

  abbrev text_or_empty : Text → Fields → Text
  text_or_empty key fs = elim (find key fs) [ none ↦ [] | some v ↦ str_of repr v ]

  abbrev pub note_fencing : Option (Option Text) → Option (Option Text) → HaStatus → Option HaStatus
  note_fencing none mode h = none
  note_fencing (some armed) none h = none
  note_fencing (some armed) (some mode) h =
      some (record h { armed_state = armed; resource_mode = mode })

  abbrev pub note_service : Option (Option Text) → Fields → HaStatus → Option HaStatus
  note_service none fs h = none
  note_service (some none) fs h = some (record h { resources_total = suc h.resources_total })
  note_service (some (some state)) fs h = some (record h {
    resources_total = suc h.resources_total;
    resources_error =
        h.resources_error
        ++ record {
          sid = text_or_empty (text "sid") fs;
          node = text_or_empty (text "node") fs;
          crm_state = state;
        }
          ∷ [];
  })

  -- One entry of the loop, by its type.
  unfoldable pub note_entry : Fields → HaStatus → Option HaStatus
  note_entry fs h =
      let type = get (text "type") fs in
      if is_text (text "quorum") type
      then some (note_quorum (get (text "quorate") fs) h)
      else if is_text (text "master") type
      then some (note_timestamp (get (text "timestamp") fs) (note_master (get (text "node") fs) h))
      else if is_text (text "fencing") type
      then note_fencing (text_in ha_armed_states (get (text "armed-state") fs))
          (text_in ha_resource_modes (get (text "resource_mode") fs)) h
      else if is_text (text "service") type
      then note_service (text_in ha_service_error_states (get (text "crm_state") fs)) fs h
      else some h

  unfoldable pub note_entries : List Value → HaStatus → Option HaStatus
  note_entries [] h = some h
  note_entries (obj fs ∷ vs) h = elim (note_entry fs h) [ none ↦ none | some k ↦ note_entries vs k ]
  note_entries (null ∷ vs) h = note_entries vs h
  note_entries (bool b ∷ vs) h = note_entries vs h
  note_entries (int n ∷ vs) h = note_entries vs h
  note_entries (float m e ∷ vs) h = note_entries vs h
  note_entries (str s ∷ vs) h = note_entries vs h
  note_entries (arr ws ∷ vs) h = note_entries vs h

  -- `none` where a value without a hash raises.
  unfoldable pub parse_ha_status : Values → Option HaStatus
  parse_ha_status entries = note_entries (elements entries) nothing_known
