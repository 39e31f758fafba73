-- ===== src/Resources.antt =====
-- coordinator.py: `SharedResources`, one read of `cluster/resources` per burst of polls, kept per entry
-- and shared by its coordinators. Times are milliseconds of the monotonic clock. The lock makes every
-- `get` one step of this model.
pub mod Laws
mod Tests
use proxmoxve_integration.Prelude.{
  ℕ, ◌+◌, List, [], ◌∷◌, Bool, true, false, not, Option, none, some, ◌==◌, ◌&&◌, ◌||◌, contains,
  if◌then◌else◌, leb, list_eq, nat_eq, option_eq, is_empty, map,
}
use proxmoxve_integration.Prelude.Sets.{set_of}
use proxmoxve_integration.Prelude.Text.{Text, text}
use proxmoxve_integration.Json.{
  Value, Fields, null, arr, obj, elements, find, get, truthy, is_text, str_of,
}
use proxmoxve_integration.Const.{ProxmoxType}
use proxmoxve_integration.Api.{Reply}
use proxmoxve_integration.Issues.Registry.{IssueRegistry}
use proxmoxve_integration.Issues.{ConfigEntry}
use proxmoxve_integration.Poll.{
  Outcome, data_read, not_permitted, update_failed, config_entry_auth_failed, Read, State, poll_api,
}

abbrev pub resources_ttl : ℕ
resources_ttl = 15000

-- A listing whose rows are all dicts; `.get` of anything else raises.
abbrev pub dicts : List Value → Option (List Fields)
dicts [] = some []
dicts (v ∷ vs) =
    let rest = dicts vs in
    elim v [ obj fs ↦ elim rest [ none ↦ none | some l ↦ some (fs ∷ l) ] | _ ↦ none ]

module _ (repr : Value → Text) where
  abbrev pub status_text : Fields → Text
  status_text row = elim (find (text "status") row) [ none ↦ [] | some v ↦ str_of repr v ]

  abbrev pub is_off : Fields → Bool
  is_off row =
      is_text (text "node") (get (text "type") row)
      && truthy (get (text "node") row)
      && not (contains ([] ∷ text "online" ∷ []) (status_text row))

  abbrev pub off_names : List Fields → List Text
  off_names [] = []
  off_names (row ∷ rows) =
      let rest = off_names rows in
      if is_off row then str_of repr (get (text "node") row) ∷ rest else rest

  unfoldable pub nodes_not_online : List Fields → List Text
  nodes_not_online rows = set_of (off_names rows)

-- `_read_at` with the TTL added, so that it starts, and `forget` leaves it, at zero.
pub record Shared : Type 0 where
  pub read_due : ℕ
  pub rows : Option (List Value)
  pub failure : Option Text

abbrev pub nothing_read : Shared
nothing_read = record { read_due = 0; rows = none; failure = none }

abbrev pub forget : Shared → Shared
forget c = record c { read_due = 0 }

-- What `get` returns or raises; `attribute_error` is a row that is no dict.
pub data Listing : Type 0 where
  listed : Option (List Value) → Listing
  unavailable : Text → Listing
  reauthentication : Listing
  attribute_error : Listing

abbrev pub cluster_resources : Read
cluster_resources = record {
  api_path = text "cluster/resources";
  api_category = ProxmoxType.resources;
  resource_id = none;
  issue_create_permissions = true;
}

abbrev has_type : Text → Value → Bool
has_type type (obj fs) = is_text type (get (text "type") fs)
has_type type _ = false

abbrev pub of_type : Text → List Value → List Value
of_type type [] = []
of_type type (row ∷ rows) =
    let rest = of_type type rows in if has_type type row then row ∷ rest else rest

abbrev or_default : Text → Text
or_default [] = text "Cluster resources are not available"
or_default (c ∷ m) = c ∷ m

abbrev pick : Option Text → List Value → Listing
pick none rows = listed (some rows)
pick (some type) rows = elim (dicts rows) [
  | none ↦ attribute_error
  | some l ↦ listed (some (of_type type rows))
]

-- What `get` does with the rows or the failure kept.
unfoldable pub serve : Option Text → Shared → Listing
serve type c = elim c.failure [
  | some m ↦ unavailable (or_default m)
  | none ↦ elim c.rows [ none ↦ listed none | some rows ↦ pick type rows ]
]

module _ (repr : Value → Text) (R : IssueRegistry) (W : Type 0)
    (request : W → Text → Reply Value × W) where
  abbrev pub PollState : Type 0
  PollState = State R W request

  abbrev set_off : List Text → PollState → PollState
  set_off names s = record s { nodes_off = names }

  -- The rows of an answer, or a failure without words where the answer is no list. `none` where a row
  -- that is no dict raises, before the time of the read is kept.
  unfoldable pub keep_rows : ℕ → Outcome Value → Shared × PollState → Option (Shared × PollState)
  keep_rows now (data_read (arr vs)) (c, s) = elim (dicts (elements vs)) [
    | none ↦ none
    | some l ↦ some (
      record { read_due = now + resources_ttl; rows = some (elements vs); failure = none },
      set_off (nodes_not_online repr l) s,
    )
  ]
  keep_rows now (data_read null) (c, s) =
      some (record { read_due = now + resources_ttl; rows = none; failure = none }, set_off [] s)
  keep_rows now not_permitted (c, s) =
      some (record { read_due = now + resources_ttl; rows = none; failure = none }, set_off [] s)
  keep_rows now (data_read _) (c, s) =
      some (record { read_due = now + resources_ttl; rows = none; failure = some [] }, set_off [] s)
  keep_rows now (update_failed m) (c, s) =
      some (record { read_due = now + resources_ttl; rows = none; failure = some m }, s)
  keep_rows now config_entry_auth_failed (c, s) = none

  -- What is kept of the rows where a row raised.
  abbrev broken_rows : Outcome Value → Shared → Shared
  broken_rows (data_read (arr vs)) c = record c { rows = some (elements vs); failure = none }
  broken_rows _ c = c

  abbrev broken : Outcome Value → Listing
  broken config_entry_auth_failed = reauthentication
  broken _ = attribute_error

  -- The read itself, begun when the cache is due; `now` is the time when it is over.
  unfoldable pub read_afresh :
      ConfigEntry → ℕ → Option Text → Shared → PollState → Listing × (Shared × PollState)
  read_afresh entry now type c s =
      let polled = poll_api R W request entry cluster_resources s in
      elim (keep_rows now polled.0 (c, polled.1)) [
        | none ↦ (broken polled.0, (broken_rows polled.0 c, polled.1))
        | some kept ↦ (serve type kept.0, kept)
      ]

  -- `SharedResources.get`, called at `start` and past its read at `now`.
  unfoldable pub get_rows :
      ConfigEntry → ℕ → ℕ → Option Text → Bool → Shared → PollState → Listing × (Shared × PollState)
  get_rows entry start now type fresh c s =
      if fresh || leb c.read_due start
      then read_afresh entry now type c s
      else (serve type c, (c, s))

  -- The offline nodes of a listing that was read elsewhere; `none` where a row raises.
  unfoldable pub note_nodes : Value → PollState → Option PollState
  note_nodes (arr vs) s = elim (dicts (elements vs)) [
    | none ↦ none
    | some l ↦ some (set_off (nodes_not_online repr l) s)
  ]
  note_nodes _ s = some s
