-- ===== src/Resources/Laws.antt =====
-- The burst of polls that one read serves, and what the reads of a node do once the cluster lists it as
-- off.
use proxmoxve_integration.Prelude.{
  ℕ, ◌+◌, ◌≡◌, refl, ◌∙◌, List, [], ◌∷◌, Bool, true, false, Option, none, some, ◌==◌, ◌&&◌, ◌||◌,
  contains, any, leb, list_eq, nat_eq, arith, is_empty, Option-cases, inl, inr,
}
use proxmoxve_integration.Prelude.Sets.{contains-set_of}
use proxmoxve_integration.Prelude.Text.{Text, text}
use proxmoxve_integration.Json.{
  Value, Values, Fields, null, bool, int, float, str, arr, obj, elements, get, str_of,
}
use proxmoxve_integration.Api.{Reply}
use proxmoxve_integration.Issues.Registry.{IssueRegistry}
use proxmoxve_integration.Issues.{ConfigEntry}
use proxmoxve_integration.Poll.{
  Outcome, data_read, not_permitted, update_failed, config_entry_auth_failed, Read, State, poll_api,
  node_of_path, offline_message,
}
use proxmoxve_integration.Poll.Laws.{poll_api_offline}
use proxmoxve_integration.Resources.{
  resources_ttl, dicts, is_off, off_names, nodes_not_online, Shared, Listing, listed, unavailable,
  reauthentication, attribute_error, serve, keep_rows, broken, read_afresh, get_rows, note_nodes,
  cluster_resources,
}

-- The read ended with rows or a failure that is kept for the burst.
abbrev pub is_kept : Listing → Bool
is_kept (listed rows) = true
is_kept (unavailable m) = true
is_kept reauthentication = false
is_kept attribute_error = false

-- A row that reports the node of this name as off.
abbrev pub reports_off : (Value → Text) → Text → Fields → Bool
reports_off repr n row = is_off repr row && n == str_of repr (get (text "node") row)

contains-off_names :
    (repr : Value → Text) (n : Text) (rows : List Fields)
    → contains (off_names repr rows) n ≡ any (reports_off repr n) rows
contains-off_names repr n [] = refl
contains-off_names repr n (row ∷ rows) = ground (arith, contains-off_names repr n rows)

-- A name is among the nodes that are off exactly if a row of the listing reports a node of that name
-- with a status that is neither empty nor "online".
pub contains-nodes_not_online :
    (repr : Value → Text) (n : Text) (rows : List Fields)
    → contains (nodes_not_online repr rows) n ≡ any (reports_off repr n) rows
unfolding nodes_not_online
contains-nodes_not_online repr n rows =
    contains-set_of (off_names repr rows) n ∙ contains-off_names repr n rows

module _ (repr : Value → Text) (R : IssueRegistry) (W : Type 0)
    (request : W → Text → Reply Value × W) where
  keep_rows-due :
      (now : ℕ) (o : Outcome Value) (c k : Shared) (s t : State R W request)
      → keep_rows repr R W request now o (c, s) ≡ some (k, t)
      → k.read_due ≡ now + resources_ttl
  unfolding keep_rows
  keep_rows-due now (data_read (arr vs)) c k s t kept = ground (arith, kept)
  keep_rows-due now (data_read null) c k s t kept = ground (arith, kept)
  keep_rows-due now (data_read (bool b)) c k s t kept = ground (arith, kept)
  keep_rows-due now (data_read (int n)) c k s t kept = ground (arith, kept)
  keep_rows-due now (data_read (float m e)) c k s t kept = ground (arith, kept)
  keep_rows-due now (data_read (str m)) c k s t kept = ground (arith, kept)
  keep_rows-due now (data_read (obj fs)) c k s t kept = ground (arith, kept)
  keep_rows-due now not_permitted c k s t kept = ground (arith, kept)
  keep_rows-due now (update_failed m) c k s t kept = ground (arith, kept)
  keep_rows-due now config_entry_auth_failed c k s t kept = ground (arith, kept)

  broken-not_kept : (o : Outcome Value) → is_kept (broken repr R W request o) ≡ false
  broken-not_kept (data_read v) = refl
  broken-not_kept not_permitted = refl
  broken-not_kept (update_failed m) = refl
  broken-not_kept config_entry_auth_failed = refl

  read_afresh_kept :
      (entry : ConfigEntry) (now : ℕ) (type : Option Text) (c : Shared) (s : State R W request)
      → let got = read_afresh repr R W request entry now type c s in
        is_kept got.0 ≡ true
        → (got.1.0.read_due ≡ now + resources_ttl) × (got.0 ≡ serve type got.1.0)
  unfolding read_afresh
  read_afresh_kept entry now type c s =
      let polled = poll_api R W request entry cluster_resources s in
      elim (Option-cases (keep_rows repr R W request now polled.0 (c, polled.1))) [
        | inl none_kept ↦
            rw (none_kept, read_afresh)
              (λ kept. absurd (ground (arith, kept, broken-not_kept polled.0)))
        | inr ((k, t), kept) ↦
            rw (kept, read_afresh) (λ _. (keep_rows-due now polled.0 c k polled.1 t kept, refl))
      ]

  -- A read of the entry's resources that is made because it is due or asked for afresh, and that
  -- ends with rows or with a failure, serves the burst: it is answered from what it keeps, and
  -- every later call before the TTL is over, for any type and not asked for afresh, makes no
  -- request, changes nothing and is answered from the same.
  pub get_rows_burst :
      (entry : ConfigEntry) (start now : ℕ) (type : Option Text) (fresh : Bool)
      → (c : Shared) (s : State R W request) → (fresh || leb c.read_due start) ≡ true
      → let got = get_rows repr R W request entry start now type fresh c s in
        is_kept got.0 ≡ true
        → (got.0 ≡ serve type got.1.0)
          × ((start2 now2 : ℕ) (type2 : Option Text)
              → leb (now + resources_ttl) start2 ≡ false
              → get_rows repr R W request entry start2 now2 type2 false got.1.0 got.1.1
                ≡ (serve type2 got.1.0, got.1))
  unfolding get_rows
  get_rows_burst entry start now type fresh c s due = rw due (λ kept.
      let (due_at, served) = read_afresh_kept entry now type c s kept in
      (served, λ start2 now2 type2 early. rw (due_at, early) refl))

  -- Once a listing that is taken reports a node as off, a read of one of that node's paths fails at
  -- once with the offline message: no request is made, and lists and repairs stay as they are.
  pub poll_api-note_nodes :
      (entry : ConfigEntry) (vs : Values) (rows : List Fields) (read : Read)
      → (s t : State R W request) → dicts (elements vs) ≡ some rows
      → note_nodes repr R W request (arr vs) s ≡ some t
      → is_empty (node_of_path read.api_path none) ≡ false
      → any (reports_off repr (node_of_path read.api_path none)) rows ≡ true
      → poll_api R W request entry read t
        ≡ (update_failed (offline_message (node_of_path read.api_path none)), t)
  unfolding note_nodes
  poll_api-note_nodes entry vs rows read s t all_dicts noted named off =
      poll_api_offline R W request entry read t (
        ground (
          arith,
          all_dicts,
          noted,
          named,
          off,
          contains-nodes_not_online repr (node_of_path read.api_path none) rows,
        ))
