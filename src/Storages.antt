-- ===== src/Storages.antt =====
-- coordinator.py: the updates of the storage and the ZFS coordinator. The names of storages, pools and their
-- states are texts where they are there.
pub mod Rows
mod Tests
use proxmoxve_integration.Prelude.{
  ℕ, ◌+◌, ◌/◌, ◌%◌, List, [], ◌∷◌, ◌++◌, Bool, true, false, Option, none, some, ◌==◌, ◌&&◌, ◌||◌,
  if◌then◌else◌, leb, contains, collect, keep, first, list_eq, nat_eq,
}
use proxmoxve_integration.Prelude.Sort.{sort_by}
use proxmoxve_integration.Prelude.Text.{Text, text, text_leb, remove_all}
use proxmoxve_integration.Json
use proxmoxve_integration.Json.{
  Value, null, arr, obj, Fields, nil, find, get, is_text, text?, truthy, elements, dicts, rows,
  iterate, str_of,
}
use proxmoxve_integration.Const.{ProxmoxType}
use proxmoxve_integration.Api.{Reply}
use proxmoxve_integration.Issues.Registry.{IssueRegistry}
use proxmoxve_integration.Issues.{ConfigEntry}
use proxmoxve_integration.Poll.{Read, poll_api}
use proxmoxve_integration.Resources
use proxmoxve_integration.Resources.{
  Shared, PollState, Listing, listed, reauthentication, attribute_error, get_rows,
}
use proxmoxve_integration.Storage.{storage_entry, storage_name, is_shared_storage_id}
use proxmoxve_integration.Coordinators.{is_null, read_for, node_path}
use proxmoxve_integration.Coordinators.Monad.{
  Result, done, unavailable, login_refused, crashed, Action, pure, fail, or_crash, answer_of, ◌>>=◌,
}

abbrev pub is_named : Text → Fields → Bool
is_named name row = is_text name (get (text "storage") row)

abbrev pub is_available : Fields → Bool
is_available row = is_text (text "available") (get (text "status") row)

abbrev pub head_of : List Fields → Option Fields
head_of [] = none
head_of (row ∷ rows) = some row

-- `a or b`, of lists
abbrev pub or_list : List Fields → List Fields → List Fields
or_list [] b = b
or_list (row ∷ rows) b = row ∷ rows

abbrev pub flag : Value → Option Bool
flag null = none
flag v = some (truthy v)

-- `quote`: letters, digits and some marks stay, and the other bytes of the text are written in hexadecimal.
abbrev pub is_safe : ℕ → Bool
is_safe c =
    (leb 48 c && leb c 57)
    || (leb 65 c && leb c 90)
    || (leb 97 c && leb c 122)
    || contains (text "_.-~/") c

abbrev pub hex_digit : ℕ → ℕ
hex_digit d = if leb d 9 then 48 + d else 55 + d

abbrev pub percent : ℕ → Text
percent byte = b'%' ∷ hex_digit (byte / 16) ∷ hex_digit (byte % 16) ∷ []

abbrev pub tail_byte : ℕ → Text
tail_byte n = percent (128 + n % 64)

abbrev pub quote_char : ℕ → Text
quote_char c =
    if is_safe c
    then c ∷ []
    else if leb c 127
    then percent c
    else if leb c 2047
    then percent (192 + c / 64) ++ tail_byte c
    else if leb c 65535
    then percent (224 + c / 4096) ++ (tail_byte (c / 64) ++ tail_byte c)
    else percent (240 + c / 262144) ++ (tail_byte (c / 4096) ++ (tail_byte (c / 64) ++ tail_byte c))

unfoldable pub quote : Text → Text
quote [] = []
quote (c ∷ s) = quote_char c ++ quote s

pub record ProxmoxStorageData : Type 0 where
  pub node : Option Text
  pub name : Text
  pub disk_total : Option Value
  pub disk_used : Option Value
  pub content : Option Value
  pub active : Option Bool
  pub enabled : Option Bool
  pub shared : Option Bool
  pub nodes : List Text

pub record ProxmoxZfsData : Type 0 where
  pub node : Text
  pub name : Text
  pub health : Option Value
  pub size : Option Value
  pub alloc : Option Value
  pub free : Option Value

module _ (repr : Value → Text) where
  abbrev pub node_of : Fields → Text
  node_of row = str_of repr (get (text "node") row)

  abbrev pub by_node : Fields → Fields → Bool
  by_node a b = text_leb (node_of a) (node_of b)

  unfoldable pub candidates : Text → List Fields → List Fields
  candidates id entries = sort_by by_node (keep (is_named (storage_name id)) entries)

  abbrev pub named_nodes : List Fields → List Text
  named_nodes [] = []
  named_nodes (row ∷ rows) =
      let rest = named_nodes rows in if Json.has (text "node") row then node_of row ∷ rest else rest

  -- The row that answers for a storage, and the nodes that see it as available.
  unfoldable pub storage_row : Text → List Fields → Option Fields × List Text
  unfolding candidates
  storage_row id entries =
      if is_shared_storage_id id
      then (
        head_of (or_list (keep is_available (candidates id entries)) (candidates id entries)),
        named_nodes (keep is_available (candidates id entries)),
      )
      else (first (λ row. is_text id (get (text "id") row)) entries, [])

  abbrev pub view_in : Text → List Fields → Fields
  view_in label [] = nil
  view_in label (fs ∷ entries) = if is_named label fs then fs else view_in label entries

  module _ (R : IssueRegistry) (W : Type 0) (request : W → Text → Reply Value × W)
      (entry : ConfigEntry) (start now : ℕ) (id : Text) where
    abbrev pub Update : Type 0 → Type 0
    Update A = Action (Shared × PollState repr R W request) A

    abbrev pub ask : Read → Update Value
    ask read (c, s) =
        let (outcome, after) = poll_api R W request entry read s in (answer_of outcome, (c, after))

    abbrev pub listing_result : Listing → Result (List Value)
    listing_result (listed none) = done []
    listing_result (listed (some vs)) = done vs
    listing_result (Resources.Listing.unavailable m) = unavailable m
    listing_result reauthentication = login_refused
    listing_result attribute_error = crashed

    -- The storages of the shared listing, where the cache is looked at `start` and a read is over `now`.
    abbrev pub shared_storages : Update (List Value)
    shared_storages (c, s) =
        let (listing, after) =
          get_rows repr R W request entry start now (some (text "storage")) false c s in
        (listing_result listing, after)

    abbrev pub node_name_of : Fields → Option Text
    node_name_of row = if truthy (get (text "node") row) then some (node_of row) else none

    -- The node's own view of the storage, which is asked for where the row names both.
    unfoldable pub ask_view : Option Text → Option Text → Update Fields
    ask_view (some node) (some label) = do
      answer ← ask (
          read_for (node_path node (text "/storage?storage=" ++ quote label)) ProxmoxType.storage
            id)
      pure (view_in label (dicts (rows answer)))
    ask_view _ _ = pure nil

    abbrev pub storage_data : Fields → List Text → Fields → ProxmoxStorageData
    storage_data row nodes view = record {
      node = node_name_of row;
      name = text "Storage " ++ remove_all (text "storage/") id;
      disk_total = find (text "maxdisk") row;
      disk_used = find (text "disk") row;
      content = find (text "content") row;
      active = flag (get (text "active") view);
      enabled = flag (get (text "enabled") view);
      shared = flag (get (text "shared") view);
      nodes = nodes;
    }

    abbrev pub found_storage : Option Fields → List Text → Update ProxmoxStorageData
    found_storage none nodes = fail (text "Storage " ++ (id ++ text " unable to be found"))
    found_storage (some row) nodes =
        if Json.has (text "content") row
        then ask_view (node_name_of row) (text? (get (text "storage") row))
          >>= (λ view. pure (storage_data row nodes view))
        else fail (text "Storage " ++ (id ++ text " unable to be found"))

    -- `_async_update_data` of the storage coordinator
    unfoldable pub update_storage : Update ProxmoxStorageData
    unfolding storage_row ask_view
    update_storage = do
      vs ← shared_storages
      let entries = collect storage_entry vs
      found_storage (storage_row id entries).0 (storage_row id entries).1

    abbrev pub pool_in : List Fields → Option Fields
    pool_in entries = first (λ pool. is_text id (get (text "name") pool)) entries

    abbrev pub found_pool : Text → Option Fields → Update ProxmoxZfsData
    found_pool node none =
        fail (text "ZFS Pool " ++ (id ++ (text " unable to be found for Node " ++ node)))
    found_pool node (some pool) = pure (record {
      node = node;
      name = text "ZFS Pool " ++ id;
      health = find (text "health") pool;
      size = find (text "size") pool;
      alloc = find (text "alloc") pool;
      free = find (text "free") pool;
    })

    abbrev pub listed_pools : Text → Value → Update ProxmoxZfsData
    listed_pools node pools = do vs ← or_crash (iterate pools); found_pool node (pool_in (dicts vs))

    -- `_async_update_data` of the ZFS coordinator
    unfoldable pub update_zfs : Text → Update ProxmoxZfsData
    update_zfs node = do
      pools ← ask (read_for (node_path node (text "/disks/zfs")) ProxmoxType.zfs id)
      if is_null pools
          then fail (text "ZFS pools on node " ++ (node ++ text " are not available"))
          else listed_pools node pools
