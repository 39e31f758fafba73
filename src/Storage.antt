-- ===== src/Storage.antt =====
-- storage.py: how a storage is identified, and how a shared one becomes a single thing.
pub mod Ids
pub mod Tracked
pub mod Merge
mod Tests
use Prim.Native.Nat.{◌^◌}
use proxmoxve_integration.Prelude.{
  ℕ, zero, suc, List, [], ◌∷◌, ◌++◌, Bool, true, false, not, Option, none, some, ◌==◌, ◌&&◌, ◌||◌,
  contains, if◌then◌else◌, list_eq, nat_eq, option_eq, map, collect, keep, first, nat_beq,
}
use proxmoxve_integration.Prelude.Dict.{Dict, lookup, insert}
use proxmoxve_integration.Prelude.Int.{ℤ, pos, negsuc}
use proxmoxve_integration.Prelude.Sets.{set_of, append_new}
use proxmoxve_integration.Prelude.Sort.{sort_by}
use proxmoxve_integration.Prelude.Text.{
  Text, text, text_leb, last_part, split, count_char, starts_with,
}
use proxmoxve_integration.Json
use proxmoxve_integration.Json.{
  Value, null, bool, int, float, str, Fields, get, truthy, is_text, rows, str_of, fields?,
}

-- `STORAGE_PREFIX`
abbrev pub prefix : Text
prefix = text "storage/"

unfoldable pub storage_name : Text → Text
storage_name id = last_part b'/' id

-- The middle of three parts.
abbrev middle : List Text → Option Text
middle (a ∷ node ∷ c ∷ []) = some node
middle _ = none

unfoldable pub storage_node : Text → Option Text
storage_node id = middle (split b'/' id)

unfoldable pub is_shared_storage_id : Text → Bool
is_shared_storage_id id = starts_with prefix id && nat_beq (count_char b'/' id) 1

unfoldable pub shared_storage_id : Text → Text
shared_storage_id name = prefix ++ name

abbrev is_str : Value → Bool
is_str (str s) = true
is_str _ = false

-- A storage row of a `cluster/resources` listing.
abbrev pub storage_entry : Value → Option Fields
storage_entry v = elim (fields? v) [
  | none ↦ none
  | some fs ↦
      if is_text (text "storage") (get (text "type") fs)
        && is_str (get (text "id") fs)
        && truthy (get (text "storage") fs)
      then some fs
      else none
]

unfoldable pub storage_entries : Value → List Fields
storage_entries resources = collect storage_entry (rows resources)

-- `v in (1, True, "1")`: Python's 1, True and 1.0 are equal.
abbrev pub is_one : Value → Bool
is_one (bool b) = b
is_one (int (pos n)) = nat_beq n 1
is_one (float (pos m) k) = nat_beq m (2 ^ k)
is_one (str s) = s == text "1"
is_one _ = false

-- How Python prints what is no text.
module _ (repr : Value → Text) where
  -- `str(entry["storage"])` and `str(entry["id"])`
  abbrev pub entry_name : Fields → Text
  entry_name entry = str_of repr (get (text "storage") entry)

  abbrev pub entry_id : Fields → Text
  entry_id entry = str_of repr (get (text "id") entry)

  abbrev pub is_shared : Fields → Bool
  is_shared entry = is_one (get (text "shared") entry)

  unfoldable pub shared_storage_names : Value → List Text
  shared_storage_names resources =
      set_of (map entry_name (keep is_shared (storage_entries resources)))

  abbrev pub tracked_id : List Text → Fields → Text
  tracked_id shared entry =
      if contains shared (entry_name entry)
      then shared_storage_id (entry_name entry)
      else entry_id entry

  unfoldable pub tracked_storage_ids : Value → List Text
  tracked_storage_ids resources =
      sort_by text_leb
        (set_of (map (tracked_id (shared_storage_names resources)) (storage_entries resources)))

  abbrev choice_label : List Text → Text → Text
  choice_label shared id =
      if contains shared (storage_name id) then storage_name id ++ text " (shared)" else id

  abbrev choices_from : List Text → Dict Text Text → List Text → Dict Text Text
  choices_from shared choices [] = choices
  choices_from shared choices (id ∷ ids) =
      choices_from shared (insert id (choice_label shared id) choices) ids

  unfoldable pub storage_choices : Value → Dict Text Text
  storage_choices resources =
      choices_from (shared_storage_names resources) [] (tracked_storage_ids resources)

  -- `entry.get("content", "")`: a missing key gives the empty text, a null prints as "None".
  abbrev content : Fields → Text
  content entry = elim (Json.find (text "content") entry) [ none ↦ [] | some v ↦ str_of repr v ]

  unfoldable pub backup_storage_options : Value → List Text
  backup_storage_options resources = sort_by text_leb (
      set_of (
        map entry_name (
          keep (λ entry. contains (split b',' (content entry)) (text "backup"))
            (storage_entries resources))))

-- The ids that pass through, and those of each shared storage under its name. A list in the dict
-- is never empty.
pub record SortedOut : Type 0 where
  pub new_selection : List Text
  pub per_name : Dict Text (List Text)

abbrev pub is_settled : List Text → Text → Bool
is_settled shared id = is_shared_storage_id id || not (contains shared (storage_name id))

abbrev pub ids_under : Text → Dict Text (List Text) → List Text
ids_under name per_name = elim (lookup name per_name) [ none ↦ [] | some ids ↦ ids ]

-- One round of the first loop.
unfoldable pub sort_one : List Text → SortedOut → Text → SortedOut
sort_one shared s id =
    if is_settled shared id
    then record s { new_selection = append_new s.new_selection id }
    else record s {
      per_name =
          insert (storage_name id) (ids_under (storage_name id) s.per_name ++ id ∷ []) s.per_name;
    }

unfoldable pub sort_out : List Text → SortedOut → List Text → SortedOut
sort_out shared s [] = s
sort_out shared s (id ∷ ids) = sort_out shared (sort_one shared s id) ids

pub record Merged : Type 0 where
  pub new_selection : List Text
  pub keepers : Dict Text Text
  pub dropped : List Text

-- The id on the preferred node, otherwise the first.
abbrev pub keeper_of : Option Text → Text → List Text → Text
keeper_of preferred old olds = elim (first (λ id. storage_node id == preferred) (old ∷ olds)) [
  | none ↦ old
  | some id ↦ id
]

-- One round of the second loop, over the ids of a name.
unfoldable pub merge_one : Option Text → Merged → Text → List Text → Merged
merge_one preferred m name [] = m
merge_one preferred m name (old ∷ olds) = record {
  new_selection = append_new m.new_selection (shared_storage_id name);
  keepers = insert (shared_storage_id name) (keeper_of preferred old olds) m.keepers;
  dropped = m.dropped ++ keep (λ id. not (id == keeper_of preferred old olds)) (old ∷ olds);
}

unfoldable pub merge_names : Option Text → Merged → Dict Text (List Text) → Merged
merge_names preferred m [] = m
merge_names preferred m ((name, olds) ∷ per_name) =
    merge_names preferred (merge_one preferred m name olds) per_name

unfoldable pub merge_shared_selection : List Text → List Text → Option Text → Merged
merge_shared_selection selection shared preferred =
    let s = sort_out shared (record { new_selection = []; per_name = [] }) selection in
    merge_names preferred (record { new_selection = s.new_selection; keepers = []; dropped = [] })
      s.per_name
