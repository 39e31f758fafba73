-- ===== src/Storage/Tests.antt =====
-- Runs of storage.py on a listing with a shared and a local storage, and the theorems there.
use proxmoxve_integration.Prelude.{
  ◌≡◌, refl, List, [], ◌∷◌, some, none, arith, list_eq, nat_eq, ℕ_discrete, option_eq,
}
use proxmoxve_integration.Prelude.Dict.{insert}
use proxmoxve_integration.Prelude.Int.{pos}
use proxmoxve_integration.Prelude.Sets.{set_of, add, append_new}
use proxmoxve_integration.Prelude.Sort.{sort_by}
use proxmoxve_integration.Prelude.Text.{
  Text, text, text_leb, last_part, split, count_char, starts_with,
}
use proxmoxve_integration.Json.{Value, arr, item, end, obj, field, nil, str, int, null}
use proxmoxve_integration.Storage.{
  storage_name, storage_node, is_shared_storage_id, shared_storage_id, tracked_storage_ids,
  shared_storage_names, storage_choices, merge_shared_selection, backup_storage_options,
  storage_entries, merge_names, sort_one, merge_one, sort_out,
}
use proxmoxve_integration.Storage.Ids.{per_node_id}
use proxmoxve_integration.Storage.Tracked.{IsListing}
use proxmoxve_integration.Storage.Merge.{IsCurrent, merge_shared_selection-IsCurrent}

opened : Unit {0}
unfolding storage_name storage_node is_shared_storage_id shared_storage_id tracked_storage_ids
    shared_storage_names storage_choices merge_shared_selection backup_storage_options
    storage_entries merge_names sort_one merge_one sort_out last_part split count_char starts_with
    set_of add append_new sort_by text_leb insert list_eq option_eq ℕ_discrete
opened = tt

abbrev plain : Value → Text
plain v = []

abbrev row : Text → Text → Value → Text → Value
row node name shared contents = obj (
    field (text "id") (str (per_node_id node name)) (
      field (text "type") (str (text "storage")) (
        field (text "storage") (str name)
          (field (text "content") (str contents) (field (text "shared") shared nil)))))

abbrev listing : Value
listing = arr (
    item (row (text "b") (text "nas") (int (pos 1)) (text "iso,backup")) (
      item (row (text "a") (text "local") (int (pos 0)) (text "iso"))
        (item null (item (row (text "a") (text "nas") (str (text "1")) (text "iso,backup")) end))))

abbrev ids : List Text
ids = text "storage/a/local" ∷ text "storage/nas" ∷ []

listing_tests :
    (tracked_storage_ids plain listing ≡ ids)
    × (storage_choices plain listing
        ≡ (text "storage/a/local", text "storage/a/local")
          ∷ (text "storage/nas", text "nas (shared)")
          ∷ [])
    × (backup_storage_options plain listing ≡ text "nas" ∷ [])
    × (tracked_storage_ids plain null ≡ [])
unfolding opened
listing_tests = (refl, refl, refl, refl)

abbrev picked : List Text
picked =
    text "storage/b/nas"
    ∷ text "storage/a/local"
    ∷ text "storage/a/nas"
    ∷ text "storage/a/local"
    ∷ []

merge_test : merge_shared_selection picked (text "nas" ∷ []) (some (text "a")) ≡ record {
  new_selection = text "storage/a/local" ∷ text "storage/nas" ∷ [];
  keepers = (text "storage/nas", text "storage/a/nas") ∷ [];
  dropped = text "storage/b/nas" ∷ [];
}
unfolding opened
merge_test = refl

listing-IsListing : IsListing plain listing
unfolding opened
listing-IsListing = (
  (text "b", refl, ground arith),
  ((text "a", refl, ground arith), ((text "a", refl, ground arith), tt)),
)

merge_shared_selection-IsCurrent_example :
    IsCurrent (text "nas" ∷ []) (merge_shared_selection picked (text "nas" ∷ []) none).new_selection
merge_shared_selection-IsCurrent_example =
    merge_shared_selection-IsCurrent picked (text "nas" ∷ []) none
