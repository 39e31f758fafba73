-- ===== src/Storage/Tracked.antt =====
-- `tracked_storage_ids` of storage.py: one id for each storage that is shared, one for each node of
-- a storage that is not.
use proxmoxve_integration.Prelude.{
  ◌≡◌, sym, ◌∙◌, List, [], ◌∷◌, true, Option, arith, contains, map, nat_eq, list_eq, ◌==◌, All,
  Bool-cases, inl, inr, ==_iff,
}
use proxmoxve_integration.Prelude.Sets.{NoRepeat, set_of-NoRepeat, contains-set_of}
use proxmoxve_integration.Prelude.Sort.{
  IsSorted, sort_by-IsSorted, contains-sort_by, sort_by-NoRepeat,
}
use proxmoxve_integration.Prelude.Text.{Text, Lacks, text_leb, text_leb_total, text_leb_trans}
use proxmoxve_integration.Json.{Value, Fields}
use proxmoxve_integration.Storage.{
  storage_name, shared_storage_id, storage_entries, entry_name, entry_id, tracked_id,
  shared_storage_names, tracked_storage_ids, is_settled, merge_shared_selection,
}
use proxmoxve_integration.Storage.Ids.{
  storage_name-Lacks, storage_name-shared_storage_id, storage_name-per_node_id, per_node_id,
  is_shared_storage_id-shared_storage_id,
}
use proxmoxve_integration.Storage.Merge.{merge_shared_selection_of_IsCurrent}

module _ (repr : Value → Text) where
  -- A row as Proxmox writes it: its id is `storage/<node>/<name>`, and the name has no slash.
  abbrev pub IsRow : Fields → Type 0
  IsRow entry =
      (node : Text) × (entry_id repr entry ≡ per_node_id node (entry_name repr entry))
      × Lacks b'/' (entry_name repr entry)

  abbrev pub IsListing : Value → Type 0
  IsListing resources = All IsRow (storage_entries resources)

  tracked_id-shared :
      (shared : List Text) (entry : Fields) (id : Text)
      → IsRow entry
      → id ≡ tracked_id repr shared entry
      → contains shared (storage_name id) ≡ true
      → id ≡ shared_storage_id (storage_name id)
  tracked_id-shared shared entry id (node, e, k) h s =
      elim (Bool-cases (contains shared (entry_name repr entry))) [
        | inl listed ↦ ground (arith, storage_name-shared_storage_id (entry_name repr entry) k)
        | inr other ↦ ground (arith, storage_name-per_node_id node (entry_name repr entry) k)
      ]

  map-tracked_id-shared :
      (shared : List Text) (rows : List Fields) (id : Text)
      → All IsRow rows
      → contains (map (tracked_id repr shared) rows) id ≡ true
      → contains shared (storage_name id) ≡ true
      → id ≡ shared_storage_id (storage_name id)
  map-tracked_id-shared shared [] id h c s = ground arith
  map-tracked_id-shared shared (row ∷ rows) id h c s =
      elim (Bool-cases (id == tracked_id repr shared row)) [
        | inl same ↦ tracked_id-shared shared row id h.0 ((==_iff id _).0 same) s
        | inr other ↦ map-tracked_id-shared shared rows id h.1 (rw other at c) s
      ]

  contains-tracked_storage_ids :
      (resources : Value) (id : Text)
      → contains (tracked_storage_ids repr resources) id
        ≡ contains
            (map
              (tracked_id repr (shared_storage_names repr resources))
              (storage_entries resources))
            id
  unfolding tracked_storage_ids
  contains-tracked_storage_ids resources id = contains-sort_by text_leb _ id ∙ contains-set_of _ id

  -- A storage that the listing marks as shared is tracked under its own name alone: no id of one
  -- of its nodes is tracked.
  tracked_storage_ids_shared :
      (resources : Value) (id : Text)
      → IsListing resources
      → contains (tracked_storage_ids repr resources) id ≡ true
      → contains (shared_storage_names repr resources) (storage_name id) ≡ true
      → id ≡ shared_storage_id (storage_name id)
  tracked_storage_ids_shared resources id listing tracked =
      map-tracked_id-shared (shared_storage_names repr resources) (storage_entries resources) id
        listing (sym (contains-tracked_storage_ids resources id) ∙ tracked)

  -- The ids are ascending and none is listed twice.
  pub tracked_storage_ids-IsSorted :
      (resources : Value)
      → IsSorted text_leb (tracked_storage_ids repr resources)
        × NoRepeat (tracked_storage_ids repr resources)
  unfolding tracked_storage_ids
  tracked_storage_ids-IsSorted resources = (
    sort_by-IsSorted text_leb text_leb_total text_leb_trans _,
    sort_by-NoRepeat text_leb _ (set_of-NoRepeat _),
  )

  All-of_contains :
      (P : Text → Type 0) (ids : List Text)
      → ((id : Text) → contains ids id ≡ true → P id)
      → All P ids
  All-of_contains P [] h = tt
  All-of_contains P (id ∷ ids) h =
      (h id (ground arith), All-of_contains P ids (λ i m. h i (ground arith)))

  settled_of_tracked :
      (resources : Value) (id : Text)
      → IsListing resources
      → contains (tracked_storage_ids repr resources) id ≡ true
      → is_settled (shared_storage_names repr resources) id ≡ true
  settled_of_tracked resources id listing tracked =
      elim (Bool-cases (contains (shared_storage_names repr resources) (storage_name id))) [
        | inl shared ↦ ground (
          arith,
          tracked_storage_ids_shared resources id listing tracked shared,
          is_shared_storage_id-shared_storage_id (storage_name id) (storage_name-Lacks id),
        )
        | inr other ↦ ground arith
      ]

  -- What discovery tracks is already in the form that setup brings a selection to: merging the
  -- shared storages of the listing into it changes nothing.
  merge_shared_selection-tracked_storage_ids :
      (resources : Value) (preferred : Option Text)
      → IsListing resources
      → merge_shared_selection
          (tracked_storage_ids repr resources)
          (shared_storage_names repr resources)
          preferred
        ≡ record { new_selection = tracked_storage_ids repr resources; keepers = []; dropped = [] }
  merge_shared_selection-tracked_storage_ids resources preferred listing =
      merge_shared_selection_of_IsCurrent _ (shared_storage_names repr resources) preferred (
        All-of_contains _ _ (λ id t. settled_of_tracked resources id listing t),
        (tracked_storage_ids-IsSorted resources).1,
      )
