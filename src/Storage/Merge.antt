-- ===== src/Storage/Merge.antt =====
-- `merge_shared_selection` of storage.py: what a selection becomes, and that a second run finds
-- nothing to do.
use mathlib.Core.List.{append-nil, append_assoc}
use proxmoxve_integration.Prelude.{
  ◌≡◌, refl, ◌∙◌, List, [], ◌∷◌, ◌++◌, true, false, Option, arith, contains, nat_eq, list_eq, All,
  All-append, Bool-cases, inl, inr,
}
use proxmoxve_integration.Prelude.Dict.{Dict, insert}
use proxmoxve_integration.Prelude.Sets.{append_new, NoRepeat, append_new-NoRepeat, contains-append}
use proxmoxve_integration.Prelude.Text.{Text, Lacks}
use proxmoxve_integration.Storage.{
  storage_name, shared_storage_id, is_settled, SortedOut, sort_out, Merged, merge_names, sort_one,
  merge_one, merge_shared_selection,
}
use proxmoxve_integration.Storage.Ids.{storage_name-Lacks, is_shared_storage_id-shared_storage_id}

-- Ids that the merge lets through, each once.
abbrev pub IsCurrent : List Text → List Text → Type 0
IsCurrent shared ids = All (λ id. is_settled shared id ≡ true) ids × NoRepeat ids

abbrev NamesLack : Dict Text (List Text) → Type 0
NamesLack per_name = All (λ (entry : Text × List Text). Lacks b'/' entry.0) per_name

append_new-All :
    (P : Text → Type 0) (xs : List Text) (a : Text) → All P xs → P a → All P (append_new xs a)
unfolding append_new
append_new-All P xs a h p = elim (Bool-cases (contains xs a)) [
  | inl old ↦ rw old h
  | inr new ↦ rw new (All-append P xs (a ∷ []) h (p, tt))
]

append_new-IsCurrent :
    (shared ids : List Text) (id : Text)
    → IsCurrent shared ids
    → is_settled shared id ≡ true
    → IsCurrent shared (append_new ids id)
append_new-IsCurrent shared ids id c s =
    (append_new-All (λ i. is_settled shared i ≡ true) ids id c.0 s, append_new-NoRepeat ids id c.1)

insert-NamesLack :
    (name : Text) (ids : List Text) (d : Dict Text (List Text))
    → Lacks b'/' name
    → NamesLack d
    → NamesLack (insert name ids d)
unfolding insert
insert-NamesLack name ids [] h k = (h, tt)
insert-NamesLack name ids ((j, w) ∷ d) h k = ground (arith, insert-NamesLack name ids d h)

abbrev IsSortedOut : List Text → SortedOut → Type 0
IsSortedOut shared s = IsCurrent shared s.new_selection × NamesLack s.per_name

sort_one-IsSortedOut :
    (shared : List Text) (s : SortedOut) (id : Text)
    → IsSortedOut shared s
    → IsSortedOut shared (sort_one shared s id)
unfolding sort_one
sort_one-IsSortedOut shared s id c = elim (Bool-cases (is_settled shared id)) [
  | inl settled ↦ rw settled (append_new-IsCurrent shared s.new_selection id c.0 settled, c.1)
  | inr per ↦
      rw per (c.0, insert-NamesLack (storage_name id) _ s.per_name (storage_name-Lacks id) c.1)
]

sort_out-IsSortedOut :
    (shared : List Text) (s : SortedOut) (ids : List Text)
    → IsSortedOut shared s
    → IsSortedOut shared (sort_out shared s ids)
unfolding sort_out
sort_out-IsSortedOut shared s [] c = c
sort_out-IsSortedOut shared s (id ∷ ids) c =
    sort_out-IsSortedOut shared (sort_one shared s id) ids (sort_one-IsSortedOut shared s id c)

merge_one-IsCurrent :
    (shared : List Text) (preferred : Option Text) (m : Merged) (name : Text) (olds : List Text)
    → IsCurrent shared m.new_selection
    → Lacks b'/' name
    → IsCurrent shared (merge_one preferred m name olds).new_selection
unfolding merge_one
merge_one-IsCurrent shared preferred m name [] c n = c
merge_one-IsCurrent shared preferred m name (old ∷ olds) c n =
    append_new-IsCurrent shared m.new_selection (shared_storage_id name) c
      (ground (arith, is_shared_storage_id-shared_storage_id name n))

merge_names-IsCurrent :
    (shared : List Text) (preferred : Option Text) (m : Merged) (per_name : Dict Text (List Text))
    → IsCurrent shared m.new_selection
    → NamesLack per_name
    → IsCurrent shared (merge_names preferred m per_name).new_selection
unfolding merge_names
merge_names-IsCurrent shared preferred m [] c n = c
merge_names-IsCurrent shared preferred m ((name, olds) ∷ per_name) c n =
    merge_names-IsCurrent shared preferred (merge_one preferred m name olds) per_name
      (merge_one-IsCurrent shared preferred m name olds c n.0) n.1

-- The merged selection names no storage twice, and keeps no per-node id of a shared storage.
pub merge_shared_selection-IsCurrent :
    (selection shared : List Text) (preferred : Option Text)
    → IsCurrent shared (merge_shared_selection selection shared preferred).new_selection
unfolding merge_shared_selection
merge_shared_selection-IsCurrent selection shared preferred =
    let (c, n) =
      sort_out-IsSortedOut shared (record { new_selection = []; per_name = [] }) selection
        ((tt, tt), tt) in
    merge_names-IsCurrent shared preferred _ _ c n

NoRepeat-middle :
    (before : List Text) (id : Text) (ids : List Text)
    → NoRepeat (before ++ id ∷ ids)
    → contains before id ≡ false
NoRepeat-middle [] id ids n = refl
NoRepeat-middle (b ∷ before) id ids n =
    ground (arith, NoRepeat-middle before id ids, contains-append before (id ∷ ids) b)

sort_out_settled :
    (shared before ids : List Text)
    → All (λ id. is_settled shared id ≡ true) ids
    → NoRepeat (before ++ ids)
    → sort_out shared (record { new_selection = before; per_name = [] }) ids
      ≡ record { new_selection = before ++ ids; per_name = [] }
unfolding sort_out sort_one append_new
sort_out_settled shared before [] h n = rw append-nil
sort_out_settled shared before (id ∷ ids) h n =
    rw (h.0, NoRepeat-middle before id ids n)
      (sort_out_settled shared (before ++ id ∷ []) ids h.1
          (rw (append_assoc before (id ∷ []) ids) n)
        ∙ rw (append_assoc before (id ∷ []) ids))

-- A selection that is current stays as it is: nothing is kept under a new id and nothing dropped.
pub merge_shared_selection_of_IsCurrent :
    (selection shared : List Text) (preferred : Option Text)
    → IsCurrent shared selection
    → merge_shared_selection selection shared preferred
      ≡ record { new_selection = selection; keepers = []; dropped = [] }
unfolding merge_shared_selection merge_names
merge_shared_selection_of_IsCurrent selection shared preferred c =
    rw (sort_out_settled shared [] selection c.0 c.1)
