-- ===== src/Discovery/Changes.antt =====
-- What a run of discovery adds and removes, and that the runtime then tracks what was found.
use mathlib.Core.List.{append_assoc}
use proxmoxve_integration.Prelude.{
  ℕ, ◌≡◌, refl, ◌∙◌, ap, List, [], ◌∷◌, ◌++◌, true, false, not, none, some, ◌&&◌, ◌||◌, contains,
  list_eq, nat_eq, arith, is_empty, Bool-cases, Option-cases, inl, inr,
}
use proxmoxve_integration.Prelude.Sets.{
  difference, NoRepeat, contains-append, contains-difference, difference-NoRepeat,
}
use proxmoxve_integration.Prelude.Sort.{
  sort_by, IsSorted, sort_by-IsSorted, contains-sort_by, sort_by-NoRepeat,
}
use proxmoxve_integration.Prelude.Text.{Text, text_leb_total, text_leb_trans}
use proxmoxve_integration.Json.{Value, Values}
use proxmoxve_integration.Discovery.{
  Resources, Key, nodes, qemu, lxc, storage, at, by_keys, discovered_resources, ConfigEntry,
  tracked_resources, key_leb, by_sort_key, sort_key, sorted_difference, resource_changes,
  remember_resources,
}
use proxmoxve_integration.Discovery.Coordinator.{
  found, value_error, is_nothing, events_of, async_update_data,
}

contains-sorted_difference :
    (a b : List Text) (v : Text)
    → contains (sorted_difference a b) v ≡ (contains a v && not (contains b v))
unfolding sorted_difference
contains-sorted_difference a b v =
    contains-sort_by by_sort_key (difference a b) v ∙ contains-difference a b v

key_leb_total : (a b : ℕ × Text) → (key_leb a b || key_leb b a) ≡ true
key_leb_total a b = ground (arith, text_leb_total a.1 b.1)

key_leb_trans : (a b c : ℕ × Text) → key_leb a b ≡ true → key_leb b c ≡ true → key_leb a c ≡ true
key_leb_trans a b c p q = ground (arith, p, q, text_leb_trans a.1 b.1 c.1)

sorted_difference-IsSorted : (a b : List Text) → IsSorted by_sort_key (sorted_difference a b)
unfolding sorted_difference
sorted_difference-IsSorted a b =
    sort_by-IsSorted by_sort_key (λ x y. key_leb_total (sort_key x) (sort_key y))
      (λ x y z. key_leb_trans (sort_key x) (sort_key y) (sort_key z)) (difference a b)

sorted_difference-NoRepeat : (a b : List Text) → NoRepeat (sorted_difference a b)
unfolding sorted_difference
sorted_difference-NoRepeat a b =
    sort_by-NoRepeat by_sort_key (difference a b) (difference-NoRepeat a b)

abbrev pub IsSortedSet : List Text → Type 0
IsSortedSet ids = IsSorted by_sort_key ids × NoRepeat ids

added_at :
    (tracked r : Resources) (k : Key)
    → at k (resource_changes tracked r).0 ≡ sorted_difference (at k r) (at k tracked)
unfolding resource_changes
added_at tracked r nodes = refl
added_at tracked r qemu = refl
added_at tracked r lxc = refl
added_at tracked r storage = refl

removed_at :
    (tracked r : Resources) (k : Key)
    → at k (resource_changes tracked r).1 ≡ sorted_difference (at k tracked) (at k r)
unfolding resource_changes
removed_at tracked r nodes = refl
removed_at tracked r qemu = refl
removed_at tracked r lxc = refl
removed_at tracked r storage = refl

-- For each kind of resource, what is added is what was found and not tracked, and what is removed is
-- what was tracked and not found; both are sorted, guests by number, and hold nothing twice.
resource_changes_exact :
    (tracked r : Resources) (k : Key) (v : Text)
    → let (added, removed) = resource_changes tracked r in
      (contains (at k added) v ≡ (contains (at k r) v && not (contains (at k tracked) v)))
      × (contains (at k removed) v ≡ (contains (at k tracked) v && not (contains (at k r) v)))
      × IsSortedSet (at k added)
      × IsSortedSet (at k removed)
resource_changes_exact tracked r k v =
    rw (added_at tracked r k, removed_at tracked r k)
      (
        contains-sorted_difference (at k r) (at k tracked) v,
        contains-sorted_difference (at k tracked) (at k r) v,
        (
          sorted_difference-IsSorted (at k r) (at k tracked),
          sorted_difference-NoRepeat (at k r) (at k tracked),
        ),
        (
          sorted_difference-IsSorted (at k tracked) (at k r),
          sorted_difference-NoRepeat (at k tracked) (at k r),
        ),
      )

difference_suffix : (ys xs : List Text) → difference xs (ys ++ xs) ≡ []
unfolding difference
difference_suffix ys [] = refl
difference_suffix ys (x ∷ xs) = ground (
  arith,
  difference_suffix (ys ++ x ∷ []) xs,
  append_assoc ys (x ∷ []) xs,
  contains-append ys (x ∷ xs) x,
)

sorted_difference_same : (xs : List Text) → sorted_difference xs xs ≡ []
unfolding sorted_difference sort_by
sorted_difference_same xs = ap (sort_by by_sort_key) (difference_suffix [] xs)

changes_of_same :
    (r : Resources)
    → let (added, removed) = resource_changes (by_keys (λ k. at k r)) r in
      (is_nothing added && is_nothing removed) ≡ true
unfolding resource_changes
changes_of_same r = ground (
  arith,
  sorted_difference_same r.nodes,
  sorted_difference_same r.qemu,
  sorted_difference_same r.lxc,
  sorted_difference_same r.storage,
)

empty-contains : (xs : List Text) (v : Text) → is_empty xs ≡ true → contains xs v ≡ false
empty-contains [] v h = refl
empty-contains (x ∷ xs) v h = ground (arith, h)

nothing_at : (r : Resources) (k : Key) → is_nothing r ≡ true → is_empty (at k r) ≡ true
nothing_at r nodes h = ground (arith, h)
nothing_at r qemu h = ground (arith, h)
nothing_at r lxc h = ground (arith, h)
nothing_at r storage h = ground (arith, h)

no_changes :
    (tracked r : Resources) (k : Key) (v : Text)
    → (is_nothing (resource_changes tracked r).0 && is_nothing (resource_changes tracked r).1)
      ≡ true
    → contains (at k tracked) v ≡ contains (at k r) v
no_changes tracked r k v h = ground (
  arith,
  h,
  nothing_at (resource_changes tracked r).0 k,
  nothing_at (resource_changes tracked r).1 k,
  empty-contains (at k (resource_changes tracked r).0) v,
  empty-contains (at k (resource_changes tracked r).1) v,
  (resource_changes_exact tracked r k v).0,
  (resource_changes_exact tracked r k v).1,
)

module _ (repr : Value → Text) where
  -- Once a run of discovery has found resources, the runtime tracks the same ones, of each kind.
  pub async_update_data_tracks :
      (resources : Values) (entry : ConfigEntry) (r : Resources) (k : Key) (v : Text)
      → discovered_resources repr resources ≡ some r
      → contains
          (at k (tracked_resources repr (async_update_data repr (some resources) entry).1.0))
          v
        ≡ contains (at k r) v
  unfolding async_update_data
  async_update_data_tracks resources entry r k v listed =
      let changes = resource_changes (tracked_resources repr entry) r in
      rw (listed, async_update_data)
        (elim (Bool-cases (is_nothing changes.0 && is_nothing changes.1)) [
          | inl same ↦
              rw (same, async_update_data) (no_changes (tracked_resources repr entry) r k v same)
          | inr differ ↦ rw (differ, async_update_data) refl
        ])

  run_bad :
      (resources : Values) (entry : ConfigEntry)
      → discovered_resources repr resources ≡ none
      → async_update_data repr (some resources) entry ≡ (value_error, (entry, []))
  unfolding async_update_data
  run_bad resources entry bad = rw (bad, async_update_data) refl

  run_same :
      (resources : Values) (entry : ConfigEntry) (r : Resources)
      → discovered_resources repr resources ≡ some r
      → let changes = resource_changes (tracked_resources repr entry) r in
        (is_nothing changes.0 && is_nothing changes.1) ≡ true
        → async_update_data repr (some resources) entry ≡ (found r, (entry, []))
  unfolding async_update_data
  run_same resources entry r listed same = rw (listed, async_update_data, same) refl

  run_differ :
      (resources : Values) (entry : ConfigEntry) (r : Resources)
      → discovered_resources repr resources ≡ some r
      → let changes = resource_changes (tracked_resources repr entry) r in
        (is_nothing changes.0 && is_nothing changes.1) ≡ false
        → async_update_data repr (some resources) entry
          ≡ (found r, (remember_resources r entry, events_of changes.0 changes.1))
  unfolding async_update_data
  run_differ resources entry r listed differ = rw (listed, async_update_data, differ) refl

  -- A second run on the same listing does nothing: it answers like the first, no resource is added or
  -- removed, and the entry stays as the first run left it.
  pub async_update_data_settles :
      (resources : Values) (entry : ConfigEntry)
      → let first = async_update_data repr (some resources) entry in
        async_update_data repr (some resources) first.1.0 ≡ (first.0, (first.1.0, []))
  async_update_data_settles resources entry =
      elim (Option-cases (discovered_resources repr resources)) [
        | inl bad ↦ rw (run_bad resources entry bad) (run_bad resources entry bad)
        | inr (r, listed) ↦
            let changes = resource_changes (tracked_resources repr entry) r in
            elim (Bool-cases (is_nothing changes.0 && is_nothing changes.1)) [
              | inl same ↦
                  rw (run_same resources entry r listed same)
                    (run_same resources entry r listed same)
              | inr differ ↦
                  rw (run_differ resources entry r listed differ)
                    (run_same resources (remember_resources r entry) r listed (changes_of_same r))
            ]
      ]
