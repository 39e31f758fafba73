-- ===== src/Stagger/Laws.antt =====
-- Where a coordinator lands in the burst, and that the burst fits what one read serves.
use proxmoxve_integration.Prelude.{
  ℕ, suc, ◌+◌, ◌*◌, ◌≡◌, refl, ◌∙◌, ap, List, [], ◌∷◌, true, false, some, ◌==◌, if◌then◌else◌,
  list_eq, nat_eq, contains, length, Bool-cases, inl, inr, arith, All,
}
use proxmoxve_integration.Prelude.Dict.{Dict, insert, lookup, lookup-insert}
use proxmoxve_integration.Prelude.Sets.{NoRepeat}
use proxmoxve_integration.Prelude.Sort.{
  insert_by, sort_by, IsSorted, sort_by-IsSorted, contains-sort_by, sort_by-NoRepeat,
  length-sort_by,
}
use proxmoxve_integration.Prelude.Text.{
  Text, text_leb, text_leb_total, text_leb_trans, text_leb_antisymm,
}
use proxmoxve_integration.Stagger.{Seconds, offset_at, spread, stagger_offsets}

-- How many keys come before a key.
abbrev pub rank : List Text → Text → ℕ
rank [] k = 0
rank (j ∷ keys) k = let rest = rank keys k in if text_leb k j then rest else suc rest

rank-insert_by :
    (j : Text) (keys : List Text) (k : Text)
    → rank (insert_by text_leb j keys) k ≡ rank (j ∷ keys) k
unfolding insert_by
rank-insert_by j [] k = refl
rank-insert_by j (i ∷ keys) k = ground (arith, rank-insert_by j keys k)

rank-sort_by : (keys : List Text) (k : Text) → rank (sort_by text_leb keys) k ≡ rank keys k
unfolding sort_by
rank-sort_by [] k = refl
rank-sort_by (j ∷ keys) k =
    ground (arith, rank-insert_by j (sort_by text_leb keys) k, rank-sort_by keys k)

lookup-spread_absent :
    (window count index : ℕ) (ordered : List Text) (offsets : Dict Text Seconds) (k : Text)
    → contains ordered k ≡ false
    → lookup k (spread window count index ordered offsets) ≡ lookup k offsets
unfolding spread
lookup-spread_absent window count index [] offsets k h = refl
lookup-spread_absent window count index (j ∷ ordered) offsets k h =
    let s = offset_at window count index in
    ground (
      arith,
      lookup-spread_absent window count (suc index) ordered (insert j s offsets) k,
      lookup-insert k j s offsets,
    )

rank_least : (k : Text) (keys : List Text) → All (λ j. text_leb k j ≡ true) keys → rank keys k ≡ 0
rank_least k [] h = refl
rank_least k (j ∷ keys) h = ground (arith, rank_least k keys)

All-at :
    (j : Text) (keys : List Text) (k : Text)
    → All (λ i. text_leb j i ≡ true) keys
    → contains keys k ≡ true
    → text_leb j k ≡ true
All-at j [] k h c = ground arith
All-at j (i ∷ keys) k h c = ground (arith, All-at j keys k)

not_below : (j k : Text) → text_leb j k ≡ true → (k == j) ≡ false → text_leb k j ≡ false
not_below j k h differs = ground (arith, text_leb_antisymm j k, h, differs)

rank_first :
    (j k : Text) (keys : List Text)
    → All (λ i. text_leb j i ≡ true) keys
    → (k == j) ≡ true
    → rank (j ∷ keys) k ≡ 0
rank_first j k keys h same = ground (arith, rank_least k keys, text_leb_total k k)

rank_later :
    (j k : Text) (keys : List Text)
    → All (λ i. text_leb j i ≡ true) keys
    → (k == j) ≡ false
    → contains keys k ≡ true
    → rank (j ∷ keys) k ≡ suc (rank keys k)
rank_later j k keys h differs c = ground (arith, not_below j k (All-at j keys k h c) differs)

at_index :
    (window count : ℕ) (i j : ℕ)
    → i ≡ j
    → some (offset_at window count i) ≡ some (offset_at window count j)
at_index window count i j p = ap (λ n. some (offset_at window count n)) p

lookup-spread :
    (window count index : ℕ) (ordered : List Text) (offsets : Dict Text Seconds) (k : Text)
    → IsSorted text_leb ordered
    → NoRepeat ordered
    → contains ordered k ≡ true
    → lookup k (spread window count index ordered offsets)
      ≡ some (offset_at window count (index + rank ordered k))
unfolding spread
lookup-spread window count index [] offsets k s n h = ground arith
lookup-spread window count index (j ∷ ordered) offsets k s n h = elim (Bool-cases (k == j)) [
  | inl same ↦
      lookup-spread_absent window count (suc index) ordered
        (insert j (offset_at window count index) offsets) k (ground (arith, n.0))
      ∙ (lookup-insert k j (offset_at window count index) offsets
          ∙ rw (same) (
              at_index window count index (index + rank (j ∷ ordered) k)
                (omega (arith, rank_first j k ordered s.0 same))))
  | inr differs ↦
      lookup-spread window count (suc index) ordered
        (insert j (offset_at window count index) offsets) k s.1 n.1 (ground (arith, h))
      ∙ at_index window count (suc index + rank ordered k) (index + rank (j ∷ ordered) k)
          (omega (arith, rank_later j k ordered s.0 differs (ground (arith, h))))
]

-- A coordinator's offset is its place among the keys in their order, of as many equal parts of the
-- window as there are keys.
pub stagger_offsets-rank :
    (keys : List Text) (window : ℕ) (k : Text)
    → NoRepeat keys
    → contains keys k ≡ true
    → lookup k (stagger_offsets keys window)
      ≡ some (record { over = rank keys k * window; under = length keys })
unfolding stagger_offsets
stagger_offsets-rank keys window k n h =
    let ordered = sort_by text_leb keys in
    rw (← length-sort_by text_leb keys, ← rank-sort_by keys k)
      (lookup-spread window (length ordered) 0 ordered [] k
          (sort_by-IsSorted text_leb text_leb_total text_leb_trans keys)
          (sort_by-NoRepeat text_leb keys n) (contains-sort_by text_leb keys k ∙ h)
        ∙ at_index window (length ordered) (0 + rank ordered k) (rank ordered k) (omega arith))
