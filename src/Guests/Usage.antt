-- ===== src/Guests/Usage.antt =====
-- A machine's file systems: what is used is within what there is.
use proxmoxve_integration.Prelude.{
  ℕ, ◌≤◌, ◌≡◌, refl, List, [], ◌∷◌, Bool, true, false, Option, none, some, ◌==◌, ◌&&◌, leb, all,
  contains, is_empty, list_eq, nat_eq, and_true, arith, Bool-cases, inl, inr,
}
use mathlib.Core.Path.{subst}
use proxmoxve_integration.Prelude.Dict.{Dict, keys, values, lookup, insert}
use proxmoxve_integration.Prelude.Int.{ℤ}
use proxmoxve_integration.Prelude.Text.{Text, text}
use proxmoxve_integration.Json.{Value, null, bool, int, float, str, arr, obj, Fields, get, elements}
use proxmoxve_integration.Guests.{
  above_zero, number?, first_disk, device_key, Sizes, max, or_zero, note_size, note_sizes,
  note_disk, note_filesystems, sum, same_keys, guest_disk, entries_of, guest_disk_in, guest_disk_of,
}

-- Two dicts with the same keys in order, each value of the one at most that of the other.
aligned : Dict Text ℕ → Dict Text ℕ → Bool
aligned [] [] = true
aligned [] (t ∷ ts) = false
aligned (u ∷ us) [] = false
aligned ((k, u) ∷ us) ((j, t) ∷ ts) = (k == j) && (leb u t && aligned us ts)

abbrev fit : Option ℤ → Option ℤ → Bool
fit none total = true
fit (some used) none = false
fit (some used) (some total) = leb (above_zero used) (above_zero total)

-- A file system that says how much of it is used says how much there is, too, and that is no less.
abbrev pub fits : Value → Bool
fits (obj fs) = fit (number? (get (text "used-bytes") fs)) (number? (get (text "total-bytes") fs))
fits v = true

lookup-aligned :
    (k : Text) (us ts : Dict Text ℕ)
    → aligned us ts ≡ true
    → or_zero (lookup k us) ≤ or_zero (lookup k ts)
unfolding aligned
lookup-aligned k [] [] h = omega arith
lookup-aligned k [] (t ∷ ts) h = ground (arith, h)
lookup-aligned k (u ∷ us) [] h = ground (arith, h)
lookup-aligned k ((i, u) ∷ us) ((j, t) ∷ ts) h = ground (arith, h, lookup-aligned k us ts)

insert-aligned :
    (k : Text) (a b : ℕ) (us ts : Dict Text ℕ)
    → a ≤ b
    → aligned us ts ≡ true
    → aligned (insert k a us) (insert k b ts) ≡ true
unfolding aligned insert
insert-aligned k a b [] [] le h = ground (arith, le)
insert-aligned k a b [] (t ∷ ts) le h = ground (arith, h)
insert-aligned k a b (u ∷ us) [] le h = ground (arith, h)
insert-aligned k a b ((i, u) ∷ us) ((j, t) ∷ ts) le h =
    ground (arith, le, h, insert-aligned k a b us ts le)

max-le : (a b c d : ℕ) → a ≤ b → c ≤ d → max a c ≤ max b d
max-le a b c d h k = ground (arith, h, k)

sum-le : (us ts : Dict Text ℕ) → aligned us ts ≡ true → sum (values us) ≤ sum (values ts)
unfolding aligned
sum-le [] [] h = omega arith
sum-le [] (t ∷ ts) h = ground (arith, h)
sum-le (u ∷ us) [] h = ground (arith, h)
sum-le ((i, u) ∷ us) ((j, t) ∷ ts) h = ground (arith, h, sum-le us ts)

keys-aligned : (us ts : Dict Text ℕ) → aligned us ts ≡ true → keys us ≡ keys ts
unfolding aligned
keys-aligned [] [] h = refl
keys-aligned [] (t ∷ ts) h = ground (arith, h)
keys-aligned (u ∷ us) [] h = ground (arith, h)
keys-aligned ((i, u) ∷ us) ((j, t) ∷ ts) h = ground (arith, h, keys-aligned us ts)

all_in :
    (xs : List Text) (q : Text → Bool)
    → ((x : Text) → contains xs x ≡ true → q x ≡ true)
    → all q xs ≡ true
all_in [] q h = refl
all_in (x ∷ xs) q h = ground (arith, h x, all_in xs q (λ y k. h y (ground (arith, k))))

same_keys-aligned : (us ts : Dict Text ℕ) → aligned us ts ≡ true → same_keys ts us ≡ true
same_keys-aligned us ts h =
    let same = keys-aligned us ts h in
    rw (same, all_in (keys ts) (contains (keys ts)) (λ x k. k)) refl

note_size-aligned :
    (k : Text) (u t : ℤ) (us ts : Dict Text ℕ)
    → above_zero u ≤ above_zero t
    → aligned us ts ≡ true
    → aligned (note_size k u us) (note_size k t ts) ≡ true
unfolding note_size
note_size-aligned k u t us ts le h =
    insert-aligned k _ _ us ts
      (max-le (or_zero (lookup k us)) (or_zero (lookup k ts)) (above_zero u) (above_zero t)
        (lookup-aligned k us ts h) le)
      h

leb-le : (a b : ℕ) → leb a b ≡ true → a ≤ b
leb-le a b h = ground (arith, h)

note_sizes-aligned :
    (key : Option Text) (u t : Option ℤ) (s : Sizes)
    → fit u t ≡ true
    → aligned s.used s.total ≡ true
    → let after = note_sizes key u t s in aligned after.used after.total ≡ true
note_sizes-aligned none u t s f h = h
note_sizes-aligned (some key) none t s f h = h
note_sizes-aligned (some key) (some u) none s f h = ground (arith, f)
note_sizes-aligned (some key) (some u) (some t) s f h =
    note_size-aligned key u t s.used s.total (leb-le (above_zero u) (above_zero t) f) h

note_disk-aligned :
    (disk0 : Option Fields) (fs : Fields) (s : Sizes)
    → fits (obj fs) ≡ true
    → aligned s.used s.total ≡ true
    → let after = note_disk disk0 fs s in aligned after.used after.total ≡ true
note_disk-aligned none fs s f h = h
note_disk-aligned (some disk0) fs s f h =
    note_sizes-aligned (device_key disk0 fs) (number? (get (text "used-bytes") fs))
      (number? (get (text "total-bytes") fs)) s f h

abbrev AllAligned : Option Sizes → Type 0
AllAligned none = Unit
AllAligned (some s) = aligned s.used s.total ≡ true

AllAligned-first :
    (o : Option (Option Fields)) (fs : Fields) (entries : List Value) (s : Sizes)
    → ((disk0 : Option Fields) → AllAligned (note_filesystems entries (note_disk disk0 fs s)))
    → AllAligned
        (elim o [ none ↦ none | some disk0 ↦ note_filesystems entries (note_disk disk0 fs s) ])
AllAligned-first none fs entries s rest = tt
AllAligned-first (some disk0) fs entries s rest = rest disk0

note_filesystems-AllAligned :
    (entries : List Value) (s : Sizes)
    → all fits entries ≡ true
    → aligned s.used s.total ≡ true
    → AllAligned (note_filesystems entries s)
unfolding note_filesystems
note_filesystems-AllAligned [] s f h = h
note_filesystems-AllAligned (obj fs ∷ entries) s f h =
    let (one, others) = and_true (fits (obj fs)) (all fits entries) f in
    AllAligned-first (first_disk (get (text "disk") fs)) fs entries s (λ disk0.
      note_filesystems-AllAligned entries (note_disk disk0 fs s) others
        (note_disk-aligned disk0 fs s one h))
note_filesystems-AllAligned (null ∷ entries) s f h = note_filesystems-AllAligned entries s f h
note_filesystems-AllAligned (bool b ∷ entries) s f h = note_filesystems-AllAligned entries s f h
note_filesystems-AllAligned (int n ∷ entries) s f h = note_filesystems-AllAligned entries s f h
note_filesystems-AllAligned (float m k ∷ entries) s f h = note_filesystems-AllAligned entries s f h
note_filesystems-AllAligned (str t ∷ entries) s f h = note_filesystems-AllAligned entries s f h
note_filesystems-AllAligned (arr vs ∷ entries) s f h = note_filesystems-AllAligned entries s f h

-- Within the total, if there is anything.
abbrev pub IsWithin : Option ℕ → Option ℕ → Type 0
IsWithin none total = total ≡ none
IsWithin (some used) none = ⊥
IsWithin (some used) (some total) = used ≤ total

guest_disk-IsWithin :
    (s : Sizes) → aligned s.used s.total ≡ true → IsWithin (guest_disk s).0 (guest_disk s).1
unfolding guest_disk
guest_disk-IsWithin s h = elim (Bool-cases (is_empty s.used)) [
  | inl none_used ↦ rw (none_used) refl
  | inr some_used ↦ rw (some_used, same_keys-aligned s.used s.total h) (sum-le s.used s.total h)
]

abbrev pub listed : Value → List Value
listed (arr vs) = elements vs
listed v = []

abbrev Within : Option (Option ℕ × Option ℕ) → Type 0
Within none = Unit
Within (some (used, total)) = IsWithin used total

Within-some :
    (o : Option (Option ℕ × Option ℕ)) (used total : Option ℕ)
    → Within o
    → o ≡ some (used, total)
    → IsWithin used total
Within-some o used total w h = subst Within h w

Within-sizes :
    (o : Option Sizes)
    → AllAligned o
    → Within (elim o [ none ↦ none | some s ↦ some (guest_disk s) ])
Within-sizes none h = tt
Within-sizes (some s) h = guest_disk-IsWithin s h

Within-in : (v : Value) → all fits (listed v) ≡ true → Within (guest_disk_in v)
unfolding aligned
Within-in (arr vs) f =
    Within-sizes (note_filesystems (elements vs) (record { used = []; total = [] }))
      (note_filesystems-AllAligned (elements vs) (record { used = []; total = [] }) f refl)
Within-in null f = refl
Within-in (bool b) f = refl
Within-in (int n) f = refl
Within-in (float m k) f = refl
Within-in (str s) f = refl
Within-in (obj fs) f = refl

-- Where each file system that says how much of it is used says how much there is, and no less, an answer of
-- the guest agent that can be read comes to a used size with a total that is no less, or to neither.
pub guest_disk_of-IsWithin :
    (fsinfo : Value) (used total : Option ℕ)
    → all fits (listed (entries_of fsinfo)) ≡ true
    → guest_disk_of fsinfo ≡ some (used, total)
    → IsWithin used total
unfolding guest_disk_of
guest_disk_of-IsWithin fsinfo used total f h =
    Within-some (guest_disk_in (entries_of fsinfo)) used total (Within-in (entries_of fsinfo) f) h
