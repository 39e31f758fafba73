-- ===== src/Guests.antt =====
-- coordinator.py: what the QEMU coordinator makes of a machine's own view of its memory and its file systems.
-- Names of devices are texts where they are there.
pub mod Usage
mod Tests
use proxmoxve_integration.Prelude.{
  ℕ, ◌+◌, ◌-◌, List, [], ◌∷◌, Bool, true, false, not, Option, none, some, ◌&&◌, if◌then◌else◌, leb,
  all, contains, list_eq, nat_eq, is_empty,
}
use proxmoxve_integration.Prelude.Dict.{Dict, keys, values, lookup, insert}
use proxmoxve_integration.Prelude.Int.{ℤ, pos, negsuc}
use proxmoxve_integration.Prelude.Text.{Text, text}
use proxmoxve_integration.Json.{
  Value, bool, int, float, arr, obj, item, end, Fields, find, get, text?, truthy, elements,
}
use proxmoxve_integration.Disk.{non_empty}
use proxmoxve_integration.Permissions.{int_of}

-- `max(0, n)`
abbrev pub above_zero : ℤ → ℕ
above_zero (pos n) = n
above_zero (negsuc n) = 0

-- A value that is an `int` or a `float`, as an `int`.
abbrev pub number? : Value → Option ℤ
number? (bool b) = int_of (bool b)
number? (int n) = int_of (int n)
number? (float m k) = int_of (float m k)
number? _ = none

-- The first disk of a file system, if it has disks. The outer `none` is the exception of another shape.
abbrev pub first_of : Value → Option (Option Fields)
first_of (arr (item (obj disk0) rest)) = some (some disk0)
first_of _ = none

abbrev pub first_disk : Value → Option (Option Fields)
first_disk v = if truthy v then first_of v else some none

abbrev pub device_key : Fields → Fields → Option Text
device_key disk0 fs = elim (non_empty (text? (get (text "dev") disk0))) [
  | none ↦ non_empty (text? (get (text "name") fs))
  | some dev ↦ some dev
]

pub record Sizes : Type 0 where
  pub used : Dict Text ℕ
  pub total : Dict Text ℕ

abbrev pub max : ℕ → ℕ → ℕ
max a b = if leb a b then b else a

abbrev pub or_zero : Option ℕ → ℕ
or_zero none = 0
or_zero (some n) = n

-- `sizes[key] = max(sizes.get(key, 0), int(n))`
unfoldable pub note_size : Text → ℤ → Dict Text ℕ → Dict Text ℕ
note_size key n sizes = insert key (max (or_zero (lookup key sizes)) (above_zero n)) sizes

abbrev pub note_total : Text → Option ℤ → Dict Text ℕ → Dict Text ℕ
note_total key none sizes = sizes
note_total key (some n) sizes = note_size key n sizes

abbrev pub note_sizes : Option Text → Option ℤ → Option ℤ → Sizes → Sizes
note_sizes (some key) (some used) total s = record {
  used = note_size key used s.used;
  total = note_total key total s.total;
}
note_sizes _ _ total s = s

abbrev pub note_disk : Option Fields → Fields → Sizes → Sizes
note_disk none fs s = s
note_disk (some disk0) fs s =
    note_sizes (device_key disk0 fs) (number? (get (text "used-bytes") fs))
      (number? (get (text "total-bytes") fs)) s

-- The file systems in turn; an entry that is no dict is passed over.
unfoldable pub note_filesystems : List Value → Sizes → Option Sizes
unfolding note_size
note_filesystems [] s = some s
note_filesystems (obj fs ∷ entries) s = elim (first_disk (get (text "disk") fs)) [
  | none ↦ none
  | some disk0 ↦ note_filesystems entries (note_disk disk0 fs s)
]
note_filesystems (v ∷ entries) s = note_filesystems entries s

abbrev pub sum : List ℕ → ℕ
sum [] = 0
sum (n ∷ ns) = n + sum ns

abbrev pub same_keys : Dict Text ℕ → Dict Text ℕ → Bool
same_keys a b = all (contains (keys b)) (keys a) && all (contains (keys a)) (keys b)

-- What is used and what there is, where they are known.
unfoldable pub guest_disk : Sizes → Option ℕ × Option ℕ
guest_disk s = if is_empty s.used then (none, none) else (
  some (sum (values s.used)),
  if same_keys s.total s.used then some (sum (values s.total)) else none,
)

abbrev pub entries_of : Value → Value
entries_of (obj fs) = elim (find (text "result") fs) [ none ↦ arr end | some v ↦ v ]
entries_of v = v

abbrev pub guest_disk_in : Value → Option (Option ℕ × Option ℕ)
guest_disk_in (arr vs) = elim (note_filesystems (elements vs) (record { used = []; total = [] })) [
  | none ↦ none
  | some s ↦ some (guest_disk s)
]
guest_disk_in v = some (none, none)

-- What an answer of `agent/get-fsinfo` comes to.
unfoldable pub guest_disk_of : Value → Option (Option ℕ × Option ℕ)
unfolding note_filesystems guest_disk
guest_disk_of fsinfo = guest_disk_in (entries_of fsinfo)

-- The guest's own figures: free memory that is not negative, and not above the total.
abbrev pub balloon_used : Value → Value → Option ℕ
balloon_used (int (pos total)) (int (pos free)) =
    if leb free total then some (total - free) else none
balloon_used _ _ = none

abbrev pub balloon_of : Value → Option ℕ
balloon_of (obj fs) = balloon_used (get (text "total_mem") fs) (get (text "free_mem") fs)
balloon_of v = none

-- `none` for what the status does not say either.
unfoldable pub qemu_memory_used : Fields → Option Value
qemu_memory_used api_status = elim (balloon_of (get (text "ballooninfo") api_status)) [
  | none ↦ find (text "mem") api_status
  | some n ↦ some (int (pos n))
]
