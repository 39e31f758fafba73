-- ===== src/Disk.antt =====
-- disk.py: how a physical disk is identified. Of a row of `disks/list` the code reads four keys,
-- which hold texts where they are there.
pub mod Laws
mod Tests
use proxmoxve_integration.Prelude.{
  List, [], ◌∷◌, Bool, true, false, not, Option, none, some, ◌==◌, ◌&&◌, ◌||◌, contains, is_empty,
  if◌then◌else◌, list_eq, nat_eq,
}
use proxmoxve_integration.Prelude.Sets.{add}
use proxmoxve_integration.Prelude.Text.{Text, text}
use proxmoxve_integration.Json.{Value, obj, get, text?}

pub record Disk : Type 0 where
  pub wwn : Option Text
  pub serial : Option Text
  pub by_id_link : Option Text
  pub devpath : Option Text

-- A row of `disks/list`, whose ids are texts or missing; `none` where it is no dict.
abbrev pub disk_of : Value → Option Disk
disk_of (obj fs) = some (record {
  wwn = text? (get (text "wwn") fs);
  serial = text? (get (text "serial") fs);
  by_id_link = text? (get (text "by_id_link") fs);
  devpath = text? (get (text "devpath") fs);
})
disk_of _ = none

-- `wwn and wwn != "unknown"`
abbrev pub is_usable : Text → Bool
is_usable w = not (is_empty w) && not (w == text "unknown")

unfoldable pub usable_wwn : Disk → Option Text
usable_wwn d = elim d.wwn [ none ↦ none | some w ↦ if is_usable w then some w else none ]

-- A value that `if x := d.get(key)` lets pass.
abbrev pub non_empty : Option Text → Option Text
non_empty none = none
non_empty (some t) = if is_empty t then none else some t

abbrev pub is_id : Option Text → Text → Bool
is_id none id = false
is_id (some t) id = t == id

-- The serial, the by-id link or the device path, the first that is there.
unfoldable pub fallback_id : Disk → Option Text
fallback_id d = elim (non_empty d.serial) [
  | none ↦ elim (non_empty d.by_id_link) [ none ↦ d.devpath | some b ↦ some b ]
  | some s ↦ some s
]

-- `none` is the `KeyError` of a disk with no device path either. Without a set of colliding names,
-- pass none of them.
unfoldable pub resolve_disk_id : Disk → List Text → Option Text
unfolding fallback_id
resolve_disk_id d colliding = elim (usable_wwn d) [
  | none ↦ fallback_id d
  | some w ↦ if contains colliding w then fallback_id d else some w
]

-- The loop, over the sets of names seen once and seen again.
unfoldable pub colliding_from : List Text → List Text → List Disk → List Text
colliding_from seen colliding [] = colliding
colliding_from seen colliding (d ∷ ds) = elim (usable_wwn d) [
  | none ↦ colliding_from seen colliding ds
  | some w ↦
      if contains seen w
      then colliding_from seen (add w colliding) ds
      else colliding_from (add w seen) colliding ds
]

unfoldable pub colliding_disk_wwns : List Disk → List Text
unfolding colliding_from
colliding_disk_wwns ds = colliding_from [] [] ds

unfoldable pub disk_matches_id : Disk → Text → Bool
disk_matches_id d id =
    is_id (usable_wwn d) id || is_id d.by_id_link id || is_id d.serial id || is_id d.devpath id
