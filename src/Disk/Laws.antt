-- ===== src/Disk/Laws.antt =====
-- The disk identifiers name disks: a disk answers to its own identifier, and a WWN is used as one
-- only where a single disk of the node has it.
use proxmoxve_integration.Prelude.{
  ℕ, ◌+◌, ◌≡◌, List, [], ◌∷◌, true, some, ◌||◌, contains, if◌then◌else◌, list_eq, nat_eq, arith,
  leb, inl, inr, Option-cases,
}
use proxmoxve_integration.Prelude.Sets.{add, contains-add}
use proxmoxve_integration.Prelude.Text.{Text}
use proxmoxve_integration.Disk.{
  Disk, usable_wwn, is_id, resolve_disk_id, colliding_from, colliding_disk_wwns, disk_matches_id,
  fallback_id,
}

-- A disk matches the identifier it is given, whichever of its names that is.
pub disk_matches_id-resolve_disk_id :
    (d : Disk) (colliding : List Text) {id : Text}
    → resolve_disk_id d colliding ≡ some id
    → disk_matches_id d id ≡ true
unfolding resolve_disk_id disk_matches_id usable_wwn
disk_matches_id-resolve_disk_id d colliding h = ground arith

-- How many of the disks carry the WWN, where it is one that can be used.
unfoldable pub carriers : Text → List Disk → ℕ
carriers w [] = 0
carriers w (d ∷ ds) = let n = carriers w ds in if is_id (usable_wwn d) w then n + 1 else n

contains-colliding_from :
    (seen colliding : List Text) (ds : List Disk) (w : Text)
    → contains (colliding_from seen colliding ds) w ≡ (
        contains colliding w
        || leb 2 (if contains seen w then carriers w ds + 1 else carriers w ds))
unfolding colliding_from carriers
contains-colliding_from seen colliding [] w = ground arith
contains-colliding_from seen colliding (d ∷ ds) w = elim (Option-cases (usable_wwn d)) [
  | inl unusable ↦ ground (arith, contains-colliding_from seen colliding ds w)
  | inr (v, usable) ↦ ground (
    arith,
    contains-colliding_from seen (add v colliding) ds w,
    contains-colliding_from (add v seen) colliding ds w,
    contains-add v w colliding,
    contains-add v w seen,
  )
]

-- The WWNs that collide are exactly those that at least two of the disks carry.
pub contains-colliding_disk_wwns :
    (ds : List Disk) (w : Text) → contains (colliding_disk_wwns ds) w ≡ leb 2 (carriers w ds)
unfolding colliding_disk_wwns
contains-colliding_disk_wwns ds w = contains-colliding_from [] [] ds w

-- A disk with a usable WWN is identified by it exactly when at most one disk of its node carries
-- that WWN; otherwise its serial, its by-id link or its device path stands in.
resolve_disk_id-carriers :
    (d : Disk) (ds : List Disk) (w : Text)
    → usable_wwn d ≡ some w
    → resolve_disk_id d (colliding_disk_wwns ds)
      ≡ (if leb (carriers w ds) 1 then some w else fallback_id d)
unfolding resolve_disk_id
resolve_disk_id-carriers d ds w usable = ground (arith, contains-colliding_disk_wwns ds w)
