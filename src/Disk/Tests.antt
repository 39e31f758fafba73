-- ===== src/Disk/Tests.antt =====
-- Runs of disk.py, and the theorems at concrete disks.
use proxmoxve_integration.Prelude.{
  ◌≡◌, refl, List, [], ◌∷◌, true, false, some, none, list_eq, nat_eq, ℕ_discrete,
}
use proxmoxve_integration.Prelude.Sets.{add}
use proxmoxve_integration.Prelude.Text.{Text, text}
use proxmoxve_integration.Disk.{
  Disk, resolve_disk_id, colliding_disk_wwns, disk_matches_id, fallback_id, usable_wwn,
}
use proxmoxve_integration.Disk.Laws.{disk_matches_id-resolve_disk_id, carriers}

opened : Unit {0}
unfolding resolve_disk_id colliding_disk_wwns disk_matches_id add list_eq ℕ_discrete usable_wwn
    carriers fallback_id
opened = tt

abbrev twin : Text → Disk
twin serial = record {
  wwn = some (text "0x5");
  serial = some serial;
  by_id_link = none;
  devpath = some (text "/dev/sda");
}

abbrev no_wwn : Disk
no_wwn = record {
  wwn = some (text "unknown");
  serial = none;
  by_id_link = none;
  devpath = some (text "/dev/sdb");
}

abbrev twins : List Disk
twins = twin (text "A") ∷ no_wwn ∷ twin (text "B") ∷ []

tests :
    (colliding_disk_wwns twins ≡ text "0x5" ∷ [])
    × (resolve_disk_id (twin (text "A")) (colliding_disk_wwns twins) ≡ some (text "A"))
    × (resolve_disk_id (twin (text "A")) [] ≡ some (text "0x5"))
    × (resolve_disk_id no_wwn [] ≡ some (text "/dev/sdb"))
    × (disk_matches_id no_wwn (text "unknown") ≡ false)
unfolding opened
tests = (refl, refl, refl, refl, refl)

disk_matches_id-resolve_disk_id_example : disk_matches_id (twin (text "A")) (text "0x5") ≡ true
unfolding opened
disk_matches_id-resolve_disk_id_example =
    disk_matches_id-resolve_disk_id (twin (text "A")) [] {id = text "0x5"} refl
