-- ===== src/Guests/Tests.antt =====
-- An answer of the guest agent with two file systems on one device and one on another.
use proxmoxve_integration.Prelude.{ℕ, refl, some, list_eq, nat_eq, ℕ_discrete}
use proxmoxve_integration.Prelude.Dict.{insert}
use proxmoxve_integration.Prelude.Int.{pos}
use proxmoxve_integration.Prelude.Text.{Text, text}
use proxmoxve_integration.Json.{Value, str, int, arr, obj, item, end, field, nil}
use proxmoxve_integration.Guests.{guest_disk_of, guest_disk, note_filesystems, note_size}
use proxmoxve_integration.Guests.Usage.{IsWithin, guest_disk_of-IsWithin}

abbrev filesystem : Text → ℕ → ℕ → Value
filesystem dev used total = obj (
    field (text "disk") (arr (item (obj (field (text "dev") (str dev) nil)) end)) (
      field (text "used-bytes") (int (pos used))
        (field (text "total-bytes") (int (pos total)) nil)))

abbrev answer : Value
answer = obj (
    field (text "result")
      (arr (
        item (filesystem (text "/dev/sda1") 5 10) (
          item (filesystem (text "/dev/sda1") 7 10)
            (item (filesystem (text "/dev/sdb1") 1 20) end))))
      nil)

guest_disk_of-IsWithin_example : IsWithin (some 8) (some 30)
unfolding guest_disk_of guest_disk note_filesystems note_size insert list_eq ℕ_discrete
guest_disk_of-IsWithin_example = guest_disk_of-IsWithin answer (some 8) (some 30) refl refl
