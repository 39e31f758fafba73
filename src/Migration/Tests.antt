-- ===== src/Migration/Tests.antt =====
-- An entry of the first version, whose node has one disk.
use proxmoxve_integration.Prelude.{
  ℕ, ◌+◌, ◌≡◌, refl, [], true, list_eq, nat_eq, ℕ_discrete, option_eq, arith, Bool,
}
use proxmoxve_integration.Prelude.Text.{Text, text}
use proxmoxve_integration.Json.{Value, str, arr, obj, item, end, Fields, field, nil}
use proxmoxve_integration.Api.{Reply, answered}
use proxmoxve_integration.Migration.Steps.{State, async_migrate_entry}
use proxmoxve_integration.Migration.Kept.{is_complete, is_harmless}
use proxmoxve_integration.Disk.{colliding_disk_wwns, resolve_disk_id}
use proxmoxve_integration.Migration.Versions.{Arrives, async_migrate_entry-version}

abbrev plain : Value → Text
plain v = []

abbrev disk : Value
disk = obj (
    field (text "wwn") (str (text "0x5")) (
      field (text "serial") (str (text "S1")) (field (text "devpath") (str (text "/dev/sda")) nil)))

abbrev connects : ℕ → Bool × ℕ
connects n = (true, n)

abbrev ask_api : ℕ → Text → Reply Value × ℕ
ask_api n path = (answered (arr (item disk end)), n + 1)

abbrev first_data : Fields
first_data = field (text "host") (str (text "h")) (
    field (text "port") (str (text "8006")) (
      field (text "username") (str (text "u")) (
        field (text "password") (str (text "p")) (
          field (text "realm") (str (text "pam")) (
            field (text "verify_ssl") (str (text "y")) (
              field (text "node") (str (text "a"))
                (field (text "qemu") (arr end) (field (text "lxc") (arr end) nil))))))))

abbrev Entry : Type 0
Entry = State plain ℕ connects ask_api (text "e")

abbrev first_entry : Entry
first_entry = record { version = 1; data_of = first_data; options = nil; devices = []; world = 0 }

first_entry_complete : is_complete 1 first_data ≡ true
unfolding is_complete list_eq ℕ_discrete
first_entry_complete = refl

each_disk_has_an_id : (w : ℕ) (path : Text) → is_harmless (ask_api w path).0 ≡ true
unfolding colliding_disk_wwns resolve_disk_id proxmoxve_integration.Disk.usable_wwn list_eq
    ℕ_discrete
each_disk_has_an_id w path = refl

async_migrate_entry-version_example :
    Arrives plain ℕ connects ask_api
      (text "e")
      each_disk_has_an_id
      (async_migrate_entry plain ℕ connects ask_api (text "e") first_entry)
async_migrate_entry-version_example =
    async_migrate_entry-version plain ℕ connects ask_api (text "e") each_disk_has_an_id first_entry
      (omega arith) (omega arith) first_entry_complete
