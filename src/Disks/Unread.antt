-- ===== src/Disks/Unread.antt =====
-- What the update of a disk does where its SMART report cannot be read.
use proxmoxve_integration.Prelude.{
  ◌≡◌, [], ◌++◌, Bool, true, false, Option, none, some, ◌==◌, list_eq, nat_eq, ◌&&◌, ◌||◌, not,
}
use proxmoxve_integration.Prelude.Text.{Text, text}
use proxmoxve_integration.Json.{Value, Fields, find, get, str_of, text?, float_of}
use proxmoxve_integration.Api.{Reply}
use proxmoxve_integration.Issues.Registry.{IssueRegistry}
use proxmoxve_integration.Issues.{ConfigEntry}
use proxmoxve_integration.Poll.{State}
use proxmoxve_integration.Coordinators.{is_null, node_path}
use proxmoxve_integration.Coordinators.Monad.{Result, done, unavailable}
use proxmoxve_integration.Updates.Laws.{is_some}
use proxmoxve_integration.Prelude.Float.{Float}
use proxmoxve_integration.Disks.{upper, ProxmoxDiskData, Update}

-- A number, or nothing.
abbrev pub is_number : Option Value → Bool
is_number none = true
is_number (some v) = is_some (float_of v)

-- A row whose size, speed and wear are numbers or missing, the wear also N/A, and that has a type if it has
-- one of the last two.
abbrev pub is_sound : (Value → Text) → Fields → Bool
is_sound repr fs =
    is_number (find (text "size") fs)
    && (is_number (find (text "rpm") fs)
        && ((is_number (find (text "wearout") fs)
              || upper (str_of repr (get (text "wearout") fs)) == text "N/A")
            && (is_some (text? (get (text "type") fs))
                || (not (is_some (find (text "rpm") fs))
                    && not (is_some (find (text "wearout") fs))))))

-- What a disk's row says, without readings.
abbrev pub Says : Text → Text → Value → Fields → ProxmoxDiskData → Type 0
Says node id devpath fs d =
    (d.node ≡ node)
    × (d.disk_id ≡ id)
    × (d.path ≡ devpath)
    × (d.serial ≡ get (text "serial") fs)
    × (d.health ≡ find (text "health") fs)
    × (d.readings ≡ [])

-- The answer to a read that brought nothing: refused, or no data at all.
abbrev pub is_unread : Result Value → Bool
is_unread (done v) = is_null v
is_unread (unavailable m) = true
is_unread _ = false

module _ (repr : Value → Text) (R : IssueRegistry) (W : Type 0)
    (request : W → Text → Reply Value × W) (entry : ConfigEntry) (node id : Text) where
  abbrev Do : Type 0 → Type 0
  Do A = Update repr R W request entry node id A

  abbrev Disks : Type 0
  Disks = State R W request

  abbrev smart_path : Value → Text
  smart_path devpath = node_path node (text "/disks/smart?disk=" ++ str_of repr devpath)
