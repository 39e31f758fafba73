-- ===== src/Permissions.antt =====
-- permissions.py and `button_permitted` of button.py: what the credentials may do, and which
-- buttons that leaves.
pub mod Paths
pub mod Laws
mod Tests
use Prim.Native.Nat.{◌^◌}
use proxmoxve_integration.Prelude.{
  ℕ, zero, suc, ◌/◌, ◌==◌, nat_eq, list_eq, if◌then◌else◌, List, [], ◌∷◌, ◌++◌, Bool, true, false,
  Option, none, some, any, take, length, is_empty, map, ◌||◌,
}
use proxmoxve_integration.Prelude.Dict.{Dict, lookup}
use proxmoxve_integration.Prelude.Int.{ℤ, pos, negsuc, int_eq}
use proxmoxve_integration.Prelude.Text.{
  Text, text, split, join, strip_by, rstrip_by, starts_with, parse_int,
}
use proxmoxve_integration.Json.{Value, bool, int, float, str, obj, null, Fields, nil, field}
use proxmoxve_integration.Api.{Reply, answered, failed}
use proxmoxve_integration.Const.{ProxmoxType, ProxmoxCommand}

-- The privileges granted at each ACL path.
abbrev pub Permissions : Type 0
Permissions = Dict Text (Dict Text ℤ)

pub data ProxmoxPrivilege : Type 0 where
  vm_power vm_snapshot vm_config_options sys_power sys_console sys_modify vm_backup :
      ProxmoxPrivilege

abbrev pub privilege_value : ProxmoxPrivilege → Text
privilege_value vm_power = text "VM.PowerMgmt"
privilege_value vm_snapshot = text "VM.Snapshot"
privilege_value vm_config_options = text "VM.Config.Options"
privilege_value sys_power = text "Sys.PowerMgmt"
privilege_value sys_console = text "Sys.Console"
privilege_value sys_modify = text "Sys.Modify"
privilege_value vm_backup = text "VM.Backup"

abbrev pub is_slash : ℕ → Bool
is_slash c = c == b'/'

-- `range(n, 0, -1)`
abbrev pub countdown : ℕ → List ℕ
countdown zero = []
countdown (suc n) = suc n ∷ countdown n

-- `path.strip("/").split("/") if path.strip("/") else []`
unfoldable pub path_parts : Text → List Text
path_parts path =
    let stripped = strip_by is_slash path in if is_empty stripped then [] else split b'/' stripped

-- `/vms/100`, `/vms`, `/`: the path and those above it, the nearest first.
unfoldable pub candidates : Text → List Text
unfolding path_parts
candidates path =
    map (λ depth. b'/' ∷ join b'/' (take depth (path_parts path)))
      (countdown (length (path_parts path)))
    ++ text "/" ∷ []

-- `permissions.get(candidate, {}).get(privilege) == 1`
unfoldable pub holds : Permissions → Text → Text → Bool
holds permissions privilege path = elim (lookup path permissions) [
  | none ↦ false
  | some privileges ↦ elim (lookup privilege privileges) [ none ↦ false | some v ↦ v == pos 1 ]
]

unfoldable pub is_granted : Permissions → Text → Text → Bool
unfolding candidates holds
is_granted permissions path privilege = any (holds permissions privilege) (candidates path)

-- A grant at a path below `prefix`.
abbrev pub grants_below : Text → Text → Text × Dict Text ℤ → Bool
grants_below prefix privilege (path, privileges) =
    if starts_with prefix path
    then elim (lookup privilege privileges) [ none ↦ false | some v ↦ v == pos 1 ]
    else false

unfoldable pub is_granted_anywhere_below : Permissions → Text → Text → Bool
is_granted_anywhere_below permissions path privilege =
    is_granted permissions path privilege
    || any (grants_below (rstrip_by is_slash path ++ text "/") privilege) permissions

-- A button's key, which is the command it sends, and the privilege it needs, if any.
pub record ProxmoxButtonEntityDescription : Type 0 where
  pub key : ProxmoxCommand
  pub privilege : Option ProxmoxPrivilege

-- `BULK_GUEST_COMMANDS`
abbrev pub is_bulk_guest_command : ProxmoxCommand → Bool
is_bulk_guest_command ProxmoxCommand.start_all = true
is_bulk_guest_command ProxmoxCommand.stop_all = true
is_bulk_guest_command ProxmoxCommand.suspend_all = true
is_bulk_guest_command ProxmoxCommand.backup_all = true
is_bulk_guest_command _ = false

-- The test of a button whose privilege is known.
unfoldable pub category_permitted : Permissions → ProxmoxCommand → Text → ProxmoxType → Text → Bool
category_permitted permissions key privilege ProxmoxType.proxmox resource_id =
    is_granted permissions (text "/") privilege
category_permitted permissions key privilege ProxmoxType.node resource_id =
    if is_bulk_guest_command key
    then is_granted_anywhere_below permissions (text "/vms") privilege
    else is_granted permissions (text "/nodes/" ++ resource_id) privilege
category_permitted permissions key privilege _ resource_id =
    is_granted permissions (text "/vms/" ++ resource_id) privilege

unfoldable pub button_permitted :
    Option Permissions → ProxmoxButtonEntityDescription → ProxmoxType → Text → Bool
button_permitted none description category resource_id = true
button_permitted (some permissions) description category resource_id = elim description.privilege [
  | none ↦ true
  | some p ↦ category_permitted permissions description.key (privilege_value p) category resource_id
]

-- `int(v)`; `none` stands for the `TypeError` or `ValueError`.
abbrev truncate : ℤ → ℕ → ℤ
truncate (pos m) k = pos (m / 2 ^ k)
truncate (negsuc m) k = elim (suc m / 2 ^ k) [ zero ↦ pos 0 | suc n ↦ negsuc n ]

abbrev pub int_of : Value → Option ℤ
int_of (bool true) = some (pos 1)
int_of (bool false) = some (pos 0)
int_of (int n) = some n
int_of (float m k) = some (truncate m k)
int_of (str s) = parse_int s
int_of _ = none

-- What `async_fetch_permissions` does: raise out of `int`, return None, or return the privileges.
pub data Fetched : Type 0 where
  raised unknown : Fetched
  known : Permissions → Fetched

unfoldable pub privileges_of : Fields → Option (Dict Text ℤ)
privileges_of nil = some []
privileges_of (field name value fs) = elim (int_of value) [
  | none ↦ none
  | some n ↦ elim (privileges_of fs) [ none ↦ none | some ps ↦ some ((name, n) ∷ ps) ]
]

-- Paths whose privileges are no dict are left out.
unfoldable pub granted_paths : Fields → Option Permissions
unfolding privileges_of
granted_paths nil = some []
granted_paths (field path (obj fs) more) = elim (privileges_of fs) [
  | none ↦ none
  | some ps ↦ elim (granted_paths more) [ none ↦ none | some rest ↦ some ((path, ps) ∷ rest) ]
]
granted_paths (field path v more) = granted_paths more

unfoldable pub fetch_permissions : Reply Value → Fetched
unfolding granted_paths
fetch_permissions (failed error) = unknown
fetch_permissions (answered (obj fs)) = elim (granted_paths fs) [
  | none ↦ raised
  | some ps ↦ known ps
]
fetch_permissions (answered v) = unknown
