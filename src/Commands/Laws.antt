-- ===== src/Commands/Laws.antt =====
-- What becomes of a command and of its repair.
use proxmoxve_integration.Prelude.{
  ℕ, ◌≡◌, Bool, List, true, false, Option, none, some, ◌==◌, contains, if◌then◌else◌, list_eq,
  nat_eq, any,
}
use proxmoxve_integration.Prelude.Text.{Text}
use proxmoxve_integration.Json.{Value}
use proxmoxve_integration.Api.{api_error, Reply, answered, failed}
use proxmoxve_integration.Const.{command_value}
use proxmoxve_integration.Commands.Requests.{on_cluster}
use proxmoxve_integration.Commands.{
  Command, CommandIssue, Entry, Done, result, home_assistant_error, permission_check_from,
}

-- The repair of a command whose user, command and permission are these: the one that the message names, or
-- the message itself.
abbrev pub IsRefusal : Entry → Command → Text → Option CommandIssue → Type 0
IsRefusal e c m found =
    (issue : CommandIssue) × (found ≡ some issue)
    × (issue.permission ≡ elim (permission_check_from m) [ none ↦ m | some check ↦ check ])
    × (issue.user ≡ (if on_cluster c.subject then e.ha_admin_username else some e.username))
    × (issue.command ≡ command_value c.command)

abbrev pub LeavesError :
    Bool → Entry → Command → Text → Option CommandIssue → Option CommandIssue → Type 0
LeavesError true e c m old found = IsRefusal e c m found
LeavesError false e c m old found = found ≡ old

-- What a reply leaves under the command's id.
abbrev pub Leaves :
    Entry → Command → Reply Value → Option CommandIssue → Option CommandIssue → Type 0
Leaves e c (answered v) old found = found ≡ none
Leaves e c (failed (api_error status m)) old found = LeavesError (status == 403) e c m old found
Leaves e c (failed _) old found = found ≡ old

abbrev pub IsResult : Done → Reply Value → Type 0
IsResult d (answered v) = d ≡ result v
IsResult d (failed f) = (text_of : Text) × (d ≡ home_assistant_error text_of)

abbrev pub Free : List ℕ → Text → Type 0
Free stops s = any (contains stops) s ≡ false
