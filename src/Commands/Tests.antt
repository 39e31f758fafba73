-- ===== src/Commands/Tests.antt =====
-- Runs of commands against an API that refuses, and the theorems there.
use proxmoxve_integration.Prelude.{ℕ, ◌+◌, ◌≡◌, refl, [], some, none, list_eq, nat_eq, ℕ_discrete}
use proxmoxve_integration.Prelude.Dict.{insert, erase}
use proxmoxve_integration.Prelude.Text.{
  Text, text, strip_by, lstrip_by, rstrip_by, split, join_by, decimal, starts_with,
}
use proxmoxve_integration.Json.{Value}
use proxmoxve_integration.Const.{ProxmoxCommand}
use proxmoxve_integration.Api.{api_error, Reply, failed}
use proxmoxve_integration.Issues.Registry.{RegistryOf, dict_registry}
use proxmoxve_integration.Commands.{
  qemu, Command, Request, Entry, CommandIssue, State, command_request, guest_request,
  command_issue_id, note_reply, post_api_command, check_at, find_check, permission_check_from,
  snapshot_name, home_assistant_error,
}
use proxmoxve_integration.Commands.Requests.{Fits, command_request-Fits}

opened : Unit {0}
unfolding command_request guest_request command_issue_id note_reply post_api_command check_at
    find_check permission_check_from snapshot_name insert erase strip_by lstrip_by rstrip_by split
    join_by decimal starts_with list_eq ℕ_discrete
opened = tt

abbrev registry : RegistryOf CommandIssue
registry = dict_registry CommandIssue

abbrev entry : Entry
entry = record {
  entry_id = text "e";
  username = text "u";
  ha_admin_username = none;
  backup_storage = some (text "nas");
}

abbrev unlock : Command
unlock = record { subject = qemu; command = ProxmoxCommand.unlock; node = text "a"; vm_id = some 7 }

abbrev words : Text
words = text "Permission check failed (/vms/7, VM.Config|VM.Audit)"

abbrev send : ℕ → Request → Reply Value × ℕ
send n r = (failed (api_error 403 words), n + 1)

abbrev start : State registry ℕ send
start = record { issues = []; world = 0 }

command_request-Fits_example : Fits unlock (command_request unlock none (text "now"))
command_request-Fits_example = command_request-Fits unlock none (text "now") refl

runs :
    ((post_api_command registry ℕ send entry unlock (text "now") start).0
      ≡ home_assistant_error (
          text
            "Proxmox QEMU 7 unlock error - Permission check failed (/vms/7, VM.Config|VM.Audit)"))
    × (permission_check_from words ≡ some (text "['perm','/vms/7',['VM.Config','VM.Audit']]"))
    × (permission_check_from (text "no such thing (yet)") ≡ none)
    × ((command_request unlock none (text "now")).api_path ≡ text "nodes/a/qemu/7/config")
unfolding opened
runs = (refl, refl, refl, refl)
