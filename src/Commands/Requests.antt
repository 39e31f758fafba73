-- ===== src/Commands/Requests.antt =====
-- The requests of commands: which node they address, and where a lock is skipped.
use mathlib.Core.List.{append_assoc}
use proxmoxve_integration.Prelude.{
  ◌≡◌, [], ◌∷◌, ◌++◌, Bool, true, false, Option, ◌&&◌, list_eq, nat_eq, ℕ_discrete, arith,
}
use proxmoxve_integration.Prelude.Dict.{has}
use proxmoxve_integration.Prelude.Text.{Text, text, starts_with, starts_with-append}
use proxmoxve_integration.Const.{ProxmoxCommand, command_value, type_value}
use proxmoxve_integration.Commands.{
  Subject, cluster, qemu, lxc, Method, post, put, Request, Command, command_request,
  cluster_request, vzdump_request, node_request, guest_request, node_path, category, vm_text,
}

abbrev pub on_cluster : Subject → Bool
on_cluster cluster = true
on_cluster _ = false

-- What a request must be like for a command: its path, and whether it edits a guest's configuration.
abbrev pub Fits : Command → Request → Type 0
Fits c r = starts_with (node_path c []) r.api_path ≡ true

node_path-starts :
    (c : Command) (rest : Text) → starts_with (node_path c []) (node_path c rest) ≡ true
node_path-starts c rest = ground (
  arith,
  starts_with-append (text "nodes/" ++ (c.node ++ text "/")) rest,
  append_assoc (text "nodes/") (c.node ++ text "/") rest,
  append_assoc c.node (text "/") rest,
)

node_request-Fits : (c : Command) → Fits c (node_request c)
unfolding node_request
node_request-Fits c =
    ground (arith, node_path-starts c (text "status"), node_path-starts c (command_value c.command))

guest_request-Fits : (c : Command) (stamp : Text) → Fits c (guest_request c stamp)
unfolding guest_request
guest_request-Fits c stamp =
    let guest =
      λ (rest : Text). type_value (category c.subject) ++ b'/' ∷ (vm_text c.vm_id ++ b'/' ∷ rest) in
    ground (
      arith,
      node_path-starts c (guest (text "status/suspend")),
      node_path-starts c (guest (text "snapshot")),
      node_path-starts c (guest (text "config")),
      node_path-starts c (guest (text "status/" ++ command_value c.command)),
    )

-- Every request of a command that is not for the cluster addresses the command's node.
pub command_request-Fits :
    (c : Command) (storage : Option Text) (stamp : Text)
    → on_cluster c.subject ≡ false
    → Fits c (command_request c storage stamp)
unfolding command_request vzdump_request
command_request-Fits c storage stamp h =
    ground (
      arith,
      h,
      node_path-starts c (text "vzdump"),
      node_request-Fits c,
      guest_request-Fits c stamp,
    )

abbrev pub is_put : Method → Bool
is_put put = true
is_put post = false

abbrev pub is_unlock : ProxmoxCommand → Bool
is_unlock ProxmoxCommand.unlock = true
is_unlock _ = false

abbrev pub is_guest : Subject → Bool
is_guest qemu = true
is_guest lxc = true
is_guest _ = false

abbrev pub is_qemu : Subject → Bool
is_qemu qemu = true
is_qemu _ = false

-- A guest's configuration is edited by the unlock of a guest and by no other command; of the edits,
-- only those of a virtual machine skip the lock.
command_request_unlock :
    (c : Command) (storage : Option Text) (stamp : Text)
    → let r = command_request c storage stamp in
      (is_put r.method ≡ (is_guest c.subject && is_unlock c.command))
      × (has (text "skiplock") r.params ≡ (is_qemu c.subject && is_unlock c.command))
unfolding command_request vzdump_request cluster_request node_request guest_request list_eq
    ℕ_discrete
command_request_unlock c storage stamp = ground arith
