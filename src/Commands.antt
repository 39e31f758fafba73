-- ===== src/Commands.antt =====
-- api.py: the request that a command makes, and the repair of a command that was refused. The request
-- to the API and the issue registry are parameters.
pub mod Laws
pub mod Requests
pub mod Meaning
mod Tests
use proxmoxve_integration.Prelude.{
  ℕ, List, [], ◌∷◌, ◌++◌, Bool, true, false, not, Option, none, some, ◌==◌, ◌&&◌, ◌||◌, contains,
  if◌then◌else◌, list_eq, nat_eq, is_empty, map, keep, take,
}
use proxmoxve_integration.Prelude.Dict.{Dict}
use proxmoxve_integration.Prelude.Text.{Text, text, decimal, split, strip_by, is_space, join_by}
use proxmoxve_integration.Json.{Value}
use proxmoxve_integration.Const.{
  ProxmoxType, type_value, type_upper, type_capital, ProxmoxCommand, command_value,
}
use proxmoxve_integration.Api.{
  Failure, connection_error, auth_error, api_error, Reply, answered, failed, message,
}
use proxmoxve_integration.Issues.Registry.{RegistryOf}

-- What a command is for: the cluster, a node, or a guest of a kind. The buttons pass no other category.
pub data Subject : Type 0 where
  cluster whole_node qemu lxc : Subject

abbrev pub category : Subject → ProxmoxType
category cluster = ProxmoxType.proxmox
category whole_node = ProxmoxType.node
category qemu = ProxmoxType.qemu
category lxc = ProxmoxType.lxc

pub data Method : Type 0 where
  post put : Method

pub data Param : Type 0 where
  number : ℕ → Param
  word : Text → Param
  null : Param

pub record Request : Type 0 where
  pub method : Method
  pub api_path : Text
  pub params : Dict Text Param

-- The arguments of a command. A guest's id is printed as `None` where there is none.
pub record Command : Type 0 where
  pub subject : Subject
  pub command : ProxmoxCommand
  pub node : Text
  pub vm_id : Option ℕ

abbrev pub vm_text : Option ℕ → Text
vm_text none = text "None"
vm_text (some n) = decimal n

abbrev pub vm_param : Option ℕ → Param
vm_param none = null
vm_param (some n) = number n

abbrev word_or_null : Option Text → Param
word_or_null none = null
word_or_null (some t) = word t

-- The name of a snapshot made at the local time that `stamp` spells.
unfoldable pub snapshot_name : Text → Text
snapshot_name stamp = take 40 (text "homeassistant_" ++ stamp)

abbrev posts : Text → Dict Text Param → Request
posts path params = record { method = post; api_path = path; params = params }

abbrev pub node_path : Command → Text → Text
node_path c rest = text "nodes/" ++ (c.node ++ b'/' ∷ rest)

abbrev pub guest_path : Command → Text → Text
guest_path c rest =
    node_path c (type_value (category c.subject) ++ b'/' ∷ (vm_text c.vm_id ++ b'/' ∷ rest))

unfoldable pub cluster_request : Command → Request
cluster_request c =
    let path = text "cluster/ha/status/" ++ command_value c.command in
    elim c.command [
      | ProxmoxCommand.disarm_ha ↦ posts path ((text "resource-mode", word (text "freeze")) ∷ [])
      | _ ↦ posts path []
    ]

unfoldable pub vzdump_request : Command → Option Text → Text × Param → Request
vzdump_request c storage target =
    posts (node_path c (text "vzdump"))
      ((text "mode", word (text "snapshot")) ∷ (text "storage", word_or_null storage) ∷ target ∷ [])

abbrev node_wide : Command → Request
node_wide c = posts (node_path c (command_value c.command)) []

unfoldable pub node_request : Command → Request
node_request c = elim c.command [
  | ProxmoxCommand.start_all ↦ node_wide c
  | ProxmoxCommand.stop_all ↦ node_wide c
  | ProxmoxCommand.suspend_all ↦ node_wide c
  | ProxmoxCommand.wakeonlan ↦ node_wide c
  | _ ↦ posts (node_path c (text "status")) ((text "command", word (command_value c.command)) ∷ [])
]

abbrev skiplock : Subject → Dict Text Param
skiplock qemu = (text "skiplock", number 1) ∷ []
skiplock _ = []

unfoldable pub guest_request : Command → Text → Request
guest_request c stamp = elim c.command [
  | ProxmoxCommand.hibernate ↦
      posts (guest_path c (text "status/suspend")) ((text "todisk", number 1) ∷ [])
  | ProxmoxCommand.snapshot ↦ posts (guest_path c (text "snapshot")) (
      (text "snapname", word (snapshot_name stamp))
      ∷ (text "description", word (text "Created by Home Assistant"))
      ∷ [])
  | ProxmoxCommand.unlock ↦ record {
    method = put;
    api_path = guest_path c (text "config");
    params = (text "delete", word (text "lock")) ∷ skiplock c.subject;
  }
  | _ ↦ posts (guest_path c (text "status/" ++ command_value c.command)) []
]

abbrev other_request : Command → Text → Request
other_request c stamp = elim c.subject [ whole_node ↦ node_request c | _ ↦ guest_request c stamp ]

-- The branches of the `try` of `post_api_command`.
unfoldable pub command_request : Command → Option Text → Text → Request
command_request c storage stamp = elim c.subject [
  | cluster ↦ cluster_request c
  | _ ↦ elim c.command [
    | ProxmoxCommand.backup ↦ vzdump_request c storage (text "vmid", vm_param c.vm_id)
    | ProxmoxCommand.backup_all ↦ vzdump_request c storage (text "all", number 1)
    | _ ↦ other_request c stamp
  ]
]

abbrev pub owner : Command → Text
owner c = elim c.subject [ cluster ↦ text "cluster" | whole_node ↦ c.node | _ ↦ vm_text c.vm_id ]

unfoldable pub command_issue_id : Text → Command → Text
command_issue_id entry_id c = entry_id ++ b'_' ∷ (owner c ++ text "_command_forbiden")

abbrev pub resource : Command → Text
resource c = elim c.subject [
  | cluster ↦ text "Cluster HA"
  | whole_node ↦ text "Node " ++ c.node
  | _ ↦ type_upper (category c.subject) ++ b' ' ∷ vm_text c.vm_id
]

-- The run of characters up to the first that is one of these, and what follows.
abbrev pub until : List ℕ → Text → Text × Text
until stops [] = ([], [])
until stops (c ∷ s) =
    let rest = until stops s in if contains stops c then ([], c ∷ s) else (c ∷ rest.0, rest.1)

-- A match of `\(([^,()]+),\s*([^()]+)\)` behind its opening parenthesis. The space in front of the
-- second group is kept, since each name is stripped.
unfoldable pub check_at : Text → Option (Text × Text)
check_at s =
    let (path, behind) = until (b',' ∷ b'(' ∷ b')' ∷ []) s in
    elim behind [
      | [] ↦ none
      | c ∷ t ↦
          let (names, end) = until (b'(' ∷ b')' ∷ []) t in
          elim end [
            | [] ↦ none
            | d ∷ u ↦
                if not (is_empty path) && c == b',' && not (is_empty names) && d == b')'
                then some (path, names)
                else none
          ]
    ]

unfoldable pub find_check : Text → Option (Text × Text)
find_check [] = none
find_check (c ∷ s) =
    let rest = find_check s in
    if c == b'(' then elim (check_at s) [ none ↦ rest | some found ↦ some found ] else rest

abbrev quote : Text → Text
quote name = text "'" ++ (name ++ text "'")

abbrev pub names_in : Text → List Text
names_in names = keep (λ n. not (is_empty n)) (map (strip_by is_space) (split b'|' names))

abbrev pub check_text : Text → List Text → Text
check_text path names =
    text "['perm','"
    ++ (path ++ (text "',[" ++ (join_by (text ",") (map quote names) ++ text "]]")))

unfoldable pub permission_check_from : Text → Option Text
permission_check_from m = elim (find_check m) [
  | none ↦ none
  | some found ↦ some (check_text (strip_by is_space found.0) (names_in found.1))
]

-- What the repair of a refused command shows.
pub record CommandIssue : Type 0 where
  pub resource : Text
  pub user : Option Text
  pub permission : Text
  pub command : Text

-- Of the entry, what a command uses.
pub record Entry : Type 0 where
  pub entry_id : Text
  pub username : Text
  pub ha_admin_username : Option Text
  pub backup_storage : Option Text

abbrev pub user_for : Entry → Subject → Option Text
user_for e cluster = e.ha_admin_username
user_for e _ = some e.username

abbrev pub or_message : Text → Option Text → Text
or_message m none = m
or_message m (some check) = check

abbrev pub refusal : Entry → Command → Text → CommandIssue
refusal e c m = record {
  resource = resource c;
  user = user_for e c.subject;
  permission = or_message m (permission_check_from m);
  command = command_value c.command;
}

-- The data, or `HomeAssistantError`.
pub data Done : Type 0 where
  result : Value → Done
  home_assistant_error : Text → Done

abbrev pub error_text : Command → Text → Text
error_text c m =
    text "Proxmox " ++ (resource c ++ b' ' ∷ (command_value c.command ++ (text " error - " ++ m)))

module _ (R : RegistryOf CommandIssue) (W : Type 0) (send : W → Request → Reply Value × W) where
  pub record State : Type 0 where
    pub issues : R.State
    pub world : W

  -- The repair after a reply: gone after a success, there after a 403, and left alone otherwise.
  unfoldable pub note_reply : Entry → Command → Reply Value → R.State → R.State
  note_reply e c (answered v) s = R.delete (command_issue_id e.entry_id c) s
  note_reply e c (failed (api_error status m)) s =
      if status == 403 then R.create (command_issue_id e.entry_id c) (refusal e c m) s else s
  note_reply e c (failed (connection_error m)) s = s
  note_reply e c (failed (auth_error m)) s = s

  abbrev pub done_with : Command → Reply Value → Done
  done_with c (answered v) = result v
  done_with c (failed f) = home_assistant_error (error_text c (message f))

  unfoldable pub post_api_command : Entry → Command → Text → State → Done × State
  post_api_command e c stamp s =
      let reply = send s.world (command_request c e.backup_storage stamp) in
      (done_with c reply.0, record { issues = note_reply e c reply.0 s.issues; world = reply.1 })
