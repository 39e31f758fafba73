-- ===== src/Poll.antt =====
-- coordinator.py: `poll_api`, the one read that every coordinator makes, and from api.py how a refused
-- login tells its status. The request to the Proxmox API is a parameter that acts on a world of its
-- own; the lists and repairs of issues.py and the offline nodes are the rest of the state.
pub mod Laws
pub mod Needs
pub mod Repairs
mod Tests
use proxmoxve_integration.Prelude.{
  ℕ, List, [], ◌∷◌, ◌++◌, Bool, true, false, not, Option, none, some, ◌==◌, ◌&&◌, ◌||◌, contains,
  if◌then◌else◌, list_eq, nat_eq, option_eq, drop, is_empty,
}
use proxmoxve_integration.Prelude.Text.{
  Text, text, split, partition, starts_with, remove_all, strip_by, is_space, is_digit_char,
  digits_value,
}
use proxmoxve_integration.Json.{Value}
use proxmoxve_integration.Const.{ProxmoxType, type_eq, type_value, type_capital}
use proxmoxve_integration.Api.{
  Failure, connection_error, auth_error, api_error, Reply, answered, failed, message,
}
use proxmoxve_integration.Storage.{storage_name}
use proxmoxve_integration.Issues.Registry.{IssueRegistry}
use proxmoxve_integration.Issues.{forbidden, ResourceLine, ConfigEntry, Hass, note_resource}

-- The digits that a text starts with.
abbrev leading_digits : Text → Text
leading_digits [] = []
leading_digits (c ∷ s) = let rest = leading_digits s in if is_digit_char c then c ∷ rest else []

-- `AUTH_STATUS_PATTERN.search`: the digits after the first "Code " that digits follow. Python's `\d`
-- also takes other scripts' digits.
unfoldable pub status_in : Text → Option ℕ
status_in [] = none
status_in (c ∷ s) =
    let rest = status_in s in
    if starts_with (text "Code ") (c ∷ s)
    then elim (leading_digits (drop 5 (c ∷ s))) [
      | [] ↦ rest
      | d ∷ ds ↦ digits_value false 0 (d ∷ ds)
    ]
    else rest

unfoldable pub auth_error_status : Failure → Option ℕ
auth_error_status (api_error status m) = some status
auth_error_status (connection_error m) = status_in m
auth_error_status (auth_error m) = status_in m

abbrev pub is_auth_error : Failure → Bool
is_auth_error (auth_error m) = true
is_auth_error (api_error status m) = status == 401
is_auth_error (connection_error m) = false

-- What `poll_api` returns or raises: the data, `None` for a read the credentials may not make,
-- `UpdateFailed` or `ConfigEntryAuthFailed`.
pub data Outcome {ℓ} (A : Type ℓ) : Type ℓ where
  data_read : A → Outcome A
  not_permitted : Outcome A
  update_failed : Text → Outcome A
  config_entry_auth_failed : Outcome A

abbrev pub pveproxy_busy : ℕ → Bool
pveproxy_busy status = status == 596 || status == 597

abbrev pub asks_again : Reply Value → Bool
asks_again (failed (api_error status m)) = pveproxy_busy status
asks_again _ = false

abbrev or_empty : Option Text → Text
or_empty none = []
or_empty (some t) = t

abbrev pub second_part : Text → List Text → Text
second_part fallback (first ∷ [] ∷ parts) = fallback
second_part fallback (first ∷ node ∷ parts) = if first == text "nodes" then node else fallback
second_part fallback _ = fallback

unfoldable pub node_of_path : Text → Option Text → Text
node_of_path api_path fallback =
    second_part (or_empty fallback) (split b'/' (partition b'?' api_path).0)

-- `p in s`
abbrev pub within : Text → Text → Bool
within p [] = is_empty p
within p (c ∷ s) = starts_with p (c ∷ s) || within p s

abbrev root_checked : Text → Bool
root_checked api_path = within (text "/disks/smart") api_path || within (text "/disks/zfs") api_path

unfoldable pub permission_to_resource : Text → ProxmoxType → Text → Text
permission_to_resource api_path category label =
    let node = node_of_path api_path (some label) in
    let audit =
      if root_checked api_path
      then text "['perm','/',['Sys.Audit']]"
      else text "['perm','/nodes/" ++ (node ++ text "',['Sys.Audit']]") in
    let guest = text "['perm','/vms/" ++ (label ++ text "',['VM.Audit']]") in
    elim category [
      | ProxmoxType.node ↦ audit
      | ProxmoxType.disk ↦ audit
      | ProxmoxType.zfs ↦ audit
      | ProxmoxType.tasks ↦ audit
      | ProxmoxType.qemu ↦ guest
      | ProxmoxType.lxc ↦ guest
      | ProxmoxType.storage ↦
          text "['perm','/storage/" ++ (storage_name label ++ text "',['Datastore.Audit'],'any',1]")
      | ProxmoxType.update ↦ text "['perm','/nodes/" ++ (node ++ text "',['Sys.Modify']]")
      | ProxmoxType.proxmox ↦ text "['perm','/',['Sys.Audit']]"
      | ProxmoxType.resources ↦ text "['perm','/',['VM.Audit']]"
      | _ ↦ text "Unmapped"
    ]

abbrev none_text : Option Text → Text
none_text none = text "None"
none_text (some t) = t

-- `f"{api_category}_{resource_id}"`
unfoldable pub resource_key : ProxmoxType → Option Text → Text
resource_key category resource_id = type_value category ++ b'_' ∷ none_text resource_id

-- Without the words in which the update coordinator wraps its node's name.
unfoldable pub resource_label : Option Text → Text
resource_label none = []
resource_label (some id) = remove_all (text "Update ") id

abbrev line_label : ConfigEntry → ProxmoxType → Text → Text
line_label entry category label =
    if category == ProxmoxType.proxmox
    then text "Cluster (credentials `" ++ (none_text entry.ha_admin_username ++ text "`)")
    else strip_by is_space (type_capital category ++ b' ' ∷ label)

unfoldable pub refused_line : ConfigEntry → Text → ProxmoxType → Option Text → ResourceLine
refused_line entry api_path category resource_id =
    let label = resource_label resource_id in
    record {
      label = line_label entry category label;
      permission = permission_to_resource api_path category label;
      tracked_as = if is_empty label then none else some label;
    }

abbrev pub offline_message : Text → Text
offline_message node = text "Node " ++ (node ++ text " is offline")

-- What the arguments of a read say; a number for an id is its text.
pub record Read : Type 0 where
  pub api_path : Text
  pub api_category : ProxmoxType
  pub resource_id : Option Text
  pub issue_create_permissions : Bool

module _ (R : IssueRegistry) (W : Type 0) (request : W → Text → Reply Value × W) where
  pub record State : Type 0 where
    pub hass : Hass R.State
    pub world : W
    pub nodes_off : List Text

  -- A node that answers 596 or 597 is asked once more.
  unfoldable pub read_api : W → Text → Reply Value × W
  read_api w path =
      let first = request w path in if asks_again first.0 then request first.1 path else first

  abbrev pub note_refused : ConfigEntry → Read → Hass R.State → Hass R.State
  note_refused entry read h =
      note_resource R entry forbidden (resource_key read.api_category read.resource_id)
        (some (refused_line entry read.api_path read.api_category read.resource_id)) true h

  abbrev pub note_answered : ConfigEntry → Read → Hass R.State → Hass R.State
  note_answered entry read h =
      note_resource R entry forbidden (resource_key read.api_category read.resource_id) none false h

  -- What is left of a reply that was no success.
  unfoldable pub refused : Failure → Outcome Value
  refused (connection_error m) = update_failed m
  refused (auth_error m) = elim (auth_error_status (auth_error m)) [
    | none ↦ config_entry_auth_failed
    | some status ↦ if status == 401 then config_entry_auth_failed else update_failed m
  ]
  refused (api_error status m) = if status == 401 then config_entry_auth_failed else update_failed m

  abbrev pub is_listed_refusal : Read → Failure → Bool
  is_listed_refusal read (api_error status m) = status == 403 && read.issue_create_permissions
  is_listed_refusal read _ = false

  unfoldable pub settle :
      ConfigEntry → Read → Reply Value → Hass R.State → Outcome Value × Hass R.State
  settle entry read (answered v) h = (data_read v, note_answered entry read h)
  settle entry read (failed f) h =
      if is_listed_refusal read f
      then (not_permitted, note_refused entry read h)
      else (refused f, h)

  abbrev pub is_offline : Read → State → Bool
  is_offline read s =
      let node = node_of_path read.api_path none in not (is_empty node) && contains s.nodes_off node

  unfoldable pub poll_api : ConfigEntry → Read → State → Outcome Value × State
  poll_api entry read s =
      if is_offline read s
      then (update_failed (offline_message (node_of_path read.api_path none)), s)
      else let reply = read_api s.world read.api_path in
        let settled = settle entry read reply.0 s.hass in
        (settled.0, record s { hass = settled.1; world = reply.1 })
