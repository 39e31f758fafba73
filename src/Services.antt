-- ===== src/Services.antt =====
-- services.py: the backup action. This file holds what the action reads of Home Assistant, the entries
-- set up and the registries, and how a targeted device is resolved.
pub mod Targets
pub mod Plans
pub mod Runs
pub mod PlanLaws
pub mod Coverage
pub mod RunLaws
mod Tests
use proxmoxve_integration.Prelude.{
  ℕ, List, [], ◌∷◌, ◌++◌, Bool, true, false, Option, none, some, ◌==◌, ◌&&◌, ◌||◌, contains,
  if◌then◌else◌, list_eq, nat_eq, keep,
}
use proxmoxve_integration.Prelude.Dict.{Dict, lookup}
use proxmoxve_integration.Prelude.Text.{Text, text, partition, decimal, is_digit, digits_value}
use proxmoxve_integration.Const.{ProxmoxType, type_value, type_upper}

-- Of an entry's `runtime_data`: the nodes tracked, the node of each guest coordinator's data (none
-- while it has no data), and the backup coordinators by node, with whether their data shows a run.
pub record Runtime : Type 0 where
  pub nodes : List Text
  pub guests : Dict Text (Option Text)
  pub backups : Dict Text Bool

pub record Entry : Type 0 where
  pub entry_id : Text
  pub backup_storage : Option Text
  pub runtime_data : Option Runtime

-- A device of the registry; the identifiers of the set in the order in which they are visited.
pub record Device : Type 0 where
  pub identifiers : List (Text × Text)
  pub shown_name : Text

pub data ServiceError : Type 0 where
  backup_target_unknown : Text → ServiceError
  backup_target_not_supported : Text → ServiceError
  backup_unknown_guest : ℕ → ServiceError
  backup_unknown_node : Text → ServiceError
  backup_nothing_selected : ServiceError
  backup_notes_need_storage : ServiceError
  backup_refused : Text → Text → ServiceError
  backup_unreachable : Text → Text → ServiceError
  login_refused : Text → ServiceError

pub data Result {ℓ} (A : Type ℓ) : Type ℓ where
  ok : A → Result A
  raised : ServiceError → Result A

-- An entry that is set up, with its runtime data.
pub record Loaded : Type 0 where
  pub entry : Entry
  pub runtime : Runtime

abbrev pub loaded_entries : List Entry → List Loaded
loaded_entries [] = []
loaded_entries (e ∷ es) =
    let rest = loaded_entries es in
    elim e.runtime_data [ none ↦ rest | some d ↦ record { entry = e; runtime = d } ∷ rest ]

unfoldable pub entry_tracking_node : List Loaded → Text → Option Loaded
entry_tracking_node [] node = none
entry_tracking_node (e ∷ es) node =
    let rest = entry_tracking_node es node in if contains e.runtime.nodes node then some e else rest

-- The node of a guest by its coordinator of one kind, if that has data.
abbrev guest_node : ProxmoxType → ℕ → Loaded → Option Text
guest_node kind vmid e = elim (lookup (type_value kind ++ b'_' ∷ decimal vmid) e.runtime.guests) [
  | none ↦ none
  | some node ↦ node
]

unfoldable pub entry_hosting_guest : List Loaded → ℕ → Option (Loaded × Text)
entry_hosting_guest [] vmid = none
entry_hosting_guest (e ∷ es) vmid =
    let rest = entry_hosting_guest es vmid in
    elim (guest_node ProxmoxType.qemu vmid e) [
      | some node ↦ some (e, node)
      | none ↦ elim (guest_node ProxmoxType.lxc vmid e) [ none ↦ rest | some node ↦ some (e, node) ]
    ]

-- One (entry, node, vmid) triple; no vmid is everything on the node.
pub record Target : Type 0 where
  pub entry : Loaded
  pub node : Text
  pub vmid : Option ℕ

abbrev target_of : Loaded → Option ℕ → Text → Target
target_of e vmid node = record { entry = e; node = node; vmid = vmid }

abbrev pub whole_nodes : Loaded → List Text → List Target
whole_nodes e [] = []
whole_nodes e (node ∷ nodes) = target_of e none node ∷ whole_nodes e nodes

unfoldable pub guest_target : List Loaded → ℕ → Result (List Target)
guest_target es vmid = elim (entry_hosting_guest es vmid) [
  | none ↦ raised (backup_unknown_guest vmid)
  | some hosting ↦ ok (target_of hosting.0 (some vmid) hosting.1 ∷ [])
]

abbrev is_guest_kind : Text → Bool
is_guest_kind kind = kind == type_upper ProxmoxType.qemu || kind == type_upper ProxmoxType.lxc

-- A device identifier of an entry that is set up, after the entry's id.
unfoldable pub resolve_identifier : List Loaded → Device → Loaded → Text → Result (List Target)
resolve_identifier es device e rest =
    let (kind, resource) = partition b'_' rest in
    if rest == text "cluster"
    then ok (whole_nodes e e.runtime.nodes)
    else if kind == type_upper ProxmoxType.node
    then ok (target_of e none resource ∷ [])
    else if is_guest_kind kind && is_digit resource
    then elim (digits_value true 0 resource) [
      | none ↦ raised (backup_target_not_supported device.shown_name)
      | some vmid ↦ guest_target es vmid
    ]
    else raised (backup_target_not_supported device.shown_name)

-- `entries.get(entry_id)`; of entries with one id the last is kept.
abbrev entry_of_id : Text → List Loaded → Option Loaded
entry_of_id id [] = none
entry_of_id id (e ∷ es) = elim (entry_of_id id es) [
  | some later ↦ some later
  | none ↦ if e.entry.entry_id == id then some e else none
]

unfoldable pub resolve_identifiers :
    List Loaded → Device → List (Text × Text) → Result (List Target)
resolve_identifiers es device [] = raised (backup_target_not_supported device.shown_name)
resolve_identifiers es device ((domain, identifier) ∷ ids) =
    let rest = resolve_identifiers es device ids in
    let parts = partition b'_' identifier in
    if domain == text "proxmoxve"
    then elim (entry_of_id parts.0 es) [
      | none ↦ rest
      | some e ↦ resolve_identifier es device e parts.1
    ]
    else rest

unfoldable pub resolve_device : List Loaded → Dict Text Device → Text → Result (List Target)
resolve_device es devices id = elim (lookup id devices) [
  | none ↦ raised (backup_target_unknown id)
  | some device ↦ resolve_identifiers es device device.identifiers
]
