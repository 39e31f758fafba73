-- ===== src/Services/Plans.antt =====
-- services.py: which node runs what. A plan's set of guests is a list without repeats.
use proxmoxve_integration.Prelude.{
  ℕ, List, [], ◌∷◌, ◌++◌, Bool, true, false, Option, none, some, ◌==◌, ◌&&◌, if◌then◌else◌, list_eq,
  nat_eq, is_empty,
}
use proxmoxve_integration.Prelude.Dict.{Dict}
use proxmoxve_integration.Prelude.Sets.{add}
use proxmoxve_integration.Prelude.Text.{Text}
use proxmoxve_integration.Services.{
  Loaded, Device, Target, Result, ok, raised, backup_unknown_guest, backup_unknown_node,
  backup_nothing_selected, entry_tracking_node, entry_hosting_guest, resolve_device, whole_nodes,
}

pub record BackupPlan : Type 0 where
  pub entry : Loaded
  pub node : Text
  pub vmids : List ℕ
  pub everything : Bool

-- `BackupPlan.add`
abbrev pub add_vmid : Option ℕ → BackupPlan → BackupPlan
add_vmid none p = record p { everything = true }
add_vmid (some vmid) p = record p { vmids = add vmid p.vmids }

abbrev pub new_plan : Loaded → Text → BackupPlan
new_plan e node = record { entry = e; node = node; vmids = []; everything = false }

-- The key of a plan is its entry's id and its node.
abbrev pub is_plan_of : Text → Text → BackupPlan → Bool
is_plan_of id node p = p.entry.entry.entry_id == id && p.node == node

-- The inner `add`: `plans.setdefault((entry_id, node), BackupPlan(entry, node)).add(vmid)`.
unfoldable pub add_target : Target → List BackupPlan → List BackupPlan
add_target t [] = add_vmid t.vmid (new_plan t.entry t.node) ∷ []
add_target t (p ∷ ps) =
    let rest = add_target t ps in
    if is_plan_of t.entry.entry.entry_id t.node p then add_vmid t.vmid p ∷ ps else p ∷ rest

abbrev pub add_targets : List Target → List BackupPlan → List BackupPlan
add_targets [] ps = ps
add_targets (t ∷ ts) ps = add_targets ts (add_target t ps)

-- Of the call's data, what names the runs and what they are given.
pub record Call : Type 0 where
  pub node : Option Text
  pub vmids : List ℕ
  pub everything : Bool
  pub storage : Option Text
  pub mode : Option Text
  pub compress : Option Text
  pub notes : Option Text
  pub skip_if_running : Bool

unfoldable pub plan_devices :
    List Loaded → Dict Text Device → List Text → List BackupPlan → Result (List BackupPlan)
plan_devices es devices [] ps = ok ps
plan_devices es devices (id ∷ ids) ps = elim (resolve_device es devices id) [
  | raised e ↦ raised e
  | ok ts ↦ plan_devices es devices ids (add_targets ts ps)
]

abbrev pub on_node : Loaded → Text → Option ℕ → Target
on_node e node vmid = record { entry = e; node = node; vmid = vmid }

abbrev pub guests_on : Loaded → Text → List ℕ → List Target
guests_on e node [] = []
guests_on e node (vmid ∷ vmids) = on_node e node (some vmid) ∷ guests_on e node vmids

abbrev pub named_on : Call → Loaded → Text → List Target
named_on call e node =
    if call.everything
    then on_node e node none ∷ guests_on e node call.vmids
    else guests_on e node call.vmids

unfoldable pub plan_guests : List Loaded → List ℕ → List BackupPlan → Result (List BackupPlan)
plan_guests es [] ps = ok ps
plan_guests es (vmid ∷ vmids) ps = elim (entry_hosting_guest es vmid) [
  | none ↦ raised (backup_unknown_guest vmid)
  | some hosting ↦ plan_guests es vmids (add_target (on_node hosting.0 hosting.1 (some vmid)) ps)
]

abbrev pub every_node : List Loaded → List Target
every_node [] = []
every_node (e ∷ es) = whole_nodes e e.runtime.nodes ++ every_node es

-- `if node := call_data.get(ATTR_NODE)`: an empty name is no name.
abbrev pub given_text : Option Text → Option Text
given_text none = none
given_text (some []) = none
given_text (some (c ∷ t)) = some (c ∷ t)

abbrev pub with_every_node : List Loaded → Bool → List BackupPlan → List BackupPlan
with_every_node es wanted ps = if wanted then add_targets (every_node es) ps else ps

unfoldable pub plan_named :
    List Loaded → Call → List Text → List BackupPlan → Result (List BackupPlan)
plan_named es call devices ps = elim (given_text call.node) [
  | some node ↦ elim (entry_tracking_node es node) [
    | none ↦ raised (backup_unknown_node node)
    | some e ↦ ok (add_targets (named_on call e node) ps)
  ]
  | none ↦ elim (plan_guests es call.vmids ps) [
    | raised e ↦ raised e
    | ok qs ↦ ok (with_every_node es (call.everything && is_empty devices) qs)
  ]
]

unfoldable pub some_plans : List BackupPlan → Result (List BackupPlan)
some_plans [] = raised backup_nothing_selected
some_plans (p ∷ ps) = ok (p ∷ ps)

unfoldable pub plan_backups :
    List Loaded → Dict Text Device → Call → List Text → Result (List BackupPlan)
plan_backups es known call devices = elim (plan_devices es known devices []) [
  | raised e ↦ raised e
  | ok ps ↦ elim (plan_named es call devices ps) [ raised e ↦ raised e | ok qs ↦ some_plans qs ]
]
