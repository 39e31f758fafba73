-- ===== src/GuestAgents.antt =====
-- coordinator.py: the repair per entry and feature about virtual machines whose guest agent may not be
-- read. The issue registry is a parameter.
pub mod Ids
pub mod Laws
mod Tests
use proxmoxve_integration.Prelude.{
  ℕ, List, [], ◌∷◌, ◌++◌, Bool, true, false, not, Option, none, some, ◌==◌, ◌||◌, contains,
  if◌then◌else◌, leb, list_eq, nat_eq, is_empty, map,
}
use proxmoxve_integration.Prelude.Dict.{Dict, lookup, insert}
use proxmoxve_integration.Prelude.Sets.{add}
use proxmoxve_integration.Prelude.Sort.{sort_by}
use proxmoxve_integration.Prelude.Text.{Text, text, join_by, decimal}
use proxmoxve_integration.Issues.Registry.{RegistryOf}

-- The keys of `GUEST_AGENT_PRIVILEGES`.
pub data Feature : Type 0 where
  fsinfo file : Feature

abbrev pub feature_value : Feature → Text
feature_value fsinfo = text "fsinfo"
feature_value file = text "file"

abbrev pub guest_agent_privileges : Feature → List Text
guest_agent_privileges fsinfo = text "VM.GuestAgent.Audit" ∷ text "VM.GuestAgent.Unrestricted" ∷ []
guest_agent_privileges file = text "VM.GuestAgent.FileRead" ∷ text "VM.GuestAgent.Unrestricted" ∷ []

abbrev quote : Text → Text
quote name = text "'" ++ (name ++ text "'")

unfoldable pub guest_agent_permission : Feature → Text
guest_agent_permission feature =
    text "['perm','/vms',["
    ++ (join_by (text ",") (map quote (guest_agent_privileges feature)) ++ text "],'any',1]")

-- What the repair shows.
pub record AgentIssue : Type 0 where
  pub translation_key : Text
  pub vms : Text
  pub user : Text
  pub permission : Text

-- The refused machines of an entry, by feature; a feature without an entry in the dict has none.
pub record Refusals : Type 0 where
  pub fsinfo : List ℕ
  pub file : List ℕ

abbrev pub no_refusals : Refusals
no_refusals = record { fsinfo = []; file = [] }

abbrev pub affected_in : Feature → Refusals → List ℕ
affected_in fsinfo r = r.fsinfo
affected_in file r = r.file

abbrev pub with_affected : Feature → List ℕ → Refusals → Refusals
with_affected fsinfo vms r = record r { fsinfo = vms }
with_affected file vms r = record r { file = vms }

abbrev pub or_none : Option Refusals → Refusals
or_none none = no_refusals
or_none (some r) = r

-- `affected.discard(vmid)`
unfoldable pub discard : ℕ → List ℕ → List ℕ
discard vmid [] = []
discard vmid (v ∷ vs) = let rest = discard vmid vs in if v == vmid then rest else v ∷ rest

pub record Entry : Type 0 where
  pub entry_id : Text
  pub username : Text

unfoldable pub agent_issue_id : Text → Feature → Text
agent_issue_id entry_id feature = entry_id ++ (text "_guest_agent_" ++ feature_value feature)

unfoldable pub agent_issue : Entry → Feature → List ℕ → AgentIssue
agent_issue e feature vms = record {
  translation_key = text "guest_agent_" ++ (feature_value feature ++ text "_forbidden");
  vms = join_by (text ", ") (map decimal (sort_by leb vms));
  user = e.username;
  permission = guest_agent_permission feature;
}

module _ (R : RegistryOf AgentIssue) where
  pub record State : Type 0 where
    pub refusals : Dict Text Refusals
    pub issues : R.State

  abbrev pub refusals_of : Text → State → Refusals
  refusals_of entry_id s = or_none (lookup entry_id s.refusals)

  abbrev pub affected_at : Text → Feature → State → List ℕ
  affected_at entry_id feature s = affected_in feature (refusals_of entry_id s)

  -- The set changed, and the repair rewritten from it or deleted.
  unfoldable pub set_affected : Entry → Feature → List ℕ → State → State
  set_affected e feature vms s = record {
    refusals = insert e.entry_id (with_affected feature vms (refusals_of e.entry_id s)) s.refusals;
    issues =
        if is_empty vms
        then R.delete (agent_issue_id e.entry_id feature) s.issues
        else R.create (agent_issue_id e.entry_id feature) (agent_issue e feature vms) s.issues;
  }

  -- The `setdefault`s of a call that changes nothing.
  unfoldable pub keep_affected : Entry → State → State
  keep_affected e s = record s {
    refusals = insert e.entry_id (refusals_of e.entry_id s) s.refusals;
  }

  abbrev pub is_same : Bool → Bool → Bool
  is_same true b = b
  is_same false b = not b

  unfoldable pub note_guest_agent_refusal : Entry → Feature → ℕ → Bool → State → State
  note_guest_agent_refusal e feature vmid refused s =
      let affected = affected_at e.entry_id feature s in
      if is_same refused (contains affected vmid)
      then keep_affected e s
      else set_affected e feature (if refused then add vmid affected else discard vmid affected) s

  abbrev pub untracked : List Text → List ℕ → List ℕ
  untracked still [] = []
  untracked still (vmid ∷ vmids) =
      let rest = untracked still vmids in
      if contains still (decimal vmid) then rest else vmid ∷ rest

  unfoldable pub unnote_all : Entry → Feature → List ℕ → State → State
  unnote_all e feature [] s = s
  unnote_all e feature (vmid ∷ vmids) s =
      unnote_all e feature vmids (note_guest_agent_refusal e feature vmid false s)

  -- One round of the loop over the features.
  abbrev pub forget_feature : Entry → List Text → Feature → State → State
  forget_feature e still feature s =
      unnote_all e feature (untracked still (affected_at e.entry_id feature s)) s

  unfoldable pub forget_untracked_guest_agents : Entry → List Text → State → State
  forget_untracked_guest_agents e still s =
      forget_feature e still file (forget_feature e still fsinfo s)
