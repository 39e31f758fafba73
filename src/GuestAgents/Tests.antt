-- ===== src/GuestAgents/Tests.antt =====
-- A machine that is refused and forgotten, and the theorems there.
use proxmoxve_integration.Prelude.{
  ℕ, ◌≡◌, refl, [], ◌∷◌, true, list_eq, nat_eq, ℕ_discrete, ◌==◌, contains, if◌then◌else◌,
}
use proxmoxve_integration.Prelude.Dict.{insert, erase}
use proxmoxve_integration.Prelude.Sets.{add}
use proxmoxve_integration.Prelude.Sort.{sort_by}
use proxmoxve_integration.Prelude.Text.{text, decimal, join_by}
use proxmoxve_integration.Issues.Registry.{RegistryOf, dict_registry}
use proxmoxve_integration.GuestAgents.{
  fsinfo, file, AgentIssue, Entry, State, agent_issue_id, agent_issue, guest_agent_permission,
  affected_at, set_affected, keep_affected, note_guest_agent_refusal, discard, unnote_all,
  forget_untracked_guest_agents,
}
use proxmoxve_integration.GuestAgents.Laws.{IsShown, note_guest_agent_refusal_exact}

opened : Unit {0}
unfolding agent_issue_id agent_issue guest_agent_permission set_affected keep_affected
    note_guest_agent_refusal discard unnote_all forget_untracked_guest_agents insert erase add
    sort_by decimal join_by list_eq ℕ_discrete
opened = tt

abbrev registry : RegistryOf AgentIssue
registry = dict_registry AgentIssue

abbrev entry : Entry
entry = record { entry_id = text "e"; username = text "u" }

abbrev empty : State registry
empty = record { refusals = []; issues = [] }

empty-IsShown : IsShown registry entry empty
empty-IsShown fsinfo = refl
empty-IsShown file = refl

abbrev refused : State registry
refused =
    note_guest_agent_refusal registry entry file 9 true
      (note_guest_agent_refusal registry entry file 100 true empty)

refused-IsShown : IsShown registry entry refused
unfolding opened
refused-IsShown fsinfo = refl
refused-IsShown file = refl

note_guest_agent_refusal_exact_example :
    IsShown registry entry (note_guest_agent_refusal registry entry file 100 true empty)
    × (contains
          (affected_at registry
            (text "e")
            file
            (note_guest_agent_refusal registry entry file 100 true empty))
          100
        ≡ (if ◌==◌ {A = ℕ} 100 100
            then true
            else contains (affected_at registry (text "e") file empty) 100))
note_guest_agent_refusal_exact_example =
    note_guest_agent_refusal_exact registry entry file 100 true empty 100 empty-IsShown

runs :
    ((agent_issue entry file (100 ∷ 9 ∷ [])).vms ≡ text "9, 100")
    × ((agent_issue entry fsinfo []).permission
        ≡ text "['perm','/vms',['VM.GuestAgent.Audit','VM.GuestAgent.Unrestricted'],'any',1]")
    × ((forget_untracked_guest_agents registry entry [] refused).issues ≡ [])
unfolding opened
runs = (refl, refl, refl)
