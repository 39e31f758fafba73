-- ===== src/GuestAgents/Ids.antt =====
-- The machines left by `discard`, and that the repairs of the features have different ids.
use proxmoxve_integration.Prelude.{
  ℕ, ◌≡◌, ◌≢◌, refl, ap, List, [], ◌∷◌, not, Option, none, some, ◌==◌, ◌&&◌, contains,
  if◌then◌else◌, list_eq, nat_eq, arith, is_empty,
}
use proxmoxve_integration.Prelude.Text.{last_char, last_char-append, Text, text}
use proxmoxve_integration.GuestAgents.{
  Feature, fsinfo, file, AgentIssue, Entry, agent_issue_id, agent_issue, discard,
}

pub contains-discard :
    (vmid v : ℕ) (vs : List ℕ) → contains (discard vmid vs) v ≡ (contains vs v && not (v == vmid))
unfolding discard
contains-discard vmid v [] = refl
contains-discard vmid v (x ∷ vs) = ground (arith, contains-discard vmid v vs)

-- The repair that stands for the machines refused.
abbrev pub agent_repair : Entry → Feature → List ℕ → Option AgentIssue
agent_repair e feature vms = if is_empty vms then none else some (agent_issue e feature vms)

pub agent_issue_id-ne : (a b : Text) → agent_issue_id a fsinfo ≢ agent_issue_id b file
unfolding agent_issue_id last_char
agent_issue_id-ne a b e = absurd (
    omega (
      arith,
      ap last_char e,
      last_char-append a b'_' (text "guest_agent_fsinfo"),
      last_char-append b b'_' (text "guest_agent_file"),
    ))
