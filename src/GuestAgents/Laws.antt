-- ===== src/GuestAgents/Laws.antt =====
-- The repair about guest agents shows exactly the machines that were refused.
use proxmoxve_integration.Prelude.{
  ℕ, ◌≡◌, ◌≢◌, refl, ◌∙◌, List, [], ◌∷◌, Bool, false, not, ◌==◌, ◌&&◌, contains, if◌then◌else◌,
  list_eq, nat_eq, arith, Bool-cases, inl, inr,
}
use proxmoxve_integration.Prelude.Dict.{lookup-insert}
use proxmoxve_integration.Prelude.Sets.{add, contains-add}
use proxmoxve_integration.Prelude.Text.{Text, decimal}
use proxmoxve_integration.Issues.Registry.{RegistryOf}
use proxmoxve_integration.GuestAgents.{
  Feature, fsinfo, file, Refusals, AgentIssue, Entry, State, agent_issue_id, agent_issue,
  affected_in, with_affected, refusals_of, affected_at, set_affected, keep_affected,
  note_guest_agent_refusal, discard, unnote_all, untracked, forget_feature,
  forget_untracked_guest_agents, is_same,
}
use proxmoxve_integration.GuestAgents.Ids.{contains-discard, agent_repair, agent_issue_id-ne}

module _ (R : RegistryOf AgentIssue) where
  abbrev pub IsShown : Entry → State R → Type 0
  IsShown e s =
      (f : Feature)
      → R.find (agent_issue_id e.entry_id f) s.issues
        ≡ agent_repair e f (affected_at R e.entry_id f s)

  find-set_affected :
      (e : Entry) (feature : Feature) (vms : List ℕ) (s : State R) (id : Text)
      → R.find id (set_affected R e feature vms s).issues ≡ (
          if id == agent_issue_id e.entry_id feature
          then agent_repair e feature vms
          else R.find id s.issues)
  unfolding set_affected
  find-set_affected e feature vms s id = ground (
    arith,
    R.find-create (agent_issue_id e.entry_id feature) id (agent_issue e feature vms) s.issues,
    R.find-delete (agent_issue_id e.entry_id feature) id s.issues,
  )

  refusals_of-set_affected :
      (e : Entry) (feature : Feature) (vms : List ℕ) (s : State R)
      → refusals_of R e.entry_id (set_affected R e feature vms s)
        ≡ with_affected feature vms (refusals_of R e.entry_id s)
  unfolding set_affected
  refusals_of-set_affected e feature vms s = ground (
    arith,
    lookup-insert e.entry_id e.entry_id (with_affected feature vms (refusals_of R e.entry_id s))
        s.refusals,
  )

  set_affected-IsShown :
      (e : Entry) (feature : Feature) (vms : List ℕ) (s : State R)
      → IsShown e s
      → IsShown e (set_affected R e feature vms s)
  set_affected-IsShown e fsinfo vms s shown fsinfo =
      rw (refusals_of-set_affected e fsinfo vms s)
        (ground (arith, find-set_affected e fsinfo vms s (agent_issue_id e.entry_id fsinfo)))
  set_affected-IsShown e fsinfo vms s shown file = rw (refusals_of-set_affected e fsinfo vms s) (
      ground (
        arith,
        shown file,
        find-set_affected e fsinfo vms s (agent_issue_id e.entry_id file),
        agent_issue_id-ne e.entry_id e.entry_id,
      ))
  set_affected-IsShown e file vms s shown fsinfo = rw (refusals_of-set_affected e file vms s) (
      ground (
        arith,
        shown fsinfo,
        find-set_affected e file vms s (agent_issue_id e.entry_id fsinfo),
        agent_issue_id-ne e.entry_id e.entry_id,
      ))
  set_affected-IsShown e file vms s shown file =
      rw (refusals_of-set_affected e file vms s)
        (ground (arith, find-set_affected e file vms s (agent_issue_id e.entry_id file)))

  refusals_of-keep_affected :
      (e : Entry) (s : State R)
      → refusals_of R e.entry_id (keep_affected R e s) ≡ refusals_of R e.entry_id s
  unfolding keep_affected
  refusals_of-keep_affected e s =
      ground (arith, lookup-insert e.entry_id e.entry_id (refusals_of R e.entry_id s) s.refusals)

  keep_affected-IsShown : (e : Entry) (s : State R) → IsShown e s → IsShown e (keep_affected R e s)
  unfolding keep_affected
  keep_affected-IsShown e s shown f = rw (refusals_of-keep_affected e s) (shown f)

  -- The machines that a note leaves.
  abbrev after : ℕ → Bool → List ℕ → List ℕ
  after vmid refused affected = if refused then add vmid affected else discard vmid affected

  note_guest_agent_refusal-IsShown :
      (e : Entry) (feature : Feature) (vmid : ℕ) (refused : Bool) (s : State R)
      → IsShown e s
      → IsShown e (note_guest_agent_refusal R e feature vmid refused s)
  unfolding note_guest_agent_refusal
  note_guest_agent_refusal-IsShown e feature vmid refused s shown =
      let affected = affected_at R e.entry_id feature s in
      elim (Bool-cases (is_same R refused (contains affected vmid))) [
        | inl same ↦ rw same (keep_affected-IsShown e s shown)
        | inr differ ↦
            rw differ (set_affected-IsShown e feature (after vmid refused affected) s shown)
      ]

  affected_in-with :
      (f : Feature) (vms : List ℕ) (r : Refusals) → affected_in f (with_affected f vms r) ≡ vms
  affected_in-with fsinfo vms r = refl
  affected_in-with file vms r = refl

  contains-note_guest_agent_refusal :
      (e : Entry) (feature : Feature) (vmid : ℕ) (refused : Bool) (s : State R) (v : ℕ)
      → contains
          (affected_at R e.entry_id feature (note_guest_agent_refusal R e feature vmid refused s))
          v
        ≡ (if v == vmid then refused else contains (affected_at R e.entry_id feature s) v)
  unfolding note_guest_agent_refusal
  contains-note_guest_agent_refusal e feature vmid refused s v =
      let affected = affected_at R e.entry_id feature s in
      elim (Bool-cases (is_same R refused (contains affected vmid))) [
        | inl same ↦ rw (same, refusals_of-keep_affected e s) (ground (arith, same))
        | inr differ ↦
            rw
              (
                differ,
                refusals_of-set_affected e feature (after vmid refused affected) s,
                affected_in-with feature (after vmid refused affected) (refusals_of R e.entry_id s),
              )
              (ground
                (arith, differ, contains-add vmid v affected, contains-discard vmid v affected))
      ]

  -- If an entry's repairs show its refused machines, this is still so after a machine is noted as
  -- refused or as readable, and of the feature's machines exactly that one has changed.
  pub note_guest_agent_refusal_exact :
      (e : Entry) (feature : Feature) (vmid : ℕ) (refused : Bool) (s : State R) (v : ℕ)
      → IsShown e s
      → let noted = note_guest_agent_refusal R e feature vmid refused s in
        IsShown e noted
        × (contains (affected_at R e.entry_id feature noted) v
            ≡ (if v == vmid then refused else contains (affected_at R e.entry_id feature s) v))
  note_guest_agent_refusal_exact e feature vmid refused s v shown = (
    note_guest_agent_refusal-IsShown e feature vmid refused s shown,
    contains-note_guest_agent_refusal e feature vmid refused s v,
  )

  affected_in_other :
      (f g : Feature) (vms : List ℕ) (r : Refusals)
      → f ≢ g
      → affected_in g (with_affected f vms r) ≡ affected_in g r
  affected_in_other fsinfo fsinfo vms r apart = absurd (apart refl)
  affected_in_other fsinfo file vms r apart = refl
  affected_in_other file fsinfo vms r apart = refl
  affected_in_other file file vms r apart = absurd (apart refl)

  affected_at_other :
      (e : Entry) (f g : Feature) (vmid : ℕ) (refused : Bool) (s : State R)
      → f ≢ g
      → affected_at R e.entry_id g (note_guest_agent_refusal R e f vmid refused s)
        ≡ affected_at R e.entry_id g s
  unfolding note_guest_agent_refusal
  affected_at_other e f g vmid refused s apart =
      let affected = affected_at R e.entry_id f s in
      elim (Bool-cases (is_same R refused (contains affected vmid))) [
        | inl same ↦ rw (same, refusals_of-keep_affected e s) refl
        | inr differ ↦
            rw (differ, refusals_of-set_affected e f (after vmid refused affected) s)
              (affected_in_other f g (after vmid refused affected) (refusals_of R e.entry_id s)
                apart)
      ]

  unnote_all-IsShown :
      (e : Entry) (f : Feature) (vmids : List ℕ) (s : State R)
      → IsShown e s
      → IsShown e (unnote_all R e f vmids s)
  unfolding unnote_all
  unnote_all-IsShown e f [] s shown = shown
  unnote_all-IsShown e f (vmid ∷ vmids) s shown =
      unnote_all-IsShown e f vmids (note_guest_agent_refusal R e f vmid false s)
        (note_guest_agent_refusal-IsShown e f vmid false s shown)

  contains-unnote_all :
      (e : Entry) (f : Feature) (vmids : List ℕ) (s : State R) (v : ℕ)
      → contains (affected_at R e.entry_id f (unnote_all R e f vmids s)) v
        ≡ (contains (affected_at R e.entry_id f s) v && not (contains vmids v))
  unfolding unnote_all
  contains-unnote_all e f [] s v = ground arith
  contains-unnote_all e f (vmid ∷ vmids) s v = ground (
    arith,
    contains-unnote_all e f vmids (note_guest_agent_refusal R e f vmid false s) v,
    contains-note_guest_agent_refusal e f vmid false s v,
  )

  unnote_all_other :
      (e : Entry) (f g : Feature) (vmids : List ℕ) (s : State R)
      → f ≢ g
      → affected_at R e.entry_id g (unnote_all R e f vmids s) ≡ affected_at R e.entry_id g s
  unfolding unnote_all
  unnote_all_other e f g [] s apart = refl
  unnote_all_other e f g (vmid ∷ vmids) s apart =
      unnote_all_other e f g vmids (note_guest_agent_refusal R e f vmid false s) apart
      ∙ affected_at_other e f g vmid false s apart

  contains-untracked :
      (still : List Text) (vmids : List ℕ) (v : ℕ)
      → contains (untracked R still vmids) v
        ≡ (contains vmids v && not (contains still (decimal v)))
  contains-untracked still [] v = refl
  contains-untracked still (vmid ∷ vmids) v = ground (arith, contains-untracked still vmids v)

  contains-forget_feature :
      (e : Entry) (still : List Text) (f : Feature) (s : State R) (v : ℕ)
      → contains (affected_at R e.entry_id f (forget_feature R e still f s)) v
        ≡ (contains (affected_at R e.entry_id f s) v && contains still (decimal v))
  contains-forget_feature e still f s v = ground (
    arith,
    contains-unnote_all e f (untracked R still (affected_at R e.entry_id f s)) s v,
    contains-untracked still (affected_at R e.entry_id f s) v,
  )

  forgotten_file :
      (e : Entry) (still : List Text) (s : State R)
      → affected_at R e.entry_id file (forget_feature R e still fsinfo s)
        ≡ affected_at R e.entry_id file s
  forgotten_file e still s =
      unnote_all_other e fsinfo file (untracked R still (affected_at R e.entry_id fsinfo s)) s
        (λ p. cc)

  forgotten_fsinfo :
      (e : Entry) (still : List Text) (s : State R)
      → affected_at R e.entry_id fsinfo (forget_feature R e still file s)
        ≡ affected_at R e.entry_id fsinfo s
  forgotten_fsinfo e still s =
      unnote_all_other e file fsinfo (untracked R still (affected_at R e.entry_id file s)) s
        (λ p. cc)

  contains-forgotten :
      (e : Entry) (still : List Text) (s : State R) (f : Feature) (v : ℕ)
      → contains (affected_at R e.entry_id f (forget_untracked_guest_agents R e still s)) v
        ≡ (contains (affected_at R e.entry_id f s) v && contains still (decimal v))
  unfolding forget_untracked_guest_agents
  contains-forgotten e still s fsinfo v =
      rw (forgotten_fsinfo e still (forget_feature R e still fsinfo s))
        (contains-forget_feature e still fsinfo s v)
  contains-forgotten e still s file v = ground (
    arith,
    contains-forget_feature e still file (forget_feature R e still fsinfo s) v,
    forgotten_file e still s,
  )

  -- After the machines that are not tracked any more are forgotten, those left of each feature are the
  -- ones before whose id is still tracked, and the entry's repairs show them if they did before.
  forget_untracked_guest_agents_exact :
      (e : Entry) (still : List Text) (s : State R) (f : Feature) (v : ℕ)
      → IsShown e s
      → IsShown e (forget_untracked_guest_agents R e still s)
        × (contains (affected_at R e.entry_id f (forget_untracked_guest_agents R e still s)) v
            ≡ (contains (affected_at R e.entry_id f s) v && contains still (decimal v)))
  unfolding forget_untracked_guest_agents
  forget_untracked_guest_agents_exact e still s f v shown = (
    unnote_all-IsShown e file _ _ (unnote_all-IsShown e fsinfo _ s shown),
    contains-forgotten e still s f v,
  )
