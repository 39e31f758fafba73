-- ===== src/Services/Coverage.antt =====
-- Every guest that a call names is in the plan of the node that hosts it.
use mathlib.Core.Path.{subst}
use proxmoxve_integration.Prelude.{
  ℕ, ◌≡◌, refl, List, [], ◌∷◌, Bool, true, Option, none, some, ◌==◌, ◌&&◌, contains, any, list_eq,
  nat_eq, arith, is_empty, Bool-cases, Option-cases, inl, inr,
}
use proxmoxve_integration.Prelude.Dict.{Dict}
use proxmoxve_integration.Prelude.Sets.{contains-add}
use proxmoxve_integration.Prelude.Text.{Text}
use proxmoxve_integration.Services.{Loaded, Device, Target, ok, entry_hosting_guest}
use proxmoxve_integration.Services.Plans.{
  BackupPlan, add_vmid, new_plan, is_plan_of, add_target, Call, plan_devices, on_node, plan_guests,
  given_text, with_every_node, plan_named, plan_backups,
}
use proxmoxve_integration.Services.PlanLaws.{
  Result-cases, ok-injective, raised-ne-ok, some_plans-ok, kept_by_guests, kept_with_every_node,
}

-- Whether a plan runs what is asked: a guest, or everything on the node.
abbrev pub runs_on : Option ℕ → BackupPlan → Bool
runs_on none p = p.everything
runs_on (some vmid) p = contains p.vmids vmid

abbrev pub plan_covers : Target → BackupPlan → Bool
plan_covers t p = is_plan_of t.entry.entry.entry_id t.node p && runs_on t.vmid p

abbrev pub covers : Target → List BackupPlan → Bool
covers t ps = any (plan_covers t) ps

add_vmid-runs :
    (v u : Option ℕ) (p : BackupPlan) → runs_on u p ≡ true → runs_on u (add_vmid v p) ≡ true
add_vmid-runs none none p h = refl
add_vmid-runs none (some u) p h = h
add_vmid-runs (some v) none p h = h
add_vmid-runs (some v) (some u) p h = ground (arith, h, contains-add v u p.vmids)

add_vmid-runs_own : (v : Option ℕ) (p : BackupPlan) → runs_on v (add_vmid v p) ≡ true
add_vmid-runs_own none p = refl
add_vmid-runs_own (some v) p = ground (arith, contains-add v v p.vmids)

is_plan_of-add :
    (id node : Text) (v : Option ℕ) (p : BackupPlan)
    → is_plan_of id node (add_vmid v p) ≡ is_plan_of id node p
is_plan_of-add id node none p = refl
is_plan_of-add id node (some v) p = refl

covers-add_target_own : (t : Target) (ps : List BackupPlan) → covers t (add_target t ps) ≡ true
unfolding add_target
covers-add_target_own t [] = ground (
  arith,
  add_vmid-runs_own t.vmid (new_plan t.entry t.node),
  is_plan_of-add t.entry.entry.entry_id t.node t.vmid (new_plan t.entry t.node),
)
covers-add_target_own t (p ∷ ps) = ground (
  arith,
  add_vmid-runs_own t.vmid p,
  is_plan_of-add t.entry.entry.entry_id t.node t.vmid p,
  covers-add_target_own t ps,
)

covers-add_target :
    (u t : Target) (ps : List BackupPlan) → covers u ps ≡ true → covers u (add_target t ps) ≡ true
unfolding add_target
covers-add_target u t [] h = ground (arith, h)
covers-add_target u t (p ∷ ps) h = ground (
  arith,
  h,
  add_vmid-runs t.vmid u.vmid p,
  is_plan_of-add u.entry.entry.entry_id u.node t.vmid p,
  covers-add_target u t ps,
)

-- A guest's host, and that a list of plans has the guest there.
abbrev pub IsPlanned : List Loaded → ℕ → List BackupPlan → Type 0
IsPlanned es v ps =
    (hosting : Loaded × Text) × (entry_hosting_guest es v ≡ some hosting)
    × (covers (on_node hosting.0 hosting.1 (some v)) ps ≡ true)

IsPlanned-plan_guests :
    (es : List Loaded) (v : ℕ) (vmids : List ℕ) (ps qs : List BackupPlan)
    → plan_guests es vmids ps ≡ ok qs
    → contains vmids v ≡ true
    → IsPlanned es v qs
unfolding plan_guests
IsPlanned-plan_guests es v [] ps qs = λ done named. absurd (ground (arith, named))
IsPlanned-plan_guests es v (vmid ∷ vmids) ps qs =
    elim (Option-cases (entry_hosting_guest es vmid)) [
      | inl unknown ↦ rw (unknown, plan_guests) (λ done named. raised-ne-ok _ qs done)
      | inr (hosting, found) ↦
          rw (found, plan_guests)
            (λ done named.
              let t = on_node hosting.0 hosting.1 (some vmid) in
              elim (Bool-cases (v == vmid)) [
                | inl same ↦ (
                  hosting,
                  ground (arith, same, found),
                  kept_by_guests (λ rs. covers (on_node hosting.0 hosting.1 (some v)) rs ≡ true)
                      (covers-add_target (on_node hosting.0 hosting.1 (some v))) es vmids
                      (add_target t ps) qs done (ground (arith, same, covers-add_target_own t ps)),
                )
                | inr other ↦
                    IsPlanned-plan_guests es v vmids (add_target t ps) qs done
                      (ground (arith, other, named))
              ])
    ]

IsPlanned-with_every_node :
    (es : List Loaded) (v : ℕ) (wanted : Bool) (ps : List BackupPlan)
    → IsPlanned es v ps
    → IsPlanned es v (with_every_node es wanted ps)
IsPlanned-with_every_node es v wanted ps (hosting, found, covered) = (
  hosting,
  found,
  kept_with_every_node (λ rs. covers (on_node hosting.0 hosting.1 (some v)) rs ≡ true)
      (covers-add_target (on_node hosting.0 hosting.1 (some v))) es wanted ps covered,
)

IsPlanned-plan_named :
    (es : List Loaded) (call : Call) (devices : List Text) (v : ℕ) (ps qs : List BackupPlan)
    → given_text call.node ≡ none
    → contains call.vmids v ≡ true
    → plan_named es call devices ps ≡ ok qs
    → IsPlanned es v qs
unfolding plan_named
IsPlanned-plan_named es call devices v ps qs unnamed named =
    rw (unnamed, plan_named)
      (elim (Result-cases (plan_guests es call.vmids ps)) [
        | inl (e, refused) ↦ rw (refused, plan_named) (λ done. raised-ne-ok e qs done)
        | inr (rs, planned) ↦
            rw (planned, plan_named)
              (λ done.
                let all = call.everything && is_empty devices in
                subst (IsPlanned es v) (ok-injective (with_every_node es all rs) qs done) (
                  IsPlanned-with_every_node es v all rs
                    (IsPlanned-plan_guests es v call.vmids ps rs planned named)))
      ])

-- If a call names no node and the planning succeeds, every guest of its `vmid` has a host, and the
-- plan for that host's node runs the guest.
pub plan_backups_hosted :
    (es : List Loaded) (known : Dict Text Device) (call : Call) (devices : List Text)
    → (ps : List BackupPlan) (v : ℕ) → given_text call.node ≡ none
    → contains call.vmids v ≡ true
    → plan_backups es known call devices ≡ ok ps
    → IsPlanned es v ps
unfolding plan_backups
plan_backups_hosted es known call devices qs v unnamed named =
    elim (Result-cases (plan_devices es known devices [])) [
      | inl (e, refused) ↦ rw (refused, plan_backups) (λ done. raised-ne-ok e qs done)
      | inr (ps, planned) ↦
          rw (planned, plan_backups)
            (elim (Result-cases (plan_named es call devices ps)) [
              | inl (e, refused) ↦ rw (refused, plan_backups) (λ done. raised-ne-ok e qs done)
              | inr (rs, by_name) ↦
                  rw (by_name, plan_backups)
                    (λ done.
                      subst (IsPlanned es v) (some_plans-ok rs qs done).0
                        (IsPlanned-plan_named es call devices v ps rs unnamed named by_name))
            ])
    ]
