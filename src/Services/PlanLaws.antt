-- ===== src/Services/PlanLaws.antt =====
-- What `plan_backups` comes to: one run per node of an entry, none of them empty, and every guest named
-- on the node that hosts it.
use mathlib.Core.Path.{subst}
use proxmoxve_integration.Prelude.{
  ℕ, ◌≡◌, refl, List, [], ◌∷◌, Bool, true, false, not, Option, none, some, ◌==◌, ◌&&◌, ◌||◌, any,
  list_eq, nat_eq, arith, is_empty, All, Bool-cases, Option-cases, inl, inr, ◌⊎◌,
}
use proxmoxve_integration.Prelude.Dict.{Dict}
use proxmoxve_integration.Prelude.Sets.{add, NoRepeat, add-NoRepeat}
use proxmoxve_integration.Prelude.Text.{Text}
use proxmoxve_integration.Services.{
  Loaded, Device, Target, Result, ok, raised, entry_tracking_node, entry_hosting_guest,
  resolve_device,
}
use proxmoxve_integration.Services.Plans.{
  BackupPlan, add_vmid, new_plan, is_plan_of, add_target, add_targets, Call, plan_devices, on_node,
  named_on, plan_guests, every_node, given_text, with_every_node, plan_named, some_plans,
  plan_backups,
}

pub Result-cases {ℓ} :
    {A : Type ℓ} (r : Result A) → ((e : _) × (r ≡ raised e)) ⊎ ((a : A) × (r ≡ ok a))
Result-cases (raised e) = inl (e, refl)
Result-cases (ok a) = inr (a, refl)

pub ok-injective {ℓ} : {A : Type ℓ} (a b : A) → ok a ≡ ok b → a ≡ b
ok-injective a b p = ground (arith, p)

pub raised-ne-ok {ℓ κ} : {A : Type ℓ} {C : Type κ} (e : _) (a : A) → raised e ≡ ok a → C
raised-ne-ok e a p = absurd (ground (arith, p))

pub some_plans-ok :
    (ps qs : List BackupPlan) → some_plans ps ≡ ok qs → (ps ≡ qs) × (is_empty qs ≡ false)
unfolding some_plans
some_plans-ok [] qs h = raised-ne-ok _ qs h
some_plans-ok (p ∷ ps) qs h = ground (arith, h)

-- What every added target preserves, the planning preserves.
module _ (P : List BackupPlan → Type 0)
    (step : (t : Target) (ps : List BackupPlan) → P ps → P (add_target t ps)) where
  pub kept_by_targets : (ts : List Target) (ps : List BackupPlan) → P ps → P (add_targets ts ps)
  kept_by_targets [] ps h = h
  kept_by_targets (t ∷ ts) ps h = kept_by_targets ts (add_target t ps) (step t ps h)

  pub kept_by_devices :
      (es : List Loaded) (known : Dict Text Device) (ids : List Text) (ps qs : List BackupPlan)
      → plan_devices es known ids ps ≡ ok qs
      → P ps
      → P qs
  unfolding plan_devices
  kept_by_devices es known [] ps qs = λ done h. rw (← ok-injective ps qs done) h
  kept_by_devices es known (id ∷ ids) ps qs = elim (Result-cases (resolve_device es known id)) [
    | inl (e, refused) ↦ rw (refused, plan_devices) (λ done h. raised-ne-ok e qs done)
    | inr (ts, found) ↦
        rw (found, plan_devices)
          (λ done h.
            kept_by_devices es known ids (add_targets ts ps) qs done (kept_by_targets ts ps h))
  ]

  pub kept_by_guests :
      (es : List Loaded) (vmids : List ℕ) (ps qs : List BackupPlan)
      → plan_guests es vmids ps ≡ ok qs
      → P ps
      → P qs
  unfolding plan_guests
  kept_by_guests es [] ps qs = λ done h. rw (← ok-injective ps qs done) h
  kept_by_guests es (vmid ∷ vmids) ps qs = elim (Option-cases (entry_hosting_guest es vmid)) [
    | inl unknown ↦ rw (unknown, plan_guests) (λ done h. raised-ne-ok _ qs done)
    | inr (hosting, found) ↦
        rw (found, plan_guests)
          (λ done h.
            kept_by_guests es vmids (add_target (on_node hosting.0 hosting.1 (some vmid)) ps) qs
              done (step (on_node hosting.0 hosting.1 (some vmid)) ps h))
  ]

  pub kept_with_every_node :
      (es : List Loaded) (wanted : Bool) (ps : List BackupPlan)
      → P ps
      → P (with_every_node es wanted ps)
  kept_with_every_node es true ps h = kept_by_targets (every_node es) ps h
  kept_with_every_node es false ps h = h

  kept_by_named :
      (es : List Loaded) (call : Call) (devices : List Text) (ps qs : List BackupPlan)
      → plan_named es call devices ps ≡ ok qs
      → P ps
      → P qs
  unfolding plan_named
  kept_by_named es call devices ps qs = elim (Option-cases (given_text call.node)) [
    | inl unnamed ↦
        rw (unnamed, plan_named)
          (elim (Result-cases (plan_guests es call.vmids ps)) [
            | inl (e, refused) ↦ rw (refused, plan_named) (λ done h. raised-ne-ok e qs done)
            | inr (rs, planned) ↦
                rw (planned, plan_named)
                  (λ done h.
                    let all = call.everything && is_empty devices in
                    subst P (ok-injective (with_every_node es all rs) qs done) (
                      kept_with_every_node es all rs
                        (kept_by_guests es call.vmids ps rs planned h)))
          ])
    | inr (node, named) ↦
        rw (named, plan_named)
          (elim (Option-cases (entry_tracking_node es node)) [
            | inl unknown ↦ rw (unknown, plan_named) (λ done h. raised-ne-ok _ qs done)
            | inr (e, tracked) ↦
                rw (tracked, plan_named)
                  (λ done h.
                    subst P (ok-injective (add_targets (named_on call e node) ps) qs done)
                      (kept_by_targets (named_on call e node) ps h))
          ])
  ]

  kept_by_backups :
      (es : List Loaded) (known : Dict Text Device) (call : Call) (devices : List Text)
      → (qs : List BackupPlan) → plan_backups es known call devices ≡ ok qs
      → P []
      → P qs
  unfolding plan_backups
  kept_by_backups es known call devices qs =
      elim (Result-cases (plan_devices es known devices [])) [
        | inl (e, refused) ↦ rw (refused, plan_backups) (λ done h. raised-ne-ok e qs done)
        | inr (ps, planned) ↦
            rw (planned, plan_backups)
              (elim (Result-cases (plan_named es call devices ps)) [
                | inl (e, refused) ↦ rw (refused, plan_backups) (λ done h. raised-ne-ok e qs done)
                | inr (rs, named) ↦
                    rw (named, plan_backups)
                      (λ done h. subst P (some_plans-ok rs qs done).0 (
                        kept_by_named es call devices ps rs named
                          (kept_by_devices es known devices [] ps planned h)))
              ])
      ]

plan_backups_some :
    (es : List Loaded) (known : Dict Text Device) (call : Call) (devices : List Text)
    → (qs : List BackupPlan) → plan_backups es known call devices ≡ ok qs
    → is_empty qs ≡ false
unfolding plan_backups
plan_backups_some es known call devices qs =
    elim (Result-cases (plan_devices es known devices [])) [
      | inl (e, refused) ↦ rw (refused, plan_backups) (λ done. raised-ne-ok e qs done)
      | inr (ps, planned) ↦
          rw (planned, plan_backups)
            (elim (Result-cases (plan_named es call devices ps)) [
              | inl (e, refused) ↦ rw (refused, plan_backups) (λ done. raised-ne-ok e qs done)
              | inr (rs, named) ↦ rw (named, plan_backups) (λ done. (some_plans-ok rs qs done).1)
            ])
    ]

-- No two plans are for the same node of the same entry.
abbrev pub Distinct : List BackupPlan → Type 0
Distinct [] = Unit
Distinct (p ∷ ps) = (any (is_plan_of p.entry.entry.entry_id p.node) ps ≡ false) × Distinct ps

-- The plan runs everything or at least one guest, and no guest twice.
abbrev pub IsFilled : BackupPlan → Type 0
IsFilled p = ((p.everything || not (is_empty p.vmids)) ≡ true) × NoRepeat p.vmids

is_plan_of-add_vmid :
    (id node : Text) (v : Option ℕ) (p : BackupPlan)
    → is_plan_of id node (add_vmid v p) ≡ is_plan_of id node p
is_plan_of-add_vmid id node none p = refl
is_plan_of-add_vmid id node (some v) p = refl

any_plan-add_target :
    (id node : Text) (t : Target) (ps : List BackupPlan)
    → any (is_plan_of id node) (add_target t ps)
      ≡ (any (is_plan_of id node) ps || (t.entry.entry.entry_id == id && t.node == node))
unfolding add_target
any_plan-add_target id node t [] =
    ground (arith, is_plan_of-add_vmid id node t.vmid (new_plan t.entry t.node))
any_plan-add_target id node t (p ∷ ps) =
    ground (arith, is_plan_of-add_vmid id node t.vmid p, any_plan-add_target id node t ps)

add_vmid-same_key :
    (v : Option ℕ) (p : BackupPlan)
    → ((add_vmid v p).entry ≡ p.entry) × ((add_vmid v p).node ≡ p.node)
add_vmid-same_key none p = (refl, refl)
add_vmid-same_key (some v) p = (refl, refl)

add_target-Distinct : (t : Target) (ps : List BackupPlan) → Distinct ps → Distinct (add_target t ps)
unfolding add_target
add_target-Distinct t [] d = (refl, tt)
add_target-Distinct t (p ∷ ps) (fresh, d) =
    elim (Bool-cases (is_plan_of t.entry.entry.entry_id t.node p)) [
      | inl same ↦ rw (same, add_target) (ground (arith, add_vmid-same_key t.vmid p, fresh, d))
      | inr apart ↦
          rw (apart, add_target)
            (
              ground (arith, apart, fresh, any_plan-add_target p.entry.entry.entry_id p.node t ps),
              add_target-Distinct t ps d,
            )
    ]

add_vmid-IsFilled : (v : Option ℕ) (p : BackupPlan) → NoRepeat p.vmids → IsFilled (add_vmid v p)
unfolding add
add_vmid-IsFilled none p n = (refl, n)
add_vmid-IsFilled (some v) p n = (ground (arith, n), add-NoRepeat v p.vmids n)

add_target-IsFilled :
    (t : Target) (ps : List BackupPlan) → All IsFilled ps → All IsFilled (add_target t ps)
unfolding add_target
add_target-IsFilled t [] h = (add_vmid-IsFilled t.vmid (new_plan t.entry t.node) tt, tt)
add_target-IsFilled t (p ∷ ps) ((some_work, n), h) =
    elim (Bool-cases (is_plan_of t.entry.entry.entry_id t.node p)) [
      | inl same ↦ rw (same, add_target) (add_vmid-IsFilled t.vmid p n, h)
      | inr apart ↦ rw (apart, add_target) ((some_work, n), add_target-IsFilled t ps h)
    ]

-- What `plan_backups` returns is not empty, holds one plan at most for a node of an entry, and each
-- plan runs everything on its node or at least one guest, none twice.
pub plan_backups-Distinct :
    (es : List Loaded) (known : Dict Text Device) (call : Call) (devices : List Text)
    → (ps : List BackupPlan) → plan_backups es known call devices ≡ ok ps
    → (is_empty ps ≡ false) × Distinct ps × All IsFilled ps
plan_backups-Distinct es known call devices ps done = (
  plan_backups_some es known call devices ps done,
  kept_by_backups Distinct add_target-Distinct es known call devices ps done tt,
  kept_by_backups (All IsFilled) add_target-IsFilled es known call devices ps done tt,
)
