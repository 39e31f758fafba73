-- ===== src/HaStatus/Laws.antt =====
-- The counts of the HA status, and that its states are ones that a sensor offers.
use mathlib.Core.Path.{subst}
use mathlib.Core.Option.{some-injective}
use proxmoxve_integration.Prelude.{
  ℕ, suc, ◌+◌, ◌≡◌, refl, List, [], ◌∷◌, true, false, Option, some, contains, if◌then◌else◌,
  list_eq, nat_eq, arith, length, length-append, Bool-cases, Option-cases, inl, inr,
}
use proxmoxve_integration.Prelude.Text.{Text, text}
use proxmoxve_integration.Json.{
  Value, null, bool, int, float, str, arr, obj, Values, Fields, get, is_text, elements,
}
use proxmoxve_integration.HaStatus.{
  ha_armed_states, ha_resource_modes, ha_service_error_states, text_in, HaStatus, nothing_known,
  note_quorum, note_master, note_timestamp, note_fencing, note_service, note_entry, note_entries,
  parse_ha_status,
}
use proxmoxve_integration.HaStatus.Entries.{
  is_service, is_error_text, is_incident, count_entries, one_if, IsKnown, is_text_other,
  types_apart, text_in-IsAllowed, Counts, SameCounts, SameStates,
}

module _ (repr : Value → Text) (to_time : Value → Option ℕ) (now : ℕ) where
  quorum_same :
      (v : Value) (h : HaStatus)
      → let k = note_quorum repr to_time now v h in SameCounts h k × SameStates h k
  quorum_same v h = ground arith

  master_same :
      (v w : Value) (h : HaStatus)
      → let k = note_timestamp repr to_time now v (note_master repr to_time now w h) in
        SameCounts h k × SameStates h k
  master_same v w h = ground arith

  fencing_same :
      (v w : Value) (h k : HaStatus)
      → note_fencing repr to_time now (text_in ha_armed_states v) (text_in ha_resource_modes w) h
        ≡ some k
      → SameCounts h k × IsKnown k
  fencing_same v w h k = elim (Option-cases (text_in ha_armed_states v)) [
    | inl bad ↦ rw bad (λ e. absurd (ground (arith, e)))
    | inr (a, armed) ↦ rw armed (elim (Option-cases (text_in ha_resource_modes w)) [
      | inl bad ↦ rw bad (λ e. absurd (ground (arith, e)))
      | inr (m, mode) ↦ rw mode (λ e.
          subst (λ x. SameCounts h x × IsKnown x) (some-injective _ k e)
            (
              (refl, refl),
              (
                text_in-IsAllowed ha_armed_states v a armed,
                text_in-IsAllowed ha_resource_modes w m mode,
              ),
            ))
    ])
  ]

  incident_counts :
      (fs : Fields) (h k : HaStatus) (t : Text)
      → note_service repr to_time now (some (some t)) fs h ≡ some k
      → (k.resources_total ≡ suc h.resources_total)
        × (length k.resources_error ≡ length h.resources_error + 1)
        × SameStates h k
  incident_counts fs h k t e =
      subst
        (λ x.
          (x.resources_total ≡ suc h.resources_total)
          × (length x.resources_error ≡ length h.resources_error + 1)
          × SameStates h x)
        (some-injective _ k e) (refl, length-append h.resources_error _, (refl, refl))

  service_counts :
      (v : Value) (fs : Fields) (h k : HaStatus)
      → note_service repr to_time now (text_in ha_service_error_states v) fs h ≡ some k
      → (k.resources_total ≡ suc h.resources_total)
        × (length k.resources_error ≡ length h.resources_error + one_if (is_error_text v))
        × SameStates h k
  service_counts (str t) fs h k e = elim (Bool-cases (contains ha_service_error_states t)) [
    | inl bad ↦ rw bad (incident_counts fs h k t (ground (arith, bad, e)))
    | inr good ↦ ground (arith, good, e)
  ]
  service_counts null fs h k e = ground (arith, e)
  service_counts (bool b) fs h k e = ground (arith, e)
  service_counts (int n) fs h k e = ground (arith, e)
  service_counts (float m d) fs h k e = ground (arith, e)
  service_counts (arr vs) fs h k e = absurd (ground (arith, e))
  service_counts (obj gs) fs h k e = absurd (ground (arith, e))

  -- An entry's step.
  abbrev pub IsStep : Fields → HaStatus → HaStatus → Type 0
  IsStep fs h k = Counts fs h k × (IsKnown h → IsKnown k)

  same-IsKnown : (h k : HaStatus) → SameStates h k → IsKnown h → IsKnown k
  same-IsKnown h k (armed, mode) (a, m) = rw (armed, mode) (a, m)

  other_type :
      (fs : Fields) (h k : HaStatus) → is_service fs ≡ false → SameCounts h k → Counts fs h k
  other_type fs h k apart same = ground (arith, apart, same)

  unchanged-IsStep :
      (fs : Fields) (h x k : HaStatus)
      → is_service fs ≡ false
      → SameCounts h x × SameStates h x
      → some x ≡ some k
      → IsStep fs h k
  unchanged-IsStep fs h x k apart (counts, states) e =
      subst (IsStep fs h) (some-injective x k e)
        (other_type fs h x apart counts, same-IsKnown h x states)

  service-IsStep :
      (fs : Fields) (h k : HaStatus)
      → is_service fs ≡ true
      → note_service repr to_time now
          (text_in ha_service_error_states (get (text "crm_state") fs))
          fs
          h
        ≡ some k
      → IsStep fs h k
  service-IsStep fs h k service e =
      let (total, errors, states) = service_counts (get (text "crm_state") fs) fs h k e in
      (ground (arith, service, total, errors), same-IsKnown h k states)

  service_or_other :
      (fs : Fields) (h k : HaStatus)
      → (if is_service fs
          then note_service repr to_time now
              (text_in ha_service_error_states (get (text "crm_state") fs))
              fs
              h
          else some h)
        ≡ some k
      → IsStep fs h k
  service_or_other fs h k e = elim (Bool-cases (is_service fs)) [
    | inl service ↦ service-IsStep fs h k service (ground (arith, service, e))
    | inr other ↦
        unchanged-IsStep fs h h k other ((refl, refl), (refl, refl)) (ground (arith, other, e))
  ]

  fencing-IsStep :
      (fs : Fields) (h k : HaStatus)
      → is_service fs ≡ false
      → note_fencing repr to_time now
          (text_in ha_armed_states (get (text "armed-state") fs))
          (text_in ha_resource_modes (get (text "resource_mode") fs))
          h
        ≡ some k
      → IsStep fs h k
  fencing-IsStep fs h k apart e =
      let (same, known) =
        fencing_same (get (text "armed-state") fs) (get (text "resource_mode") fs) h k e in
      (other_type fs h k apart same, λ _. known)

  note_entry-IsStep :
      (fs : Fields) (h k : HaStatus) → note_entry repr to_time now fs h ≡ some k → IsStep fs h k
  unfolding note_entry
  note_entry-IsStep fs h k =
      let type = get (text "type") fs in
      let node = get (text "node") fs in
      let stamp = get (text "timestamp") fs in
      let rate = get (text "quorate") fs in
      elim (Bool-cases (is_text (text "quorum") type)) [
        | inl quorum ↦ rw quorum (
            unchanged-IsStep fs h (note_quorum repr to_time now rate h) k
              (is_text_other (text "quorum") (text "service") type types_apart.0 quorum)
              (quorum_same rate h))
        | inr not_quorum ↦ rw not_quorum (elim (Bool-cases (is_text (text "master") type)) [
          | inl master ↦ rw master (
              unchanged-IsStep fs h
                (note_timestamp repr to_time now stamp (note_master repr to_time now node h)) k
                (is_text_other (text "master") (text "service") type types_apart.1 master)
                (master_same stamp node h))
          | inr not_master ↦ rw not_master (elim (Bool-cases (is_text (text "fencing") type)) [
            | inl fencing ↦ rw fencing (
                fencing-IsStep fs h k
                  (is_text_other (text "fencing") (text "service") type types_apart.2 fencing))
            | inr not_fencing ↦ rw not_fencing (service_or_other fs h k)
          ])
        ])
      ]

  -- What a run of entries does.
  abbrev pub IsRun : List Value → HaStatus → HaStatus → Type 0
  IsRun vs h k =
      (k.resources_total ≡ h.resources_total + count_entries is_service vs)
      × (length k.resources_error ≡ length h.resources_error + count_entries is_incident vs)
      × (IsKnown h → IsKnown k)

  step-IsRun :
      (fs : Fields) (vs : List Value) (h m k : HaStatus)
      → IsStep fs h m
      → IsRun vs m k
      → IsRun (obj fs ∷ vs) h k
  step-IsRun fs vs h m k ((total, errors), known) (rest, more, still) =
      (ground (arith, total, rest), ground (arith, errors, more), λ start. still (known start))

  none-IsRun : (h k : HaStatus) → some h ≡ some k → IsRun [] h k
  none-IsRun h k e =
      subst (IsRun [] h) (some-injective h k e) (omega arith, omega arith, λ known. known)

  note_entries-IsRun :
      (vs : List Value) (h k : HaStatus)
      → note_entries repr to_time now vs h ≡ some k
      → IsRun vs h k
  unfolding note_entries
  note_entries-IsRun [] h k = none-IsRun h k
  note_entries-IsRun (obj fs ∷ vs) h k = elim (Option-cases (note_entry repr to_time now fs h)) [
    | inl raises ↦ rw (raises, note_entries) (λ e. absurd (ground (arith, e)))
    | inr (m, noted) ↦
        rw (noted, note_entries)
          (λ e.
            step-IsRun fs vs h m k (note_entry-IsStep fs h m noted) (note_entries-IsRun vs m k e))
  ]
  note_entries-IsRun (null ∷ vs) h k = note_entries-IsRun vs h k
  note_entries-IsRun (bool b ∷ vs) h k = note_entries-IsRun vs h k
  note_entries-IsRun (int n ∷ vs) h k = note_entries-IsRun vs h k
  note_entries-IsRun (float m e ∷ vs) h k = note_entries-IsRun vs h k
  note_entries-IsRun (str s ∷ vs) h k = note_entries-IsRun vs h k
  note_entries-IsRun (arr ws ∷ vs) h k = note_entries-IsRun vs h k

  -- Of the HA status, where reading it does not raise, the number of resources is that of the service
  -- entries, the list of incidents has one for each service entry whose state is an error, a fence or a
  -- recovery, and the armed state and the resource mode are ones that are offered, if known.
  parse_ha_status_exact :
      (entries : Values) (h : HaStatus)
      → parse_ha_status repr to_time now entries ≡ some h
      → (h.resources_total ≡ count_entries is_service (elements entries))
        × (length h.resources_error ≡ count_entries is_incident (elements entries))
        × IsKnown h
  unfolding parse_ha_status
  parse_ha_status_exact entries h e =
      let (total, errors, known) = note_entries-IsRun (elements entries) nothing_known h e in
      (omega (arith, total), omega (arith, errors), known (tt, tt))
