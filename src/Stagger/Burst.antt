-- ===== src/Stagger/Burst.antt =====
-- The calls that are made: one for each coordinator that takes part, within the burst.
use proxmoxve_integration.Prelude.{
  ℕ, suc, ◌+◌, ◌*◌, ◌<◌, ◌≤◌, ◌≡◌, refl, ◌∙◌, ap, sym, List, [], ◌∷◌, true, Option, none, some,
  ◌==◌, ◌||◌, if◌then◌else◌, ltb, list_eq, nat_eq, contains, length, arith, All, Bool-cases, inl,
  inr,
}
use proxmoxve_integration.Prelude.Dict.{Dict, insert, lookup, lookup-insert, has}
use proxmoxve_integration.Prelude.Sort.{sort_by, contains-sort_by}
use proxmoxve_integration.Prelude.Text.{Text, text_leb}
use proxmoxve_integration.Stagger.{
  Seconds, Coordinator, Slot, offset_at, stagger_window, spread, stagger_offsets, candidates_of,
  first_keys, flatten, schedule, async_stagger_polling,
}

-- Every offset is shorter than the window.
abbrev IsShort : Seconds → Type 0
IsShort s = s.over < 12 * s.under

abbrev Short? : Option Seconds → Type 0
Short? none = Unit
Short? (some s) = IsShort s

Short?-spread :
    (count index : ℕ) (ordered : List Text) (offsets : Dict Text Seconds) (k : Text)
    → index + length ordered ≤ count
    → Short? (lookup k offsets)
    → Short? (lookup k (spread stagger_window count index ordered offsets))
unfolding spread
Short?-spread count index [] offsets k fits h = h
Short?-spread count index (j ∷ ordered) offsets k fits h =
    let s = offset_at stagger_window count index in
    Short?-spread count (suc index) ordered (insert j s offsets) k (omega (arith, fits)) (
      rw (lookup-insert k j s offsets)
        (elim (Bool-cases (k == j)) [ inl e ↦ rw (e) (omega (arith, fits)) | inr n ↦ rw (n) h ]))

has-spread :
    (window count index : ℕ) (ordered : List Text) (offsets : Dict Text Seconds) (k : Text)
    → has k (spread window count index ordered offsets) ≡ (contains ordered k || has k offsets)
unfolding spread
has-spread window count index [] offsets k = refl
has-spread window count index (j ∷ ordered) offsets k =
    let s = offset_at window count index in
    ground (
      arith,
      has-spread window count (suc index) ordered (insert j s offsets) k,
      lookup-insert k j s offsets,
    )

-- A call comes at or after the start, and before the window that begins there is over.
abbrev pub InBurst : Seconds × Coordinator → Type 0
InBurst (s, c) = (2 * s.under ≤ s.over) × (s.over < 14 * s.under)

abbrev pub seconds_of {ℓ κ} : {A : Type ℓ} {B : Type κ} → List (A × B) → List B
seconds_of [] = []
seconds_of ((a, b) ∷ ps) = b ∷ seconds_of ps

abbrev Timed : Option (List (Seconds × Coordinator)) → List (Text × Coordinator) → Type 0
Timed none cs = ⊥
Timed (some calls) cs = (seconds_of calls ≡ seconds_of cs) × All InBurst calls

Timed-schedule :
    (offsets : Dict Text Seconds) (cs : List (Text × Coordinator))
    → All (λ k. has k offsets ≡ true) (first_keys cs)
    → ((k : Text) → Short? (lookup k offsets))
    → Timed (schedule offsets cs) cs
unfolding schedule
Timed-schedule offsets [] known short = (refl, tt)
Timed-schedule offsets ((key, c) ∷ cs) known short =
    ground (arith, Timed-schedule offsets cs known.1 short, short key, known.0)

length-seconds_of {ℓ κ} :
    {A : Type ℓ} {B : Type κ} (ps : List (A × B)) → length (seconds_of ps) ≡ length ps
length-seconds_of [] = refl
length-seconds_of ((a, b) ∷ ps) = ap suc (length-seconds_of ps)

All-known :
    (offsets : Dict Text Seconds) (keys : List Text)
    → ((k : Text) → contains keys k ≡ true → has k offsets ≡ true)
    → All (λ k. has k offsets ≡ true) keys
All-known offsets [] known = tt
All-known offsets (j ∷ keys) known =
    (known j (ground arith), All-known offsets keys (λ k c. known k (ground (arith, c))))

Timed-candidates :
    (cs : List (Text × Coordinator))
    → Timed (schedule (stagger_offsets (first_keys cs) stagger_window) cs) cs
unfolding stagger_offsets
Timed-candidates cs =
    let keys = first_keys cs in
    let ordered = sort_by text_leb keys in
    Timed-schedule (stagger_offsets keys stagger_window) cs
      (All-known (stagger_offsets keys stagger_window) keys (λ k c.
        has-spread stagger_window (length ordered) 0 ordered [] k
        ∙ ground (arith, contains-sort_by text_leb keys k, c)))
      (λ k. Short?-spread (length ordered) 0 ordered [] k (omega arith) tt)

calls_of :
    (o : Option (List (Seconds × Coordinator))) (cs : List (Text × Coordinator))
    → Timed o cs
    → (calls : List (Seconds × Coordinator)) × (o ≡ some calls)
      × (seconds_of calls ≡ seconds_of cs)
      × All InBurst calls
calls_of none cs h = ground arith
calls_of (some calls) cs h = (calls, refl, h.0, h.1)

length_of_calls :
    (calls : List (Seconds × Coordinator)) (cs : List (Text × Coordinator))
    → seconds_of calls ≡ seconds_of cs
    → length cs ≡ length calls
length_of_calls calls cs same =
    sym (length-seconds_of cs) ∙ (ap length (sym same) ∙ length-seconds_of calls)

-- Every coordinator that takes part is called exactly once and in order, if there are two or more, no call
-- fails on a missing offset, and each comes two to fourteen seconds after setup; the number of calls is
-- returned.
pub async_stagger_polling-InBurst :
    (coordinators : Dict Text Slot) (skip : List Text)
    → let cs = candidates_of skip (flatten coordinators) in
      (calls : List (Seconds × Coordinator)) × (async_stagger_polling coordinators skip
        ≡ some (calls, length calls))
      × (seconds_of calls ≡ (if ltb (length cs) 2 then [] else seconds_of cs))
      × All InBurst calls
unfolding async_stagger_polling
async_stagger_polling-InBurst coordinators skip =
    let cs = candidates_of skip (flatten coordinators) in
    elim (Bool-cases (ltb (length cs) 2)) [
      | inl few ↦ ([], rw (few) refl, rw (few) refl, tt)
      | inr enough ↦
          let (calls, made, same, burst) =
            calls_of (schedule (stagger_offsets (first_keys cs) stagger_window) cs) cs
              (Timed-candidates cs) in
          (
            calls,
            rw (enough, made) (ap (λ n. some (calls, n)) (length_of_calls calls cs same)),
            rw (enough) same,
            burst,
          )
    ]
