-- ===== src/HaStatus/Entries.antt =====
-- Which entries of the HA status count, and which states are offered.
use proxmoxve_integration.Prelude.{
  ℕ, suc, ◌+◌, ◌≡◌, refl, List, [], ◌∷◌, Bool, true, false, Option, none, some, ◌==◌, ◌&&◌,
  contains, if◌then◌else◌, list_eq, nat_eq, ℕ_discrete, arith, length,
}
use proxmoxve_integration.Prelude.Text.{Text, text}
use proxmoxve_integration.Json.{Value, null, bool, int, float, str, arr, obj, Fields, get, is_text}
use proxmoxve_integration.HaStatus.{
  ha_armed_states, ha_resource_modes, ha_service_error_states, text_in, HaStatus,
}

abbrev pub is_service : Fields → Bool
is_service fs = is_text (text "service") (get (text "type") fs)

abbrev pub is_error_text : Value → Bool
is_error_text (str s) = contains ha_service_error_states s
is_error_text _ = false

-- An entry of a service whose state is an incident.
abbrev pub is_incident : Fields → Bool
is_incident fs = is_service fs && is_error_text (get (text "crm_state") fs)

abbrev pub count_entries : (Fields → Bool) → List Value → ℕ
count_entries p [] = 0
count_entries p (v ∷ vs) =
    let rest = count_entries p vs in elim v [ obj fs ↦ if p fs then suc rest else rest | _ ↦ rest ]

abbrev pub one_if : Bool → ℕ
one_if true = 1
one_if false = 0

abbrev pub IsAllowed : List Text → Option Text → Type 0
IsAllowed allowed none = Unit
IsAllowed allowed (some t) = contains allowed t ≡ true

abbrev pub IsKnown : HaStatus → Type 0
IsKnown h = IsAllowed ha_armed_states h.armed_state × IsAllowed ha_resource_modes h.resource_mode

pub is_text_other :
    (a b : Text) (v : Value) → (a == b) ≡ false → is_text a v ≡ true → is_text b v ≡ false
is_text_other a b (str s) apart h = ground (arith, apart, h)
is_text_other a b null apart h = refl
is_text_other a b (bool c) apart h = refl
is_text_other a b (int n) apart h = refl
is_text_other a b (float m e) apart h = refl
is_text_other a b (arr vs) apart h = refl
is_text_other a b (obj fs) apart h = refl

-- No entry is of two types.
pub types_apart :
    ((text "quorum" == text "service") ≡ false)
    × ((text "master" == text "service") ≡ false)
    × ((text "fencing" == text "service") ≡ false)
unfolding list_eq ℕ_discrete
types_apart = (refl, refl, refl)

pub text_in-IsAllowed :
    (allowed : List Text) (v : Value) (o : Option Text)
    → text_in allowed v ≡ some o
    → IsAllowed allowed o
text_in-IsAllowed allowed v none h = tt
text_in-IsAllowed allowed v (some t) h = ground (arith, h)

-- What an entry does to the counts and to the states.
abbrev pub Counts : Fields → HaStatus → HaStatus → Type 0
Counts fs h k =
    (k.resources_total ≡ h.resources_total + one_if (is_service fs))
    × (length k.resources_error ≡ length h.resources_error + one_if (is_incident fs))

abbrev pub SameCounts : HaStatus → HaStatus → Type 0
SameCounts h k = (k.resources_total ≡ h.resources_total) × (k.resources_error ≡ h.resources_error)

abbrev pub SameStates : HaStatus → HaStatus → Type 0
SameStates h k = (k.armed_state ≡ h.armed_state) × (k.resource_mode ≡ h.resource_mode)
