-- ===== src/Health/States.antt =====
-- The states that are reported are among those offered, and which certificate is shown.
use mathlib.Core.Path.{subst}
use proxmoxve_integration.Prelude.{
  ◌≡◌, refl, ap, ◌∙◌, List, [], ◌∷◌, Bool, true, false, Option, none, some, ◌==◌, if◌then◌else◌,
  list_eq, nat_eq, contains, arith, Bool-cases, inl, inr, ℕ_discrete,
}
use proxmoxve_integration.Prelude.Dict.{Dict, lookup, lookup-insert}
use proxmoxve_integration.Prelude.Float.{Float}
use proxmoxve_integration.Prelude.Int.{ℤ}
use proxmoxve_integration.Prelude.Text.{Text, text}
use proxmoxve_integration.Json.{
  Value, null, bool, int, float, str, arr, obj, Fields, nil, get, text?, dicts, hashable,
  dict_or_empty,
}
use proxmoxve_integration.Health.{
  certificate_preference, put_named, by_filename, chosen_of, certificate_timestamp,
  parse_certificates, subscription_states, state_in, ProxmoxSubscriptionData, parse_subscription,
  ProxmoxCephData, parse_ceph, positive_or_undefined, is_above_zero, mapped, ceph_health_states,
}

abbrev pub AmongStates : List Text → Option Text → Type 0
AmongStates states none = Unit
AmongStates states (some s) = contains states s ≡ true

-- No figure, or a number above zero.
abbrev pub IsPositive : Option Value → Type 0
IsPositive (some (int n)) = is_above_zero n ≡ true
IsPositive (some (float m k)) = is_above_zero m ≡ true
IsPositive (some _) = ⊥
IsPositive none = Unit

state_in-AmongStates : (states : List Text) (v : Value) → AmongStates states (state_in states v)
state_in-AmongStates states null = tt
state_in-AmongStates states (bool b) = tt
state_in-AmongStates states (int n) = tt
state_in-AmongStates states (float m k) = tt
state_in-AmongStates states (str s) = ground arith
state_in-AmongStates states (arr vs) = tt
state_in-AmongStates states (obj fs) = tt

positive_or_undefined-IsPositive : (v : Value) → IsPositive (positive_or_undefined v)
unfolding positive_or_undefined
positive_or_undefined-IsPositive null = tt
positive_or_undefined-IsPositive (bool b) = tt
positive_or_undefined-IsPositive (int n) = ground arith
positive_or_undefined-IsPositive (float m k) = ground arith
positive_or_undefined-IsPositive (str s) = tt
positive_or_undefined-IsPositive (arr vs) = tt
positive_or_undefined-IsPositive (obj fs) = tt

abbrev pub ceph_states : List Text
ceph_states = text "ok" ∷ text "warning" ∷ text "error" ∷ []

AmongStates-if :
    (states : List Text) (b : Bool) (o p : Option Text)
    → AmongStates states o
    → AmongStates states p
    → AmongStates states (if b then o else p)
AmongStates-if states true o p h k = h
AmongStates-if states false o p h k = k

mapped-AmongStates : (v : Value) → AmongStates ceph_states (mapped ceph_health_states v)
unfolding ℕ_discrete list_eq
mapped-AmongStates null = tt
mapped-AmongStates (bool b) = tt
mapped-AmongStates (int n) = tt
mapped-AmongStates (float m k) = tt
mapped-AmongStates (str s) =
    AmongStates-if ceph_states (s == text "HEALTH_OK") (some (text "ok")) _ refl (
      AmongStates-if ceph_states (s == text "HEALTH_WARN") (some (text "warning")) _ refl
        (AmongStates-if ceph_states (s == text "HEALTH_ERR") (some (text "error")) none refl tt))
mapped-AmongStates (arr vs) = tt
mapped-AmongStates (obj fs) = tt

abbrev Offered : Option ProxmoxSubscriptionData → Type 0
Offered none = Unit
Offered (some d) = AmongStates subscription_states d.status

Offered-parse_subscription : (fs : Fields) (node : Text) → Offered (parse_subscription fs node)
unfolding parse_subscription
Offered-parse_subscription fs node = elim (Bool-cases (hashable (get (text "status") fs))) [
  | inl h ↦ rw (h) (state_in-AmongStates subscription_states (get (text "status") fs))
  | inr h ↦ rw (h) tt
]

abbrev Plausible : Option ProxmoxCephData → Type 0
Plausible none = Unit
Plausible (some c) =
    AmongStates ceph_states c.health × IsPositive c.bytes_used × IsPositive c.bytes_total

Plausible-parse_ceph : (fs : Fields) → Plausible (parse_ceph fs)
unfolding parse_ceph
Plausible-parse_ceph fs =
    let pgmap = dict_or_empty (get (text "pgmap") fs) in
    let raw = get (text "status") (dict_or_empty (get (text "health") fs)) in
    elim (Bool-cases (hashable raw)) [
      | inl h ↦ rw (h) (
        mapped-AmongStates raw,
        positive_or_undefined-IsPositive (get (text "bytes_used") pgmap),
        positive_or_undefined-IsPositive (get (text "bytes_total") pgmap),
      )
      | inr h ↦ rw (h) tt
    ]

-- Whatever the API answers, a subscription's status and a Ceph cluster's health are among the states that
-- their sensors offer, or unknown, and what is said of Ceph's usage is a number above zero.
pub parse_subscription-AmongStates :
    (fs gs : Fields) (node : Text) (d : ProxmoxSubscriptionData) (c : ProxmoxCephData)
    → parse_subscription fs node ≡ some d
    → parse_ceph gs ≡ some c
    → AmongStates subscription_states d.status
      × AmongStates ceph_states c.health
      × IsPositive c.bytes_used
      × IsPositive c.bytes_total
parse_subscription-AmongStates fs gs node d c p q =
    let plausible = subst Plausible q (Plausible-parse_ceph gs) in
    (subst Offered p (Offered-parse_subscription fs node), plausible.0, plausible.1, plausible.2)

abbrev pub is_name : Text → Option Text → Bool
is_name name none = false
is_name name (some n) = name == n

abbrev pub is_named : Text → Fields → Bool
is_named name fs = is_name name (text? (get (text "filename") fs))

-- The last row of a certificate file.
abbrev pub last_named : Text → List Fields → Option Fields
last_named name [] = none
last_named name (fs ∷ rows) =
    let rest = last_named name rows in
    elim rest [ none ↦ if is_named name fs then some fs else none | some gs ↦ some gs ]

lookup-put_named :
    (name : Text) (o : Option Text) (fs : Fields) (files : Dict Text Fields)
    → lookup name (put_named o fs files) ≡ (if is_name name o then some fs else lookup name files)
lookup-put_named name none fs files = refl
lookup-put_named name (some n) fs files = lookup-insert name n fs files

lookup-by_filename :
    (name : Text) (rows : List Fields) (files : Dict Text Fields)
    → lookup name (by_filename rows files)
      ≡ elim (last_named name rows) [ none ↦ lookup name files | some fs ↦ some fs ]
lookup-by_filename name [] files = refl
lookup-by_filename name (fs ∷ rows) files =
    let o = text? (get (text "filename") fs) in
    lookup-by_filename name rows (put_named o fs files)
    ∙ ground (arith, lookup-put_named name o fs files)

-- The certificate that serves the API, as the rows show it.
abbrev pub served : List Fields → Fields
served rows = elim (last_named (text "pveproxy-ssl.pem") rows) [
  | none ↦ elim (last_named (text "pve-ssl.pem") rows) [ none ↦ nil | some fs ↦ fs ]
  | some fs ↦ fs
]

chosen_of-served :
    (rows : List Fields) → chosen_of certificate_preference (by_filename rows []) ≡ served rows
chosen_of-served rows = ground (
  arith,
  lookup-by_filename (text "pveproxy-ssl.pem") rows [],
  lookup-by_filename (text "pve-ssl.pem") rows [],
)

-- What is shown of a node's certificates is the last row of the replaced certificate, if there is one, and
-- otherwise that of the node's own; the expiry is that row's, or unknown.
pub parse_certificates-served :
    (utc : Float → Option ℤ) (entries : List Value) (node : Text)
    → let c = parse_certificates utc entries node in
      let fs = served (dicts entries) in
      (c.filename ≡ get (text "filename") fs)
      × (c.subject ≡ get (text "subject") fs)
      × (c.issuer ≡ get (text "issuer") fs)
      × (c.expires ≡ certificate_timestamp utc (get (text "notafter") fs))
unfolding parse_certificates
parse_certificates-served utc entries node =
    let same = chosen_of-served (dicts entries) in
    (
      ap (get (text "filename")) same,
      ap (get (text "subject")) same,
      ap (get (text "issuer")) same,
      ap (λ fs. certificate_timestamp utc (get (text "notafter") fs)) same,
    )
