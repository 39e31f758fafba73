-- ===== src/Health.antt =====
-- coordinator.py: what a node's certificates, subscription and replication and the cluster's Ceph status
-- come to. `utc` is `dt_util.utc_from_timestamp` of a float in microseconds since the epoch, which raises
-- out of its range.
pub mod States
pub mod Replicas
mod Tests
use proxmoxve_integration.Prelude.{
  ℕ, suc, List, [], ◌∷◌, Bool, true, false, not, Option, none, some, ◌==◌, ◌&&◌, if◌then◌else◌,
  list_eq, nat_eq, contains, is_empty, length,
}
use proxmoxve_integration.Prelude.Dict.{Dict, insert, lookup}
use proxmoxve_integration.Prelude.Float.{Float}
use proxmoxve_integration.Prelude.Int.{ℤ, pos, negsuc, int_leb}
use proxmoxve_integration.Prelude.Text.{Text, text}
use proxmoxve_integration.Json
use proxmoxve_integration.Json.{
  Value, null, bool, int, float, str, arr, obj, Fields, nil, field, find, get, text?, dicts,
  dict_or_empty, str_of, truthy, float_of, hashable, is_zero,
}

pub record ProxmoxCertificateData : Type 0 where
  pub node : Text
  pub expires : Option ℤ
  pub filename : Value
  pub subject : Value
  pub issuer : Value

abbrev pub certificate_preference : List Text
certificate_preference = text "pveproxy-ssl.pem" ∷ text "pve-ssl.pem" ∷ []

abbrev pub put_named : Option Text → Fields → Dict Text Fields → Dict Text Fields
put_named none fs files = files
put_named (some name) fs files = insert name fs files

abbrev pub by_filename : List Fields → Dict Text Fields → Dict Text Fields
by_filename [] files = files
by_filename (fs ∷ rows) files =
    by_filename rows (put_named (text? (get (text "filename") fs)) fs files)

abbrev pub chosen_of : List Text → Dict Text Fields → Fields
chosen_of [] files = nil
chosen_of (name ∷ names) files = elim (lookup name files) [
  | none ↦ chosen_of names files
  | some fs ↦ fs
]

abbrev pub or_none : Option Float → (Float → Option ℤ) → Option ℤ
or_none none utc = none
or_none (some x) utc = utc x

-- `_certificate_timestamp`: what raises is no time.
unfoldable pub certificate_timestamp : (Float → Option ℤ) → Value → Option ℤ
certificate_timestamp utc v = or_none (float_of v) utc

unfoldable pub parse_certificates : (Float → Option ℤ) → List Value → Text → ProxmoxCertificateData
unfolding certificate_timestamp
parse_certificates utc entries node =
    let chosen = chosen_of certificate_preference (by_filename (dicts entries) []) in
    record {
      node = node;
      expires = certificate_timestamp utc (get (text "notafter") chosen);
      filename = get (text "filename") chosen;
      subject = get (text "subject") chosen;
      issuer = get (text "issuer") chosen;
    }

pub record ProxmoxSubscriptionData : Type 0 where
  pub node : Text
  pub status : Option Text
  pub level : Value
  pub product : Value
  pub next_due : Value

abbrev pub subscription_states : List Text
subscription_states =
    text "new"
    ∷ text "notfound"
    ∷ text "active"
    ∷ text "invalid"
    ∷ text "expired"
    ∷ text "suspended"
    ∷ []

abbrev pub state_in : List Text → Value → Option Text
state_in states (str s) = if contains states s then some s else none
state_in states _ = none

-- `none` stands for the `TypeError` of a status that is a list or a dict.
unfoldable pub parse_subscription : Fields → Text → Option ProxmoxSubscriptionData
parse_subscription api_status node =
    let status = get (text "status") api_status in
    if hashable status
    then some (record {
      node = node;
      status = state_in subscription_states status;
      level = get (text "level") api_status;
      product = get (text "productname") api_status;
      next_due = get (text "nextduedate") api_status;
    })
    else none

abbrev pub ceph_health_states : Dict Text Text
ceph_health_states =
    (text "HEALTH_OK", text "ok")
    ∷ (text "HEALTH_WARN", text "warning")
    ∷ (text "HEALTH_ERR", text "error")
    ∷ []

pub record CephCheck : Type 0 where
  pub check : Text
  pub severity : Option Text
  pub message : Option Text

pub record ProxmoxCephData : Type 0 where
  pub health : Option Text
  pub checks : List CephCheck
  pub bytes_used : Option Value
  pub bytes_total : Option Value

abbrev pub is_above_zero : ℤ → Bool
is_above_zero (negsuc n) = false
is_above_zero (pos n) = not (is_zero (pos n))

-- `_positive_or_undefined`
unfoldable pub positive_or_undefined : Value → Option Value
positive_or_undefined (int n) = if is_above_zero n then some (int n) else none
positive_or_undefined (float m k) = if is_above_zero m then some (float m k) else none
positive_or_undefined _ = none

abbrev pub mapped : Dict Text Text → Value → Option Text
mapped states (str s) = lookup s states
mapped states _ = none

abbrev pub ceph_checks : Fields → List CephCheck
ceph_checks nil = []
ceph_checks (field name v fs) = elim (Json.fields? v) [
  | none ↦ ceph_checks fs
  | some check ↦
      record {
        check = name;
        severity = text? (get (text "severity") check);
        message = text? (get (text "message") (dict_or_empty (get (text "summary") check)));
      }
      ∷ ceph_checks fs
]

-- `none` stands for the `TypeError` of a status that is a list or a dict.
unfoldable pub parse_ceph : Fields → Option ProxmoxCephData
unfolding positive_or_undefined
parse_ceph api_status =
    let health = dict_or_empty (get (text "health") api_status) in
    let pgmap = dict_or_empty (get (text "pgmap") api_status) in
    let raw = get (text "status") health in
    if hashable raw
    then some (record {
      health = mapped ceph_health_states raw;
      checks = ceph_checks (dict_or_empty (get (text "checks") health));
      bytes_used = positive_or_undefined (get (text "bytes_used") pgmap);
      bytes_total = positive_or_undefined (get (text "bytes_total") pgmap);
    })
    else none

-- A replication job that fails; a number stays one, and all else is its text.
pub record FailingJob : Type 0 where
  pub id : Text
  pub failures : Value
  pub guest : Option Value
  pub guest_type : Option Value
  pub target : Option Value
  pub error : Option Text

pub record ProxmoxReplicationData : Type 0 where
  pub node : Text
  pub jobs : ℕ
  pub failing : Bool
  pub oldest_sync : Option ℤ
  pub failing_jobs : List FailingJob

abbrev pub is_int : Value → Bool
is_int (bool b) = true
is_int (int n) = true
is_int _ = false

abbrev pub is_number : Value → Bool
is_number (float m k) = true
is_number v = is_int v

abbrev pub kept : (Value → Text) → Value → Option Value
kept repr null = none
kept repr v = some (if is_int v then v else str (str_of repr v))

-- The rows that are jobs: dicts with an id.
abbrev pub job_rows : List Fields → List Fields
job_rows [] = []
job_rows (fs ∷ rows) = if Json.has (text "id") fs then fs ∷ job_rows rows else job_rows rows

abbrev pub active_jobs : List Fields → List Fields
active_jobs [] = []
active_jobs (fs ∷ rows) =
    if truthy (get (text "disable") fs) then active_jobs rows else fs ∷ active_jobs rows

abbrev pub is_failing : Fields → Bool
is_failing fs = let count = get (text "fail_count") fs in truthy count && is_int count

abbrev pub failing_job : (Value → Text) → Fields → FailingJob
failing_job repr fs = record {
  id = str_of repr (get (text "id") fs);
  failures = get (text "fail_count") fs;
  guest = kept repr (get (text "guest") fs);
  guest_type = kept repr (get (text "vmtype") fs);
  target = kept repr (get (text "target") fs);
  error = text? (get (text "error") fs);
}

abbrev pub failing_jobs : (Value → Text) → List Fields → List FailingJob
failing_jobs repr [] = []
failing_jobs repr (fs ∷ rows) =
    let rest = failing_jobs repr rows in if is_failing fs then failing_job repr fs ∷ rest else rest

-- The time of a job's last sync, where there is one that can be read.
abbrev pub sync_time : (Float → Option ℤ) → Fields → Option ℤ
sync_time utc fs =
    let last = get (text "last_sync") fs in
    if truthy last && is_number last then or_none (float_of last) utc else none

abbrev pub sync_times : (Float → Option ℤ) → List Fields → List ℤ
sync_times utc [] = []
sync_times utc (fs ∷ rows) =
    let rest = sync_times utc rows in elim (sync_time utc fs) [ none ↦ rest | some t ↦ t ∷ rest ]

-- `min`, of times that there are
abbrev pub least : ℤ → List ℤ → ℤ
least best [] = best
least best (t ∷ ts) = least (if int_leb best t then best else t) ts

abbrev pub oldest : List ℤ → Option ℤ
oldest [] = none
oldest (t ∷ ts) = some (least t ts)

unfoldable pub parse_replication :
    (Value → Text) → (Float → Option ℤ) → List Value → Text → ProxmoxReplicationData
parse_replication repr utc entries node =
    let all_jobs = job_rows (dicts entries) in
    let active = active_jobs all_jobs in
    let failing = failing_jobs repr active in
    record {
      node = node;
      jobs = length all_jobs;
      failing = not (is_empty failing);
      oldest_sync = oldest (sync_times utc active);
      failing_jobs = failing;
    }
