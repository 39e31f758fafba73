-- ===== src/Health/Tests.antt =====
-- A node with a replaced certificate, a subscription, and three replication jobs, and the theorems there.
use proxmoxve_integration.Prelude.{
  ℕ, ◌≡◌, refl, List, [], ◌∷◌, false, Option, none, some, ◌&&◌, list_eq, nat_eq, ℕ_discrete, any,
  option_eq,
}
use proxmoxve_integration.Prelude.Float.{Float, finite, parse_float}
use proxmoxve_integration.Prelude.Int.{ℤ, pos, int_eq}
use proxmoxve_integration.Prelude.Text.{Text, text, strip_by, partition, count_char}
use proxmoxve_integration.Json.{Value, bool, int, str, obj, Fields, field, nil, get, dicts}
use proxmoxve_integration.Health.{
  ProxmoxSubscriptionData, ProxmoxCephData, subscription_states, is_failing, certificate_timestamp,
  parse_certificates, parse_subscription, parse_ceph, positive_or_undefined, parse_replication,
}
use proxmoxve_integration.Health.States.{
  AmongStates, IsPositive, ceph_states, served, parse_subscription-AmongStates,
  parse_certificates-served,
}
use proxmoxve_integration.Health.Replicas.{is_active_job, parse_replication-IsOldest, IsOldest}

opened : Unit {0}
unfolding parse_certificates certificate_timestamp parse_subscription parse_ceph
    positive_or_undefined parse_replication parse_float strip_by partition count_char list_eq
    ℕ_discrete
opened = tt

abbrev plain : Value → Text
plain v = []

abbrev seconds : Float → Option ℤ
seconds (finite n d) = some n
seconds x = none

abbrev entry : Text → Text → ℕ → Value
entry file subject expires = obj (
    field (text "filename") (str file)
      (field (text "subject") (str subject) (field (text "notafter") (int (pos expires)) nil)))

abbrev certificates : List Value
certificates =
    entry (text "pve-ssl.pem") (text "own") 5
    ∷ entry (text "pveproxy-ssl.pem") (text "acme") 7
    ∷ entry (text "pve-root-ca.pem") (text "ca") 9
    ∷ []

parse_certificates-served_example :
    let c = parse_certificates seconds certificates (text "a") in
    let fs = served (dicts certificates) in
    (c.filename ≡ get (text "filename") fs)
    × (c.subject ≡ get (text "subject") fs)
    × (c.issuer ≡ get (text "issuer") fs)
    × (c.expires ≡ certificate_timestamp seconds (get (text "notafter") fs))
parse_certificates-served_example = parse_certificates-served seconds certificates (text "a")

abbrev subscription : Fields
subscription =
    field (text "status") (str (text "active")) (field (text "level") (str (text "c")) nil)

abbrev ceph : Fields
ceph =
    field (text "health") (obj (field (text "status") (str (text "HEALTH_WARN")) nil))
      (field (text "pgmap") (obj (field (text "bytes_used") (int (pos 5)) nil)) nil)

abbrev known_subscription : ProxmoxSubscriptionData
known_subscription = record {
  node = text "a";
  status = some (text "active");
  level = str (text "c");
  product = Value.null;
  next_due = Value.null;
}

abbrev known_ceph : ProxmoxCephData
known_ceph = record {
  health = some (text "warning");
  checks = [];
  bytes_used = some (int (pos 5));
  bytes_total = none;
}

reads :
    (parse_subscription subscription (text "a") ≡ some known_subscription)
    × (parse_ceph ceph ≡ some known_ceph)
unfolding opened
reads = (refl, refl)

parse_subscription-AmongStates_example :
    AmongStates subscription_states known_subscription.status
    × AmongStates ceph_states known_ceph.health
    × IsPositive known_ceph.bytes_used
    × IsPositive known_ceph.bytes_total
parse_subscription-AmongStates_example =
    parse_subscription-AmongStates subscription ceph (text "a") known_subscription known_ceph
      reads.0 reads.1

abbrev job : Text → Value → ℕ → Value
job id off synced = obj (
    field (text "id") (str id) (
      field (text "disable") off (
        field (text "last_sync") (int (pos synced)) (field (text "fail_count") (int (pos 2)) nil))))

abbrev jobs : List Value
jobs =
    job (text "1-0") (int (pos 0)) 30
    ∷ job (text "2-0") (int (pos 1)) 10
    ∷ job (text "3-0") (bool false) 20
    ∷ []

oldest_is : (parse_replication plain seconds jobs (text "a")).oldest_sync ≡ some (pos 20)
unfolding opened
oldest_is = refl

parse_replication-IsOldest_example :
    let told = parse_replication plain seconds jobs (text "a") in
    (told.failing ≡ any (λ fs. is_active_job fs && is_failing fs) (dicts jobs))
    × IsOldest seconds told.oldest_sync (dicts jobs)
parse_replication-IsOldest_example = parse_replication-IsOldest plain seconds jobs (text "a")

reads_floats :
    (parse_float (text " 1_0.50 ") ≡ some (finite (pos 1050) 100))
    × (parse_float (text "-2e3") ≡ some (finite (ℤ.negsuc 1999) 1))
    × (parse_float (text "1e-2") ≡ some (finite (pos 1) 100))
    × (parse_float (text "1_") ≡ none)
    × (parse_float (text ".") ≡ none)
unfolding opened
reads_floats = (refl, refl, refl, refl, refl)
