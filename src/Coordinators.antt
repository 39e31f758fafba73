-- ===== src/Coordinators.antt =====
-- coordinator.py: the updates of the coordinators that make a poll or two and read the answer.
pub mod Monad
pub mod Keeps
pub mod Unread
mod Tests
use proxmoxve_integration.Prelude.{
  ℕ, List, [], ◌∷◌, ◌++◌, Bool, true, false, not, Option, none, some, if◌then◌else◌,
}
use proxmoxve_integration.Prelude.Float.{Float}
use proxmoxve_integration.Prelude.Int.{ℤ}
use proxmoxve_integration.Prelude.Text.{Text, text}
use proxmoxve_integration.Json.{
  Value, null, arr, obj, Values, end, item, Fields, find, get, iterate, dicts, truthy, fields?,
  hashable,
}
use proxmoxve_integration.Const.{ProxmoxType}
use proxmoxve_integration.Api.{Reply}
use proxmoxve_integration.Issues.Registry.{IssueRegistry}
use proxmoxve_integration.Issues.{ConfigEntry}
use proxmoxve_integration.Poll.{Read, State, poll_api}
use proxmoxve_integration.Backups.{
  ProxmoxBackupData, ProxmoxBackupInfoData, parse_backup, parse_backup_info,
}
use proxmoxve_integration.HaStatus.{HaStatus, parse_ha_status}
use proxmoxve_integration.Health.{
  ProxmoxCertificateData, ProxmoxSubscriptionData, ProxmoxCephData, ProxmoxReplicationData,
  parse_certificates, parse_subscription, parse_ceph, parse_replication,
}
use Monad.{
  Result, done, unavailable, login_refused, crashed, Action, pure, fail, or_crash, answer_of, ◌>>=◌,
}

abbrev pub is_null : Value → Bool
is_null null = true
is_null v = false

abbrev pub read_for : Text → ProxmoxType → Text → Read
read_for path category id = record {
  api_path = path;
  api_category = category;
  resource_id = some id;
  issue_create_permissions = true;
}

abbrev pub node_path : Text → Text → Text
node_path node rest = text "nodes/" ++ (node ++ rest)

abbrev pub certificate_read : Text → Read
certificate_read node = read_for (node_path node (text "/certificates/info")) ProxmoxType.node node

abbrev pub subscription_read : Text → Read
subscription_read node = read_for (node_path node (text "/subscription")) ProxmoxType.node node

abbrev pub replication_read : Text → Read
replication_read node = read_for (node_path node (text "/replication")) ProxmoxType.node node

abbrev pub ceph_read : Read
ceph_read = read_for (text "cluster/ceph/status") ProxmoxType.proxmox (text "ceph")

abbrev pub backup_info_read : Read
backup_info_read =
    read_for (text "cluster/backup-info/not-backed-up") ProxmoxType.proxmox (text "backup_info")

abbrev pub finished_read : Text → Read
finished_read node =
    read_for (node_path node (text "/tasks?typefilter=vzdump&source=archive&limit=1"))
      ProxmoxType.tasks node

abbrev pub active_read : Text → Read
active_read node =
    read_for (node_path node (text "/tasks?typefilter=vzdump&source=active&limit=1"))
      ProxmoxType.tasks node

abbrev pub ha_resources_read : Read
ha_resources_read = read_for (text "cluster/ha/resources") ProxmoxType.proxmox (text "ha_resources")

abbrev pub ha_status_read : Read
ha_status_read = read_for (text "cluster/ha/status/current") ProxmoxType.proxmox (text "ha_status")

module _ (repr : Value → Text) (utc : Value → Option ℤ) (utc_float : Float → Option ℤ)
    (to_time : Value → Option ℕ) (R : IssueRegistry) (W : Type 0)
    (request : W → Text → Reply Value × W) (entry : ConfigEntry) where
  abbrev pub Update : Type 0 → Type 0
  Update A = Action (State R W request) A

  unfoldable pub poll : Read → Update Value
  poll read s =
      let (outcome, after) = poll_api R W request entry read s in (answer_of outcome, after)

  -- An answer that there must be.
  abbrev pub required : Text → Value → Update Value
  required message v = if is_null v then fail message else pure v

  abbrev pub required_dict : Text → Value → Update Fields
  required_dict message (obj fs) = pure fs
  required_dict message _ = fail message

  unfoldable pub update_certificate : Text → Update ProxmoxCertificateData
  update_certificate node = do
    api_status ← poll (certificate_read node)
    v ←
        required (text "Certificate information for " ++ (node ++ text " is not available"))
          api_status
    entries ← or_crash (iterate v)
    pure (parse_certificates utc_float entries node)

  unfoldable pub update_subscription : Text → Update ProxmoxSubscriptionData
  update_subscription node = do
    api_status ← poll (subscription_read node)
    fs ←
        required_dict (text "Subscription information for " ++ (node ++ text " is not available"))
          api_status
    or_crash (parse_subscription fs node)

  unfoldable pub update_replication : Text → Update ProxmoxReplicationData
  update_replication node = do
    api_status ← poll (replication_read node)
    v ← required (text "Replication status for " ++ (node ++ text " is not available")) api_status
    entries ← or_crash (iterate v)
    pure (parse_replication repr utc_float entries node)

  unfoldable pub update_ceph : Update ProxmoxCephData
  update_ceph = do
    api_status ← poll ceph_read
    fs ← required_dict (text "Ceph status is not available") api_status
    or_crash (parse_ceph fs)

  unfoldable pub update_backup_info : Update ProxmoxBackupInfoData
  update_backup_info = do
    api_status ← poll backup_info_read
    v ← required (text "Backup coverage is not available") api_status
    entries ← or_crash (iterate v)
    pure (parse_backup_info entries)

  -- The newest finished run, and then the one that may be running.
  unfoldable pub update_backup : Text → Update ProxmoxBackupData
  update_backup node = do
    api_status ← poll (finished_read node)
    v ← required (text "Backup history for " ++ (node ++ text " is not available")) api_status
    active ← poll (active_read node)
    entries ← or_crash (iterate v)
    or_crash (parse_backup repr utc entries node active)

  -- The sids of the rows that carry one; `none` for one that has no hash. What is a set in Python is
  -- the list of what it holds.
  abbrev pub sids : List Fields → Option (List Value)
  sids [] = some []
  sids (fs ∷ rows) =
      let rest = sids rows in
      elim (find (text "sid") fs) [
        | none ↦ rest
        | some sid ↦ elim rest [
          | none ↦ none
          | some found ↦ if hashable sid then some (sid ∷ found) else none
        ]
      ]

  unfoldable pub update_ha_resources : Update (List Value)
  update_ha_resources = do
    resources ← poll ha_resources_read
    rows ← or_crash (iterate (if truthy resources then resources else arr end))
    or_crash (sids (dicts rows))

  abbrev pub values_of : List Value → Values
  values_of [] = end
  values_of (v ∷ vs) = item v (values_of vs)

  -- `now` is the time in milliseconds.
  unfoldable pub update_ha_status : ℕ → Update HaStatus
  update_ha_status now = do
    api_status ← poll ha_status_read
    v ← required (text "Cluster HA status is not available") api_status
    entries ← or_crash (iterate v)
    or_crash (parse_ha_status repr to_time now (values_of entries))
