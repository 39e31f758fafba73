-- ===== src/Coordinators/Unread.antt =====
-- What the updates of the coordinators do with a read that is refused.
use proxmoxve_integration.Prelude.{
  ℕ, ◌≡◌, refl, ap, ◌∙◌, ◌==◌, if◌then◌else◌, [], ◌++◌, true, Option, some, list_eq, nat_eq,
  ℕ_discrete, arith,
}
use proxmoxve_integration.Prelude.Dict.{lookup}
use proxmoxve_integration.Prelude.Float.{Float}
use proxmoxve_integration.Prelude.Int.{ℤ}
use proxmoxve_integration.Prelude.Text.{Text, text}
use proxmoxve_integration.Json.{Value, null}
use proxmoxve_integration.Api.{api_error, Reply, failed}
use proxmoxve_integration.Issues.Registry.{IssueRegistry}
use proxmoxve_integration.Issues.{forbidden, ConfigEntry, ResourceLine}
use proxmoxve_integration.Issues.Lines.{lines_at}
use proxmoxve_integration.Const.{ProxmoxType, type_eq, ProxmoxType-discrete}
use proxmoxve_integration.Poll.Needs.{audited, check_on, written, written_or_unmapped, needed}
use proxmoxve_integration.Poll.{Read, State, read_api, resource_key, resource_label, node_of_path}
use proxmoxve_integration.Poll.Repairs.{poll_api_refused}
use proxmoxve_integration.Coordinators.Monad.{
  Result, done, unavailable, Action, answer_of, ◌>>=◌, fail,
}
use proxmoxve_integration.Coordinators.{
  poll, certificate_read, update_certificate, subscription_read, update_subscription,
  replication_read, update_replication, ceph_read, update_ceph, backup_info_read,
  update_backup_info, finished_read, update_backup, ha_status_read, update_ha_status,
}

module _ (repr : Value → Text) (utc : Value → Option ℤ) (utc_float : Float → Option ℤ)
    (to_time : Value → Option ℕ) (R : IssueRegistry) (W : Type 0)
    (request : W → Text → Reply Value × W) (entry : ConfigEntry) where
  -- The path of the permission tree that a read is audited on: of the cluster the root, of a node by what is
  -- read of it.
  abbrev pub audit_path : Read → Text
  audit_path read =
      if read.api_category == ProxmoxType.proxmox
      then text "/"
      else audited read.api_path
          (node_of_path read.api_path (some (resource_label read.resource_id)))

  -- Its resource is listed with the privilege to audit.
  abbrev pub IsListed : Read → State R W request → Type 0
  IsListed read s =
      (line : ResourceLine) × (lookup (resource_key read.api_category read.resource_id)
          (lines_at R entry.entry_id forbidden s.hass)
        ≡ some line)
      × (line.permission ≡ written (check_on (audit_path read) (text "Sys.Audit")))

  -- An update that failed with a message, and whose read is listed.
  abbrev pub IsRefused : {A : Type 0} → Read → Text → Result A × State R W request → Type 0
  IsRefused read message after = (after.0 ≡ unavailable message) × IsListed read after.1

  -- A read whose privilege is the one to audit.
  abbrev IsAudit : Read → Type 0
  IsAudit read =
      written_or_unmapped (needed read.api_path read.api_category (resource_label read.resource_id))
      ≡ written (check_on (audit_path read) (text "Sys.Audit"))

  module _ (m : Text)
      (refuses : (w : W) (path : Text) → (request w path).0 ≡ failed (api_error 403 m)) where
    poll_refused :
        (read : Read) (s : State R W request)
        → s.nodes_off ≡ []
        → read.issue_create_permissions ≡ true
        → IsAudit read
        → let after = poll repr utc utc_float to_time R W request entry read s in
          (after.0 ≡ done null) × IsListed read after.1
    unfolding poll read_api ℕ_discrete
    poll_refused read s none_off wanted audit =
        let (nothing, line, there, shown) =
          poll_api_refused R W request entry read s m (rw (none_off) (ground arith)) wanted
            (rw (refuses s.world read.api_path) refl) in
        (ap answer_of nothing, (line, there, shown ∙ audit))

    IsRefused-bind :
        {A : Type 0} (read : Read) (message : Text) (f : Value → Action (State R W request) A)
        (s : State R W request)
        → s.nodes_off ≡ []
        → read.issue_create_permissions ≡ true
        → IsAudit read
        → f null ≡ fail message
        → IsRefused read message ((poll repr utc utc_float to_time R W request entry read >>= f) s)
    IsRefused-bind read message f s none_off wanted audit fails =
        let (nothing, listed) = poll_refused read s none_off wanted audit in
        rw (nothing, fails) (refl, listed)

    -- Where the API refuses every read with a 403 and no node is known to be off, none of these updates makes
    -- up data: the certificate, subscription, replication, backup, Ceph, backup coverage and HA status
    -- coordinators each fail with their message, and the repair lists the resource with the privilege
    -- Sys.Audit, on the root where the cluster was read.
    pub updates-IsRefused :
        (node : Text) (now : ℕ) (s : State R W request)
        → s.nodes_off ≡ []
        → IsRefused
            (certificate_read node)
            (text "Certificate information for " ++ (node ++ text " is not available"))
            (update_certificate repr utc utc_float to_time R W request entry node s)
          × IsRefused
              (subscription_read node)
              (text "Subscription information for " ++ (node ++ text " is not available"))
              (update_subscription repr utc utc_float to_time R W request entry node s)
          × IsRefused
              (replication_read node)
              (text "Replication status for " ++ (node ++ text " is not available"))
              (update_replication repr utc utc_float to_time R W request entry node s)
          × IsRefused
              (finished_read node)
              (text "Backup history for " ++ (node ++ text " is not available"))
              (update_backup repr utc utc_float to_time R W request entry node s)
          × IsRefused ceph_read
              (text "Ceph status is not available")
              (update_ceph repr utc utc_float to_time R W request entry s)
          × IsRefused backup_info_read
              (text "Backup coverage is not available")
              (update_backup_info repr utc utc_float to_time R W request entry s)
          × IsRefused ha_status_read
              (text "Cluster HA status is not available")
              (update_ha_status repr utc utc_float to_time R W request entry now s)
    unfolding update_certificate update_subscription update_replication update_backup update_ceph
        update_backup_info update_ha_status type_eq ProxmoxType-discrete
    updates-IsRefused node now s none_off = (
      IsRefused-bind (certificate_read node) _ _ s none_off refl refl refl,
      IsRefused-bind (subscription_read node) _ _ s none_off refl refl refl,
      IsRefused-bind (replication_read node) _ _ s none_off refl refl refl,
      IsRefused-bind (finished_read node) _ _ s none_off refl refl refl,
      IsRefused-bind ceph_read _ _ s none_off refl refl refl,
      IsRefused-bind backup_info_read _ _ s none_off refl refl refl,
      IsRefused-bind ha_status_read _ _ s none_off refl refl refl,
    )
