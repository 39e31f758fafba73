-- ===== src/Coordinators/Tests.antt =====
-- Updates against an API that refuses everything, and the theorems there.
use proxmoxve_integration.Prelude.{ℕ, ◌+◌, refl, [], Option, none, some}
use proxmoxve_integration.Prelude.Float.{Float}
use proxmoxve_integration.Prelude.Int.{ℤ, pos}
use proxmoxve_integration.Prelude.Text.{Text, text}
use proxmoxve_integration.Json.{Value}
use proxmoxve_integration.Api.{api_error, Reply, failed}
use proxmoxve_integration.Issues.Registry.{Issue, IssueRegistry, dict_registry}
use proxmoxve_integration.Issues.{ConfigEntry}
use proxmoxve_integration.Poll.{State}
use proxmoxve_integration.Coordinators.{
  certificate_read, subscription_read, replication_read, finished_read, ceph_read, backup_info_read,
  ha_status_read, update_certificate, update_subscription, update_replication, update_backup,
  update_ceph, update_backup_info, update_ha_status,
}
use proxmoxve_integration.Coordinators.Unread.{IsRefused, updates-IsRefused}

abbrev registry : IssueRegistry
registry = dict_registry Issue

abbrev entry : ConfigEntry
entry = record {
  entry_id = text "e";
  username = text "u";
  host = text "h";
  port = text "8006";
  ha_admin_username = none;
}

abbrev plain : Value → Text
plain v = []

abbrev a_time : Value → Option ℤ
a_time v = some (pos 0)

abbrev float_time : Float → Option ℤ
float_time v = some (pos 0)

abbrev ha_time : Value → Option ℕ
ha_time v = some 0

abbrev ask : ℕ → Text → Reply Value × ℕ
ask n path = (failed (api_error 403 (text "no")), n + 1)

abbrev start : State registry ℕ ask
start = record { hass = record { lists = []; registry = [] }; world = 0; nodes_off = [] }

updates-IsRefused_example :
    IsRefused plain a_time float_time ha_time registry ℕ ask entry
      (certificate_read (text "a"))
      (text "Certificate information for a is not available")
      (update_certificate plain a_time float_time ha_time registry ℕ ask entry (text "a") start)
    × IsRefused plain a_time float_time ha_time registry ℕ ask entry
        (subscription_read (text "a"))
        (text "Subscription information for a is not available")
        (update_subscription plain a_time float_time ha_time registry ℕ ask entry (text "a") start)
    × IsRefused plain a_time float_time ha_time registry ℕ ask entry
        (replication_read (text "a"))
        (text "Replication status for a is not available")
        (update_replication plain a_time float_time ha_time registry ℕ ask entry (text "a") start)
    × IsRefused plain a_time float_time ha_time registry ℕ ask entry
        (finished_read (text "a"))
        (text "Backup history for a is not available")
        (update_backup plain a_time float_time ha_time registry ℕ ask entry (text "a") start)
    × IsRefused plain a_time float_time ha_time registry ℕ ask entry ceph_read
        (text "Ceph status is not available")
        (update_ceph plain a_time float_time ha_time registry ℕ ask entry start)
    × IsRefused plain a_time float_time ha_time registry ℕ ask entry backup_info_read
        (text "Backup coverage is not available")
        (update_backup_info plain a_time float_time ha_time registry ℕ ask entry start)
    × IsRefused plain a_time float_time ha_time registry ℕ ask entry ha_status_read
        (text "Cluster HA status is not available")
        (update_ha_status plain a_time float_time ha_time registry ℕ ask entry 5 start)
updates-IsRefused_example =
    updates-IsRefused plain a_time float_time ha_time registry ℕ ask entry (text "no") (λ w p. refl)
      (text "a") 5 start refl
