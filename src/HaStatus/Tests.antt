-- ===== src/HaStatus/Tests.antt =====
-- The HA status of a cluster with two services, and the theorem there.
use proxmoxve_integration.Prelude.{
  ℕ, ◌≡◌, refl, [], ◌∷◌, true, Option, some, none, list_eq, nat_eq, ℕ_discrete,
}
use proxmoxve_integration.Prelude.Int.{pos}
use proxmoxve_integration.Prelude.Text.{Text, text}
use proxmoxve_integration.Json.{Value, Values, null, str, int, arr, obj, item, end, field, nil}
use proxmoxve_integration.HaStatus.{HaStatus, note_entry, note_entries, parse_ha_status}

opened : Unit {0}
unfolding note_entry note_entries parse_ha_status list_eq ℕ_discrete
opened = tt

abbrev plain : Value → Text
plain v = []

abbrev time_of : Value → Option ℕ
time_of v = some 1000

abbrev service : Text → Text → Value
service sid state = obj (
    field (text "type") (str (text "service"))
      (field (text "sid") (str sid) (field (text "crm_state") (str state) nil)))

abbrev entries : Values
entries = item (service (text "vm:1") (text "started")) (
    item null (
      item (service (text "vm:2") (text "fence")) (
        item
          (obj (
            field (text "type") (str (text "fencing"))
              (field (text "armed-state") (str (text "armed")) nil)))
          (item
            (obj (
              field (text "type") (str (text "master"))
                (field (text "timestamp") (int (pos 1)) nil)))
            end))))

abbrev status : HaStatus
status = record {
  armed_state = some (text "armed");
  resource_mode = none;
  quorate = none;
  crm_master = none;
  crm_master_last_seen = some 1000;
  crm_master_stale = some true;
  resources_total = 2;
  resources_error = record { sid = text "vm:2"; node = []; crm_state = text "fence" } ∷ [];
}

parsed : parse_ha_status plain time_of 31001 entries ≡ some status
unfolding opened
parsed = refl

raises :
    parse_ha_status plain time_of 0 (
      item
        (obj (field (text "type") (str (text "service")) (field (text "crm_state") (arr end) nil)))
        end)
    ≡ none
unfolding opened
raises = refl
