-- ===== src/Sensors/Tests.antt =====
-- Polls of a node whose readings come and go, and the theorem there.
use proxmoxve_integration.Prelude.{◌≡◌, refl, [], ◌∷◌, arith}
use proxmoxve_integration.Prelude.Text.{text}
use proxmoxve_integration.Json.{str}
use proxmoxve_integration.Prelude.Float.{finite}
use proxmoxve_integration.Prelude.Int.{pos}
use proxmoxve_integration.Sensors.{
  Readings, no_readings, Poll, Held, nothing_held, hold_empty, hold_last_sensors, fresh, polled,
}
use proxmoxve_integration.Sensors.Laws.{report, hold_last_sensors-report}

opened : Unit {0}
unfolding hold_empty hold_last_sensors
opened = tt

abbrev warm : Readings
warm = record { sensors = (text "cpu", finite (pos 40) 1) ∷ []; sensors_raw = str (text "raw") }

abbrev first : Poll
first = record { at = 1000; readings = warm }

abbrev cold : Poll
cold = record { at = 61000; readings = no_readings }

abbrev held : Held
held = (hold_last_sensors first nothing_held).1

hold_last_sensors-report_example : (hold_last_sensors cold held).0 ≡ report cold (first ∷ [])
hold_last_sensors-report_example =
    hold_last_sensors-report cold (first ∷ []) held (polled first fresh) (omega arith, tt)

runs :
    ((hold_last_sensors cold held).0 ≡ warm)
    × ((hold_last_sensors (record { at = 601000; readings = no_readings }) held).0 ≡ warm)
    × (hold_last_sensors (record { at = 601001; readings = no_readings }) held
        ≡ (no_readings, nothing_held))
unfolding opened
runs = (refl, refl, refl)
