-- ===== src/Sensors.antt =====
-- coordinator.py: how the node coordinator keeps the previous hardware readings when a poll brings none.
-- Times are milliseconds.
pub mod Laws
mod Tests
use proxmoxve_integration.Prelude.{
  ℕ, ◌-◌, List, [], ◌∷◌, Bool, true, false, Option, none, some, if◌then◌else◌, leb, ltb, is_empty,
}
use proxmoxve_integration.Prelude.Dict.{Dict}
use proxmoxve_integration.Prelude.Float.{Float}
use proxmoxve_integration.Prelude.Text.{Text}
use proxmoxve_integration.Json.{Value, null}

-- `SENSORS_HOLD_FOR`
abbrev pub hold_for : ℕ
hold_for = 600000

-- The readings of a poll and their raw text.
pub record Readings : Type 0 where
  pub sensors : Dict Text Float
  pub sensors_raw : Value

pub record Poll : Type 0 where
  pub at : ℕ
  pub readings : Readings

-- `_last_sensors`, `_last_sensors_raw` and `_last_sensors_at`
pub record Held : Type 0 where
  pub last : Readings
  pub last_at : Option ℕ

abbrev pub no_readings : Readings
no_readings = record { sensors = []; sensors_raw = null }

abbrev pub nothing_held : Held
nothing_held = record { last = no_readings; last_at = none }

unfoldable pub hold_empty : ℕ → Readings → Held → Readings × Held
hold_empty now r h = elim h.last_at [
  | none ↦ (r, h)
  | some at ↦ if ltb hold_for (now - at) then (r, nothing_held) else (h.last, h)
]

-- `_hold_last_sensors`: what is reported, and what is held from then on.
unfoldable pub hold_last_sensors : Poll → Held → Readings × Held
hold_last_sensors p h =
    if is_empty p.readings.sensors
    then hold_empty p.at p.readings h
    else (p.readings, record { last = p.readings; last_at = some p.at })

-- The states that polls lead to, the latest poll first.
pub data Polled : List Poll → Held → Type 0 where
  fresh : Polled [] nothing_held
  polled :
      {history : List Poll} {h : Held} (p : Poll)
      → Polled history h
      → Polled (p ∷ history) (hold_last_sensors p h).1
