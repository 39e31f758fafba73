-- ===== src/Sensors/Laws.antt =====
-- The readings reported are those of the latest poll that brought any, for as long as they are held.
use proxmoxve_integration.Prelude.{
  ℕ, ◌-◌, ◌≤◌, ◌≡◌, refl, List, [], ◌∷◌, Option, none, some, if◌then◌else◌, ltb, is_empty, arith,
}
use proxmoxve_integration.Sensors.{
  hold_for, Readings, Poll, Held, hold_empty, hold_last_sensors, Polled, fresh, polled,
}

-- The latest poll that brought readings.
abbrev pub latest : List Poll → Option Poll
latest [] = none
latest (p ∷ ps) = let rest = latest ps in if is_empty p.readings.sensors then rest else some p

-- What is still good at a time of the readings that a poll brought.
abbrev pub good_at : ℕ → Option Poll → Option Readings
good_at now none = none
good_at now (some p) = if ltb hold_for (now - p.at) then none else some p.readings

-- What a poll should report: what it brought, or else the latest readings if they are not too old.
abbrev pub report : Poll → List Poll → Readings
report p history =
    if is_empty p.readings.sensors
    then elim (good_at p.at (latest history)) [ none ↦ p.readings | some r ↦ r ]
    else p.readings

-- The polls come in the order of time, the latest first, and none after `now`.
abbrev pub IsBefore : ℕ → List Poll → Type 0
IsBefore now [] = Unit
IsBefore now (p ∷ ps) = (p.at ≤ now) × IsBefore p.at ps

-- What is held, as far as it is still good.
abbrev held_at : ℕ → Held → Option Readings
held_at now h = elim h.last_at [
  | none ↦ none
  | some at ↦ if ltb hold_for (now - at) then none else some h.last
]

held_at-step :
    (p : Poll) (history : List Poll) (h : Held) (now : ℕ)
    → p.at ≤ now
    → held_at now h ≡ good_at now (latest history)
    → held_at now (hold_last_sensors p h).1 ≡ good_at now (latest (p ∷ history))
unfolding hold_last_sensors hold_empty
held_at-step p history h now later same = ground (arith, later, same)

IsBefore-later : (a b : ℕ) (ps : List Poll) → a ≤ b → IsBefore a ps → IsBefore b ps
IsBefore-later a b [] le h = tt
IsBefore-later a b (p ∷ ps) le (first, rest) = (omega (arith, le, first), rest)

held_at-latest :
    (history : List Poll) (h : Held) (now : ℕ)
    → Polled history h
    → IsBefore now history
    → held_at now h ≡ good_at now (latest history)
held_at-latest _ _ now fresh order = refl
held_at-latest _ _ now (polled {history} {h} p before) (later, order) =
    held_at-step p history h now later
      (held_at-latest history h now before (IsBefore-later p.at now history later order))

-- After any polls in the order of time, a poll reports its own readings, or if it brought none, those of
-- the latest poll that brought any, unless they are older than they are held for.
pub hold_last_sensors-report :
    (p : Poll) (history : List Poll) (h : Held)
    → Polled history h
    → IsBefore p.at history
    → (hold_last_sensors p h).0 ≡ report p history
unfolding hold_last_sensors hold_empty
hold_last_sensors-report p history h before order =
    ground (arith, held_at-latest history h p.at before order)
