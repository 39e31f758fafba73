-- ===== src/Disks/Readings.antt =====
-- What a disk's SMART report comes to.
use proxmoxve_integration.Prelude.{
  ◌≡◌, refl, ap, ◌∙◌, List, [], ◌∷◌, Option, none, some, ◌==◌, if◌then◌else◌, list_eq, nat_eq,
  Bool-cases, inl, inr,
}
use proxmoxve_integration.Prelude.Dict.{Dict, lookup, lookup-insert}
use proxmoxve_integration.Prelude.Int.{ℤ}
use proxmoxve_integration.Prelude.Text.{Text, text}
use proxmoxve_integration.Json.{Value, Fields, get, dicts}
use proxmoxve_integration.Smart.{
  leading_int, wanted_of, put_reading, read_attribute, note_attributes, parse_smart_attributes,
}

abbrev number_for : Text → Option (Text × Text) → Fields → Option ℤ
number_for key none fs = none
number_for key (some (k, place)) fs = if key == k then leading_int (get place fs) else none

-- The number that one attribute gives for a reading.
abbrev reading_for : Text → Fields → Option ℤ
reading_for key fs = number_for key (wanted_of (leading_int (get (text "id") fs))) fs

abbrev or_else : Option ℤ → Option ℤ → Option ℤ
or_else none o = o
or_else (some n) o = some n

-- The number that the last of the attributes gives that gives one.
abbrev pub last_reading : Text → List Fields → Option ℤ
last_reading key [] = none
last_reading key (fs ∷ rows) = or_else (last_reading key rows) (reading_for key fs)

or_else_assoc : (a b c : Option ℤ) → or_else a (or_else b c) ≡ or_else (or_else a b) c
or_else_assoc none b c = refl
or_else_assoc (some n) b c = refl

lookup-put_reading :
    (key k : Text) (o : Option ℤ) (readings : Dict Text ℤ)
    → lookup key (put_reading k o readings)
      ≡ or_else (if key == k then o else none) (lookup key readings)
lookup-put_reading key k none readings = elim (Bool-cases (key == k)) [
  | inl same ↦ rw (same) refl
  | inr other ↦ rw (other) refl
]
lookup-put_reading key k (some n) readings = elim (Bool-cases (key == k)) [
  | inl same ↦ rw (lookup-insert key k n readings, same) refl
  | inr other ↦ rw (lookup-insert key k n readings, other) refl
]

lookup-read_attribute :
    (key : Text) (o : Option (Text × Text)) (fs : Fields) (readings : Dict Text ℤ)
    → lookup key (read_attribute o fs readings)
      ≡ or_else (number_for key o fs) (lookup key readings)
lookup-read_attribute key none fs readings = refl
lookup-read_attribute key (some (k, place)) fs readings =
    lookup-put_reading key k (leading_int (get place fs)) readings

lookup-note_attributes :
    (key : Text) (rows : List Fields) (readings : Dict Text ℤ)
    → lookup key (note_attributes rows readings)
      ≡ or_else (last_reading key rows) (lookup key readings)
unfolding note_attributes
lookup-note_attributes key [] readings = refl
lookup-note_attributes key (fs ∷ rows) readings =
    let o = wanted_of (leading_int (get (text "id") fs)) in
    lookup-note_attributes key rows (read_attribute o fs readings)
    ∙ (ap (or_else (last_reading key rows)) (lookup-read_attribute key o fs readings)
        ∙ or_else_assoc (last_reading key rows) (reading_for key fs) (lookup key readings))

or_else-none : (o : Option ℤ) → or_else o none ≡ o
or_else-none none = refl
or_else-none (some n) = refl

-- A reading of a disk is the number in front of the field of its attribute, of the last attribute with one
-- of its ids that has such a number; an attribute without one, or an entry that is none, changes nothing.
pub lookup-parse_smart_attributes :
    (key : Text) (attributes : List Value)
    → lookup key (parse_smart_attributes attributes) ≡ last_reading key (dicts attributes)
unfolding parse_smart_attributes
lookup-parse_smart_attributes key attributes =
    lookup-note_attributes key (dicts attributes) []
    ∙ or_else-none (last_reading key (dicts attributes))
