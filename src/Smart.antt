-- ===== src/Smart.antt =====
-- coordinator.py: the readings of a disk's SMART report, as attributes or as text.
use proxmoxve_integration.Prelude.{
  ℕ, ◌+◌, ◌*◌, ◌-◌, List, [], ◌∷◌, Bool, true, false, Option, none, some, ◌&&◌, if◌then◌else◌,
  list_eq, nat_eq, contains, collect, length, drop, is_empty,
}
use proxmoxve_integration.Prelude.Dict.{Dict, insert, lookup}
use proxmoxve_integration.Prelude.Int.{ℤ, pos}
use proxmoxve_integration.Prelude.Text.{
  Text, text, starts_with, strip_by, lstrip_by, is_space, split, partition, remove_all,
  is_digit_char,
}
use proxmoxve_integration.Json.{Value, int, str, obj, Fields, nil, field, get, dicts}

abbrev pub smart_text_labels : Dict Text ℕ
smart_text_labels =
    (text "Temperature", 194)
    ∷ (text "Power Cycles", 12)
    ∷ (text "Power On Hours", 9)
    ∷ (text "Current Drive Temperature", 194)
    ∷ (text "Accumulated start-stop cycles", 12)
    ∷ (text "Accumulated power on time, hours:minutes", 9)
    ∷ []

-- The first label with a colon of its own that the line starts with, and what follows.
abbrev pub colon_label : Dict Text ℕ → Text → Option (Text × Text)
colon_label [] line = none
colon_label ((known, id) ∷ labels) line =
    let rest = colon_label labels line in
    if contains known b':' && starts_with known line
    then some (known, drop (length known) line)
    else rest

abbrev pub split_label : Text → Option (Text × Text)
split_label line = elim (colon_label smart_text_labels line) [
  | some found ↦ some found
  | none ↦
      let (head, tail) = partition b':' line in
      if contains line b':' then some (strip_by is_space head, tail) else none
]

abbrev pub attribute_with : Option (Text × Text) → Option Value
attribute_with none = none
attribute_with (some (label, value)) = elim (lookup label smart_text_labels) [
  | none ↦ none
  | some id ↦ some (
      obj (
        field (text "name") (str label) (
          field (text "raw") (str (remove_all (text ",") (strip_by is_space value)))
            (field (text "id") (int (pos id)) nil))))
]

-- The attribute of a line.
unfoldable pub smart_line : Text → Option Value
smart_line raw_line =
    let line = strip_by is_space raw_line in
    if is_empty line then none else attribute_with (split_label line)

unfoldable pub parse_smart_text : Text → List Value
unfolding smart_line
parse_smart_text s = collect smart_line (split b'\n' s)

-- The digits in front, after `n`; `seen` says that there was one.
unfoldable pub digits_front : Bool → ℕ → Text → Option ℕ
digits_front seen n [] = if seen then some n else none
digits_front seen n (c ∷ s) =
    let rest = digits_front true (n * 10 + (c - 48)) s in
    if is_digit_char c then rest else if seen then some n else none

abbrev pub natural : Option ℕ → Option ℤ
natural none = none
natural (some n) = some (pos n)

-- `_leading_int`
unfoldable pub leading_int : Value → Option ℤ
unfolding digits_front
leading_int (int n) = some n
leading_int (str s) = natural (digits_front false 0 (lstrip_by is_space (remove_all (text ",") s)))
leading_int _ = none

-- What is read of each attribute: the name of the reading, and the field that holds it.
abbrev pub wanted : Dict ℕ (Text × Text)
wanted =
    (12, (text "power_cycles", text "raw"))
    ∷ (194, (text "temperature", text "raw"))
    ∷ (190, (text "temperature_air", text "raw"))
    ∷ (9, (text "power_hours", text "raw"))
    ∷ (231, (text "life_left", text "value"))
    ∷ (174, (text "power_loss", text "raw"))
    ∷ []

abbrev pub wanted_of : Option ℤ → Option (Text × Text)
wanted_of (some (pos id)) = lookup id wanted
wanted_of _ = none

abbrev pub put_reading : Text → Option ℤ → Dict Text ℤ → Dict Text ℤ
put_reading key none readings = readings
put_reading key (some n) readings = insert key n readings

abbrev pub read_attribute : Option (Text × Text) → Fields → Dict Text ℤ → Dict Text ℤ
read_attribute none fs readings = readings
read_attribute (some (key, place)) fs readings =
    put_reading key (leading_int (get place fs)) readings

unfoldable pub note_attributes : List Fields → Dict Text ℤ → Dict Text ℤ
note_attributes [] readings = readings
note_attributes (fs ∷ rows) readings =
    note_attributes rows (read_attribute (wanted_of (leading_int (get (text "id") fs))) fs readings)

unfoldable pub parse_smart_attributes : List Value → Dict Text ℤ
unfolding note_attributes
parse_smart_attributes attributes = note_attributes (dicts attributes) []
