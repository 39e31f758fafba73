-- ===== src/Hardware.antt =====
-- coordinator.py: what a node's status and network say about its hardware: sensors, load and the
-- addresses of its ports.
pub mod Macs
pub mod Chips
mod Tests
use proxmoxve_integration.Prelude.{
  ℕ, zero, suc, ◌-◌, List, [], ◌∷◌, ◌++◌, Bool, true, false, not, Option, none, some, ◌==◌, ◌&&◌,
  ◌||◌, if◌then◌else◌, leb, list_eq, nat_eq, length, take, drop, all, is_empty,
}
use proxmoxve_integration.Prelude.Dict.{Dict, insert}
use proxmoxve_integration.Prelude.Float.{Float, parse_float}
use proxmoxve_integration.Prelude.Sets.{append_new}
use proxmoxve_integration.Prelude.Text.{
  Text, text, starts_with, ends_with, strip_by, is_space, join, is_digit_char,
}
use proxmoxve_integration.Json
use proxmoxve_integration.Json.{
  Value, null, bool, int, float, str, arr, obj, end, Fields, nil, field, find, get, fields?, text?,
  is_text, truthy, float_of, iterate, rows, dicts, elements, put,
}

abbrev pub unit_suffixes : List Text
unit_suffixes = text "°C" ∷ text "°F" ∷ text "C" ∷ text "F" ∷ text "`C" ∷ text " " ∷ []

abbrev pub stripped : Text → Text
stripped s = strip_by is_space s

-- Without the first of the suffixes that ends the text.
abbrev pub without_suffix : List Text → Text → Text
without_suffix [] s = s
without_suffix (suffix ∷ rest) s =
    let later = without_suffix rest s in
    if ends_with suffix s then stripped (take (length s - length suffix) s) else later

-- `_try_parse_float`
unfoldable pub try_parse_float : Value → Option Float
try_parse_float (str s) = parse_float (without_suffix unit_suffixes (stripped s))
try_parse_float (bool b) = float_of (bool b)
try_parse_float (int n) = float_of (int n)
try_parse_float (float m k) = float_of (float m k)
try_parse_float _ = none

-- `parse_load_average`, of a list of three that all are floats
unfoldable pub parse_load_average : Value → Option (Float × Float × Float)
parse_load_average v = elim (rows v) [
  | one ∷ five ∷ fifteen ∷ [] ↦ elim (float_of one) [
    | none ↦ none
    | some a ↦ elim (float_of five) [
      | none ↦ none
      | some b ↦ elim (float_of fifteen) [ none ↦ none | some c ↦ some (a, b, c) ]
    ]
  ]
  | _ ↦ none
]

abbrev pub sensors_block : Text
sensors_block = text "PVE MOD lm-sensors Enhanced"

-- A reading of the newer shape: its name and what is kept of it.
abbrev pub reading_name : Text → Fields → Text
reading_name id sensor = elim (text? (get (text "label") sensor)) [
  | none ↦ id
  | some label ↦ if is_empty label then id else label
]

abbrev pub reading_of : Text → Value → Option (Text × Value)
reading_of id sensor = elim (fields? sensor) [
  | none ↦ none
  | some fs ↦ elim (fields? (get (text "input") fs)) [
    | none ↦ none
    | some input ↦ elim (find (text "value") input) [
      | none ↦ none
      | some v ↦ some (reading_name id fs, obj (field (id ++ text "_input") v nil))
    ]
  ]
]

abbrev pub put_reading : Option (Text × Value) → Fields → Fields
put_reading none readings = readings
put_reading (some (name, v)) readings = put name v readings

abbrev pub chip_readings : Fields → Fields → Fields
chip_readings nil readings = readings
chip_readings (field id sensor chip) readings =
    chip_readings chip (put_reading (reading_of id sensor) readings)

abbrev pub put_chip : Text → Fields → Fields → Fields
put_chip name nil chips = chips
put_chip name (field k v readings) chips = put name (obj (field k v readings)) chips

abbrev pub flattened : Fields → Fields → Fields
flattened nil chips = chips
flattened (field name chip rest) chips = elim (fields? chip) [
  | none ↦ flattened rest chips
  | some fs ↦ flattened rest (put_chip name (chip_readings fs nil) chips)
]

abbrev pub or_nil : Option Fields → Fields
or_nil none = nil
or_nil (some fs) = fs

-- `_readings_of`
unfoldable pub readings_of : Fields → Fields
readings_of payload = elim (fields? (get (text "data") payload)) [
  | some block ↦ or_nil (fields? (get sensors_block block))
  | none ↦ elim (fields? (get (text "enhanced_sensors") payload)) [
    | none ↦ nil
    | some chips ↦ flattened chips nil
  ]
]

-- The readings of one sensor, the last that is a number counting.
abbrev pub note_inputs : Text → Fields → Dict Text Float → Dict Text Float
note_inputs name nil result = result
note_inputs name (field key v inputs) result =
    if ends_with (text "_input") key
    then elim (try_parse_float v) [
      | none ↦ note_inputs name inputs result
      | some x ↦ note_inputs name inputs (insert name x result)
    ]
    else note_inputs name inputs result

abbrev pub note_sensors : Text → Fields → Dict Text Float → Dict Text Float
note_sensors chip nil result = result
note_sensors chip (field name v sensors) result =
    if name == text "adapter" then note_sensors chip sensors result else elim (fields? v) [
      | none ↦ note_sensors chip sensors result
      | some inputs ↦ note_sensors chip sensors (note_inputs (chip ++ b' ' ∷ name) inputs result)
    ]

abbrev pub note_chips : Fields → Dict Text Float → Dict Text Float
note_chips nil result = result
note_chips (field chip v chips) result = elim (fields? v) [
  | none ↦ note_chips chips result
  | some sensors ↦ note_chips chips (note_sensors chip sensors result)
]

-- `_parse_sensors_dict`
unfoldable pub parse_sensors_dict : Fields → Dict Text Float
unfolding try_parse_float
parse_sensors_dict chips = note_chips chips []

abbrev pub is_hex_char : ℕ → Bool
is_hex_char c = is_digit_char c || (leb 97 c && leb c 102)

-- The digits two by two.
abbrev pub pairs : Text → List Text
pairs [] = []
pairs (a ∷ []) = (a ∷ []) ∷ []
pairs (a ∷ b ∷ s) = (a ∷ b ∷ []) ∷ pairs s

-- `MAC_ALTNAME` of a name, in the colon form; `$` lets one newline follow.
unfoldable pub mac_of_altname : Text → Option Text
mac_of_altname name =
    let rest = drop 3 name in
    let digits = take 12 rest in
    let behind = drop 12 rest in
    if starts_with (text "enx") name
      && (length digits == 12 && (all is_hex_char digits && (is_empty behind || behind == 10 ∷ [])))
    then some (join b':' (pairs digits))
    else none

abbrev pub decoded : Value → Option Text
decoded v = elim (text? v) [ none ↦ none | some name ↦ mac_of_altname name ]

abbrev pub add_mac : Option Text → List Text → List Text
add_mac none found = found
add_mac (some mac) found = append_new found mac

abbrev pub note_macs : List Value → List Text → List Text
note_macs [] found = found
note_macs (v ∷ names) found = note_macs names (add_mac (decoded v) found)

-- `altnames`, or nothing where it is empty; `none` for a `TypeError`.
abbrev pub altnames : Fields → Option (List Value)
altnames port = let v = get (text "altnames") port in if truthy v then iterate v else some []

-- The names of a row that is a physical port.
unfoldable pub port_names : Fields → Option (List Value)
port_names port = if is_text (text "eth") (get (text "type") port) then altnames port else some []

abbrev pub note_ports : List Fields → List Text → Option (List Text)
note_ports [] found = some found
note_ports (port ∷ ports) found = elim (port_names port) [
  | none ↦ none
  | some names ↦ note_ports ports (note_macs names found)
]

-- `parse_mac_addresses`
unfoldable pub parse_mac_addresses : Value → Option (List Text)
unfolding mac_of_altname port_names
parse_mac_addresses interfaces = note_ports (dicts (rows interfaces)) []
