-- ===== src/Hardware/Tests.antt =====
-- A node with one port and one chip, and the theorems there.
use proxmoxve_integration.Prelude.{
  ◌≡◌, refl, List, [], ◌∷◌, none, some, list_eq, nat_eq, ℕ_discrete, any, All, contains,
}
use proxmoxve_integration.Prelude.Dict.{insert}
use proxmoxve_integration.Prelude.Float.{finite, parse_float}
use proxmoxve_integration.Prelude.Int.{pos}
use proxmoxve_integration.Prelude.Sets.{NoRepeat, append_new}
use proxmoxve_integration.Prelude.Text.{
  Text, text, starts_with, ends_with, strip_by, join, partition, count_char, lstrip_by, rstrip_by,
}
use proxmoxve_integration.Json.{Value, int, str, arr, obj, item, end, field, nil, dicts, rows}
use proxmoxve_integration.Hardware.{
  try_parse_float, parse_load_average, readings_of, parse_sensors_dict, mac_of_altname, port_names,
  parse_mac_addresses,
}
use proxmoxve_integration.Hardware.Macs.{port_has, parse_mac_addresses-NoRepeat}
use proxmoxve_integration.Hardware.Chips.{
  Limit, Reading, note, reading, Chip, IsChip, old_payload, new_payload, readings_of-new_payload,
}

opened : Unit {0}
unfolding try_parse_float parse_load_average readings_of parse_sensors_dict mac_of_altname
    port_names parse_mac_addresses append_new insert parse_float starts_with ends_with strip_by
    lstrip_by rstrip_by join partition count_char list_eq ℕ_discrete
opened = tt

abbrev interfaces : Value
interfaces = arr (
    item (obj (field (text "type") (str (text "bridge")) nil)) (
      item
        (obj (
          field (text "type") (str (text "eth")) (
            field (text "altnames")
              (arr (item (str (text "enp3s0")) (item (str (text "enx0123456789ab")) end))) nil)))
        end))

abbrev mac : Text
mac = text "01:23:45:67:89:ab"

reads_macs : parse_mac_addresses interfaces ≡ some (mac ∷ [])
unfolding opened
reads_macs = refl

parse_mac_addresses-NoRepeat_example :
    NoRepeat (mac ∷ []) × (contains (mac ∷ []) mac ≡ any (port_has mac) (dicts (rows interfaces)))
parse_mac_addresses-NoRepeat_example =
    parse_mac_addresses-NoRepeat interfaces (mac ∷ []) mac reads_macs

abbrev maximum : Limit
maximum = record { name = text "max"; value = int (pos 105) }

abbrev core : Text → Text → Value → Reading
core id label value = record {
  id = id;
  label = some label;
  quantity = text "temperature";
  unit = text "C";
  value = value;
  limits = maximum ∷ [];
}

abbrev board : Reading
board = record {
  id = text "temp1";
  label = none;
  quantity = text "temperature";
  unit = text "C";
  value = int (pos 35);
  limits = [];
}

abbrev chips : List Chip
chips =
    record {
      name = text "acpitz-acpi-0";
      rows = note (text "Adapter") (text "ACPI interface") ∷ reading board ∷ [];
    }
    ∷ record {
      name = text "coretemp-isa-0000";
      rows =
          note (text "Adapter") (text "ISA adapter")
          ∷ reading (core (text "temp1") (text "Package id 0") (int (pos 40)))
          ∷ reading (core (text "temp2") (text "Core 0") (str (text "38.5 °C")))
          ∷ [];
    }
    ∷ []

chips_good : All IsChip chips
unfolding opened
chips_good = (
  ((tt, ((tt, tt), tt)), (refl, tt)),
  (((tt, ((refl, ((refl, refl), tt)), ((refl, ((refl, refl), tt)), tt))), (refl, (refl, tt))), tt),
)

chips_apart : NoRepeat (text "acpitz-acpi-0" ∷ text "coretemp-isa-0000" ∷ [])
unfolding opened
chips_apart = (refl, (refl, tt))

readings_of-new_payload_example :
    parse_sensors_dict (readings_of (new_payload chips))
    ≡ parse_sensors_dict (readings_of (old_payload chips))
readings_of-new_payload_example = readings_of-new_payload chips chips_good chips_apart

runs :
    (parse_sensors_dict (readings_of (new_payload chips))
      ≡ (text "acpitz-acpi-0 temp1", finite (pos 35) 1)
        ∷ (text "coretemp-isa-0000 Package id 0", finite (pos 40) 1)
        ∷ (text "coretemp-isa-0000 Core 0", finite (pos 385) 10)
        ∷ [])
    × (parse_load_average
          (arr (item (str (text "0.5")) (item (str (text "1")) (item (str (text "2e0")) end))))
        ≡ some (finite (pos 5) 10, finite (pos 1) 1, finite (pos 2) 1))
unfolding opened
runs = (refl, refl)
