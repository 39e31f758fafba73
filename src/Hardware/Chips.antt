-- ===== src/Hardware/Chips.antt =====
-- The two shapes of a node's sensor readings say the same.
use proxmoxve_integration.Prelude.{
  ◌≡◌, refl, ap, sym, ◌∙◌, List, [], ◌∷◌, ◌++◌, false, Option, none, some, ◌==◌, list_eq, nat_eq,
  All, is_empty, contains, arith, ℕ_discrete, Bool-cases, Option-cases, inl, inr,
}
use proxmoxve_integration.Prelude.Dict.{Dict}
use proxmoxve_integration.Prelude.Float.{Float}
use proxmoxve_integration.Prelude.Sets.{NoRepeat}
use proxmoxve_integration.Prelude.Text.{Text, text, ends_with}
use proxmoxve_integration.Json.{Value, str, obj, Fields, nil, field, put, get, text?}
use proxmoxve_integration.Hardware.{
  try_parse_float, sensors_block, reading_name, reading_of, put_reading, chip_readings, put_chip,
  flattened, readings_of, note_inputs, note_sensors, note_chips, parse_sensors_dict,
}

-- A limit of a reading, such as its maximum.
pub record Limit : Type 0 where
  pub name : Text
  pub value : Value

-- One reading: the raw sensor, the label if it has one, the quantity and its unit, and the value.
pub record Reading : Type 0 where
  pub id : Text
  pub label : Option Text
  pub quantity : Text
  pub unit : Text
  pub value : Value
  pub limits : List Limit

-- A row of a chip: what is said of the chip itself, such as its adapter, or a reading.
pub data Row : Type 0 where
  note : Text → Text → Row
  reading : Reading → Row

pub record Chip : Type 0 where
  pub name : Text
  pub rows : List Row

-- The name of a reading: its label, or the raw sensor.
abbrev pub shown_name : Reading → Text
shown_name r = elim r.label [ none ↦ r.id | some label ↦ label ]

abbrev pub old_limits : Text → List Limit → Fields
old_limits id [] = nil
old_limits id (l ∷ ls) = field (id ++ b'_' ∷ l.name) l.value (old_limits id ls)

abbrev pub new_limits : List Limit → Fields
new_limits [] = nil
new_limits (l ∷ ls) = field l.name (obj (field (text "value") l.value nil)) (new_limits ls)

abbrev pub old_reading : Reading → Value
old_reading r = obj (field (r.id ++ text "_input") r.value (old_limits r.id r.limits))

abbrev pub with_label : Option Text → Fields → Fields
with_label none fs = fs
with_label (some label) fs = field (text "label") (str label) fs

abbrev pub new_reading : Reading → Value
new_reading r = obj (
    with_label r.label (
      field (text "input")
        (obj (
          field (text "quantity") (str r.quantity)
            (field (text "unit") (str r.unit) (field (text "value") r.value nil))))
        (new_limits r.limits)))

abbrev pub old_rows : List Row → Fields
old_rows [] = nil
old_rows (note name said ∷ rows) = field name (str said) (old_rows rows)
old_rows (reading r ∷ rows) = field (shown_name r) (old_reading r) (old_rows rows)

abbrev pub new_rows : List Row → Fields
new_rows [] = nil
new_rows (note name said ∷ rows) = field name (str said) (new_rows rows)
new_rows (reading r ∷ rows) = field r.id (new_reading r) (new_rows rows)

abbrev pub old_chips : List Chip → Fields
old_chips [] = nil
old_chips (c ∷ cs) = field c.name (obj (old_rows c.rows)) (old_chips cs)

abbrev pub new_chips : List Chip → Fields
new_chips [] = nil
new_chips (c ∷ cs) = field c.name (obj (new_rows c.rows)) (new_chips cs)

-- What PVE-mods sends of the chips up to v2.0.0, and from v2.1.0.
abbrev pub old_payload : List Chip → Fields
old_payload cs = field (text "data") (obj (field sensors_block (obj (old_chips cs)) nil)) nil

abbrev pub new_payload : List Chip → Fields
new_payload cs = field (text "enhanced_sensors") (obj (new_chips cs)) nil

abbrev pub reading_names : List Row → List Text
reading_names [] = []
reading_names (note name said ∷ rows) = reading_names rows
reading_names (reading r ∷ rows) = shown_name r ∷ reading_names rows

abbrev pub names : List Chip → List Text
names [] = []
names (c ∷ cs) = c.name ∷ names cs

abbrev pub IsLabel : Option Text → Type 0
IsLabel none = Unit
IsLabel (some label) = is_empty label ≡ false

-- A limit is no label, and no key of it looks like that of a reading.
abbrev pub IsLimit : Text → Limit → Type 0
IsLimit id l =
    ((text "label" == l.name) ≡ false) × (ends_with (text "_input") (id ++ b'_' ∷ l.name) ≡ false)

abbrev pub IsRow : Row → Type 0
IsRow (note name said) = Unit
IsRow (reading r) = IsLabel r.label × All (IsLimit r.id) r.limits

-- The labels of a chip are not empty, and its readings have names that differ.
abbrev pub IsChip : Chip → Type 0
IsChip c = All IsRow c.rows × NoRepeat (reading_names c.rows)

abbrev keys : Fields → List Text
keys nil = []
keys (field k v fs) = k ∷ keys fs

abbrev append : Fields → Fields → Fields
append nil gs = gs
append (field k v fs) gs = field k v (append fs gs)

put_new :
    (k : Text) (v : Value) (fs : Fields)
    → contains (keys fs) k ≡ false
    → put k v fs ≡ append fs (field k v nil)
put_new k v nil h = refl
put_new k v (field j w fs) h = ground (arith, h, put_new k v fs)

append_assoc_one :
    (fs : Fields) (k : Text) (v : Value) (gs : Fields)
    → append (append fs (field k v nil)) gs ≡ append fs (field k v gs)
append_assoc_one nil k v gs = refl
append_assoc_one (field j w fs) k v gs = ap (field j w) (append_assoc_one fs k v gs)

append_nil : (fs : Fields) → append fs nil ≡ fs
append_nil nil = refl
append_nil (field j w fs) = ap (field j w) (append_nil fs)

-- None of the keys is one of those listed.
abbrev Apart : Fields → List Text → Type 0
Apart fs ls = All (λ l. contains (keys fs) l ≡ false) ls

contains-append_one :
    (fs : Fields) (k : Text) (v : Value) (l : Text)
    → contains (keys fs) l ≡ false
    → (l == k) ≡ false
    → contains (keys (append fs (field k v nil))) l ≡ false
contains-append_one nil k v l h d = ground (arith, d)
contains-append_one (field j w fs) k v l h d = ground (arith, h, d, contains-append_one fs k v l)

Apart-append :
    (fs : Fields) (k : Text) (v : Value) (ls : List Text)
    → Apart fs ls
    → contains ls k ≡ false
    → Apart (append fs (field k v nil)) ls
Apart-append fs k v [] a h = tt
Apart-append fs k v (l ∷ ls) a h = (
  contains-append_one fs k v l a.0 (ground (arith, h)),
  Apart-append fs k v ls a.1 (ground (arith, h)),
)

Apart-nil : (ls : List Text) → Apart nil ls
Apart-nil [] = tt
Apart-nil (l ∷ ls) = (refl, Apart-nil ls)

-- The readings by their names, without limits and notes.
abbrev plain_reading : Reading → Value
plain_reading r = obj (field (r.id ++ text "_input") r.value nil)

abbrev plain_rows : List Row → Fields
plain_rows [] = nil
plain_rows (note name said ∷ rows) = plain_rows rows
plain_rows (reading r ∷ rows) = field (shown_name r) (plain_reading r) (plain_rows rows)

abbrev add_chip : Text → Fields → Fields → Fields
add_chip name nil chips = chips
add_chip name (field k v fs) chips = field name (obj (field k v fs)) chips

abbrev plain_chips : List Chip → Fields
plain_chips [] = nil
plain_chips (c ∷ cs) = add_chip c.name (plain_rows c.rows) (plain_chips cs)

limits_unlabelled :
    (id : Text) (ls : List Limit)
    → All (IsLimit id) ls
    → text? (get (text "label") (new_limits ls)) ≡ none
unfolding list_eq
limits_unlabelled id [] h = refl
limits_unlabelled id (l ∷ ls) h = rw (h.0.0) (limits_unlabelled id ls h.1)

name_of_id :
    (id : Text) (fs : Fields) → text? (get (text "label") fs) ≡ none → reading_name id fs ≡ id
name_of_id id fs h = rw (reading_name, h) refl

reading_of-new :
    (id quantity unit : Text) (label : Option Text) (v : Value) (ls : List Limit)
    → IsLabel label
    → All (IsLimit id) ls
    → let r : Reading = record {
      id = id;
      label = label;
      quantity = quantity;
      unit = unit;
      value = v;
      limits = ls;
    } in
      reading_of id (new_reading r) ≡ some (shown_name r, plain_reading r)
unfolding ℕ_discrete list_eq
reading_of-new id quantity unit none v ls named limits =
    ap (λ name. some (name, obj (field (id ++ text "_input") v nil)))
      (name_of_id id
        (field (text "input")
          (obj (
            field (text "quantity") (str quantity)
              (field (text "unit") (str unit) (field (text "value") v nil))))
          (new_limits ls))
        (limits_unlabelled id ls limits))
reading_of-new id quantity unit (some label) v ls named limits = rw (named) refl

chip_readings-new :
    (rows : List Row) (acc : Fields)
    → All IsRow rows
    → NoRepeat (reading_names rows)
    → Apart acc (reading_names rows)
    → chip_readings (new_rows rows) acc ≡ append acc (plain_rows rows)
chip_readings-new [] acc good n a = sym (append_nil acc)
chip_readings-new (note name said ∷ rows) acc good n a = chip_readings-new rows acc good.1 n a
chip_readings-new (reading r ∷ rows) acc good n a =
    let plain = plain_reading r in
    let more = append acc (field (shown_name r) plain nil) in
    ap (λ o. chip_readings (new_rows rows) (put_reading o acc))
      (reading_of-new r.id r.quantity r.unit r.label r.value r.limits good.0.0 good.0.1)
    ∙ (ap (chip_readings (new_rows rows)) (put_new (shown_name r) plain acc a.0)
        ∙ (chip_readings-new rows more good.1 n.1
              (Apart-append acc (shown_name r) plain (reading_names rows) a.1 n.0)
            ∙ append_assoc_one acc (shown_name r) plain (plain_rows rows)))

flattened-put :
    (name : Text) (fs acc rest : Fields) (cs : List Chip)
    → contains (keys acc) name ≡ false
    → contains (names cs) name ≡ false
    → Apart acc (names cs)
    → ((more : Fields) → Apart more (names cs) → flattened (new_chips cs) more ≡ append more rest)
    → flattened (new_chips cs) (put_chip name fs acc) ≡ append acc (add_chip name fs rest)
flattened-put name nil acc rest cs h n a go = go acc a
flattened-put name (field k v fs) acc rest cs h n a go =
    let chip = obj (field k v fs) in
    ap (flattened (new_chips cs)) (put_new name chip acc h)
    ∙ (go (append acc (field name chip nil)) (Apart-append acc name chip (names cs) a n)
        ∙ append_assoc_one acc name chip rest)

flattened-new :
    (cs : List Chip) (acc : Fields)
    → All IsChip cs
    → NoRepeat (names cs)
    → Apart acc (names cs)
    → flattened (new_chips cs) acc ≡ append acc (plain_chips cs)
flattened-new [] acc good n a = sym (append_nil acc)
flattened-new (c ∷ cs) acc good n a =
    let (rows, distinct) = good.0 in
    ap (λ fs. flattened (new_chips cs) (put_chip c.name fs acc))
      (chip_readings-new c.rows nil rows distinct (Apart-nil (reading_names c.rows)))
    ∙ flattened-put c.name (plain_rows c.rows) acc (plain_chips cs) cs a.0 n.0 a.1
        (λ more apart. flattened-new cs more good.1 n.1 apart)

limits_unread :
    (name id : Text) (ls : List Limit) (found : Dict Text Float)
    → All (IsLimit id) ls
    → note_inputs name (old_limits id ls) found ≡ found
limits_unread name id [] found h = refl
limits_unread name id (l ∷ ls) found h = rw (h.0.1) (limits_unread name id ls found h.1)

input_only :
    (name key : Text) (v : Value) (more : Fields) (found : Dict Text Float)
    → ((d : Dict Text Float) → note_inputs name more d ≡ d)
    → note_inputs name (field key v more) found ≡ note_inputs name (field key v nil) found
input_only name key v more found rest = elim (Bool-cases (ends_with (text "_input") key)) [
  | inl input ↦ elim (Option-cases (try_parse_float v)) [
    | inl fails ↦ rw (input, fails) (rest found)
    | inr (x, parsed) ↦ rw (input, parsed) (rest _)
  ]
  | inr other ↦ rw (other) (rest found)
]

note_sensors-old :
    (chip : Text) (rows : List Row) (found : Dict Text Float)
    → All IsRow rows
    → note_sensors chip (plain_rows rows) found ≡ note_sensors chip (old_rows rows) found
note_sensors-old chip [] found good = refl
note_sensors-old chip (note name said ∷ rows) found good =
    elim (Bool-cases (name == text "adapter")) [
      | inl adapter ↦ rw (adapter) (note_sensors-old chip rows found good.1)
      | inr other ↦ rw (other) (note_sensors-old chip rows found good.1)
    ]
note_sensors-old chip (reading r ∷ rows) found good =
    elim (Bool-cases (shown_name r == text "adapter")) [
      | inl adapter ↦ rw (adapter) (note_sensors-old chip rows found good.1)
      | inr other ↦ rw (other) (
          note_sensors-old chip rows
            (note_inputs (chip ++ b' ' ∷ shown_name r) (field (r.id ++ text "_input") r.value nil)
              found)
            good.1
          ∙ ap (note_sensors chip (old_rows rows)) (
              sym (
                input_only (chip ++ b' ' ∷ shown_name r) (r.id ++ text "_input") r.value
                  (old_limits r.id r.limits) found
                  (λ d. limits_unread (chip ++ b' ' ∷ shown_name r) r.id r.limits d good.0.1))))
    ]

note_chips-add_chip :
    (name : Text) (fs chips : Fields) (found : Dict Text Float)
    → note_chips (add_chip name fs chips) found ≡ note_chips chips (note_sensors name fs found)
note_chips-add_chip name nil chips found = refl
note_chips-add_chip name (field k v fs) chips found = refl

note_chips-old :
    (cs : List Chip) (found : Dict Text Float)
    → All IsChip cs
    → note_chips (plain_chips cs) found ≡ note_chips (old_chips cs) found
note_chips-old [] found good = refl
note_chips-old (c ∷ cs) found good =
    note_chips-add_chip c.name (plain_rows c.rows) (plain_chips cs) found
    ∙ (ap (note_chips (plain_chips cs)) (note_sensors-old c.name c.rows found good.0.0)
        ∙ note_chips-old cs (note_sensors c.name (old_rows c.rows) found) good.1)

-- Whichever shape PVE-mods sends the chips in, with their notes, units and limits, the same sensors with the
-- same values come out, in the same order, where the chips have different names, the labels are not empty,
-- the readings of each chip have names that differ, and a limit is not called a label and has no key that
-- looks like a reading's.
pub readings_of-new_payload :
    (cs : List Chip)
    → All IsChip cs
    → NoRepeat (names cs)
    → parse_sensors_dict (readings_of (new_payload cs))
      ≡ parse_sensors_dict (readings_of (old_payload cs))
unfolding readings_of parse_sensors_dict ℕ_discrete list_eq
readings_of-new_payload cs good n =
    ap (λ chips. note_chips chips []) (flattened-new cs nil good n (Apart-nil (names cs)))
    ∙ note_chips-old cs [] good
