-- ===== src/Json.antt =====
-- What the Proxmox API answers: a JSON value as Python holds it, and the questions that the
-- integration asks of one (`isinstance`, `.get`, truth, `str`).
use proxmoxve_integration.Prelude.{
  ℕ, zero, suc, ◌==◌, if◌then◌else◌, List, [], ◌∷◌, Bool, true, false, not, Option, none, some,
  list_eq, nat_eq,
}
use proxmoxve_integration.Prelude.Text.{Text, text, int_text}
use proxmoxve_integration.Prelude.Int.{ℤ, pos, negsuc}
use proxmoxve_integration.Prelude.Float.{Float, finite, parse_float}
use Prim.Native.Nat.{◌^◌}

-- A finite float is `mantissa / 2 ^ scale`. Lists and objects are declared with the type.
mutual
  pub data Value : Type 0 where
    null : Value
    bool : Bool → Value
    int : ℤ → Value
    float : ℤ → ℕ → Value
    str : Text → Value
    arr : Values → Value
    obj : Fields → Value

  pub data Values : Type 0 where
    end : Values
    item : Value → Values → Values

  pub data Fields : Type 0 where
    nil : Fields
    field : Text → Value → Fields → Fields

abbrev pub elements : Values → List Value
elements end = []
elements (item v vs) = v ∷ elements vs

abbrev pub entries : Fields → List (Text × Value)
entries nil = []
entries (field k v fs) = (k, v) ∷ entries fs

-- `d[key]`, `none` for a `KeyError`
abbrev pub find : Text → Fields → Option Value
find key nil = none
find key (field k v fs) = if key == k then some v else find key fs

-- `d.get(key)`: a missing key and a JSON null read alike.
abbrev pub get : Text → Fields → Value
get key fs = elim (find key fs) [ none ↦ null | some v ↦ v ]

-- `key in d`
abbrev pub has : Text → Fields → Bool
has key fs = elim (find key fs) [ none ↦ false | some v ↦ true ]

abbrev pub is_zero : ℤ → Bool
is_zero (pos zero) = true
is_zero (pos (suc n)) = false
is_zero (negsuc n) = false

-- `bool(v)`
abbrev pub truthy : Value → Bool
truthy null = false
truthy (bool b) = b
truthy (int n) = not (is_zero n)
truthy (float m k) = not (is_zero m)
truthy (str []) = false
truthy (str (c ∷ s)) = true
truthy (arr end) = false
truthy (arr (item v vs)) = true
truthy (obj nil) = false
truthy (obj (field k v fs)) = true

-- `v == text`, for a text
abbrev pub is_text : Text → Value → Bool
is_text t (str s) = s == t
is_text t _ = false

abbrev pub text? : Value → Option Text
text? (str s) = some s
text? _ = none

abbrev pub fields? : Value → Option Fields
fields? (obj fs) = some fs
fields? _ = none

-- The rows of a value that is expected to be a list; anything else has none.
abbrev pub rows : Value → List Value
rows (arr vs) = elements vs
rows _ = []

abbrev pub dict_or_empty : Value → Fields
dict_or_empty (obj fs) = fs
dict_or_empty _ = nil

-- `str(v)`. How Python prints floats, lists and dicts is left to `repr`.
abbrev pub str_of : (Value → Text) → Value → Text
str_of repr null = text "None"
str_of repr (bool true) = text "True"
str_of repr (bool false) = text "False"
str_of repr (int n) = int_text n
str_of repr (float m k) = repr (float m k)
str_of repr (str s) = s
str_of repr (arr vs) = repr (arr vs)
str_of repr (obj fs) = repr (obj fs)

abbrev pub names_of : Fields → List Value
names_of nil = []
names_of (field k v fs) = str k ∷ names_of fs

abbrev pub letters : Text → List Value
letters [] = []
letters (c ∷ s) = str (c ∷ []) ∷ letters s

-- What `for x in v` runs through, `none` for a `TypeError`.
abbrev pub iterate : Value → Option (List Value)
iterate (arr vs) = some (elements vs)
iterate (obj fs) = some (names_of fs)
iterate (str s) = some (letters s)
iterate _ = none

-- The dicts of a list.
abbrev pub dicts : List Value → List Fields
dicts [] = []
dicts (obj fs ∷ vs) = fs ∷ dicts vs
dicts (_ ∷ vs) = dicts vs

-- `str(v) if v else None`
abbrev pub text_if : (Value → Text) → Value → Option Text
text_if repr v = if truthy v then some (str_of repr v) else none

-- `str(v) if v is not None else None`
abbrev pub text_unless_null : (Value → Text) → Value → Option Text
text_unless_null repr null = none
text_unless_null repr v = some (str_of repr v)

abbrev pub bit : Bool → ℕ
bit false = 0
bit true = 1

-- `float(v)`; `none` stands for the `TypeError` or `ValueError`.
abbrev pub float_of : Value → Option Float
float_of (bool b) = some (finite (pos (bit b)) 1)
float_of (int n) = some (finite n 1)
float_of (float m k) = some (finite m (2 ^ k))
float_of (str s) = parse_float s
float_of _ = none

-- `hash(v)` exists: a list or a dict has none.
abbrev pub hashable : Value → Bool
hashable (arr vs) = false
hashable (obj fs) = false
hashable _ = true

-- `d[key] = v`
abbrev pub put : Text → Value → Fields → Fields
put key v nil = field key v nil
put key v (field k w fs) =
    let rest = put key v fs in if key == k then field k v fs else field k w rest
