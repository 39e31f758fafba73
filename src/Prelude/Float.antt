-- ===== src/Prelude/Float.antt =====
-- Python's `float` of a text: exact, as a fraction, where Python rounds to the nearest machine number.
use Prim.Native.Nat.{ℕ, suc, ◌+◌, ◌-◌, ◌*◌, ◌^◌}
use mathlib.Core.Bool.{Bool, true, false, not, ◌&&◌, ◌||◌}
use mathlib.Core.Option.{Option, none, some}
use mathlib.Core.List.{[], ◌∷◌, map}
use proxmoxve_integration.Prelude.Equality.{◌==◌, nat_eq, list_eq, if◌then◌else◌, leb, contains}
use proxmoxve_integration.Prelude.Lists.{is_empty, length}
use proxmoxve_integration.Prelude.Int.{ℤ, pos, negsuc}
use proxmoxve_integration.Prelude.Text.{
  Text, text, partition, strip_by, is_space, count_char, digits_value, signed, negate,
}

-- `over / under` with the sign of `over`; an infinity, `true` for the positive one; or no number.
pub data Float : Type 0 where
  finite : ℤ → ℕ → Float
  infinite : Bool → Float
  nan : Float

-- `s.lower()`, of the ASCII letters; no other letter becomes one of those looked for.
abbrev lower_char : ℕ → ℕ
lower_char c = if leb 65 c && leb c 90 then c + 32 else c

abbrev pub lower : Text → Text
lower s = map lower_char s

-- A part of digits, which may be left out.
abbrev part_value : Text → Option ℕ
part_value [] = some 0
part_value (c ∷ s) = digits_value true 0 (c ∷ s)

-- `over / 10 ^ places` times ten to the power of an integer
abbrev scaled : Bool → ℕ → ℕ → ℤ → Float
scaled minus over places (pos e) =
    finite (if minus then negate (over * 10 ^ e) else pos (over * 10 ^ e)) (10 ^ places)
scaled minus over places (negsuc e) =
    finite (if minus then negate over else pos over) (10 ^ (places + suc e))

abbrev mantissa : Bool → Text → ℤ → Option Float
mantissa minus s e =
    let (whole, rest) = partition b'.' s in
    if is_empty whole && is_empty rest then none else elim (part_value whole) [
      | none ↦ none
      | some w ↦ elim (part_value rest) [
        | none ↦ none
        | some r ↦
            let places = length rest - count_char b'_' rest in
            some (scaled minus (w * 10 ^ places + r) places e)
      ]
    ]

abbrev magnitude : Bool → Text → Option Float
magnitude minus s =
    let (front, power) = partition b'e' s in
    if s == text "inf" || s == text "infinity"
    then some (infinite (not minus))
    else if s == text "nan"
    then some nan
    else if contains s b'e'
    then elim (signed power) [ none ↦ none | some e ↦ mantissa minus front e ]
    else mantissa minus s (pos 0)

abbrev signed_magnitude : Text → Option Float
signed_magnitude [] = none
signed_magnitude (c ∷ s) =
    if c == b'-'
    then magnitude true s
    else if c == b'+'
    then magnitude false s
    else magnitude false (c ∷ s)

-- `float(s)`; `none` stands for the `ValueError`.
unfoldable pub parse_float : Text → Option Float
unfolding signed
parse_float s = signed_magnitude (lower (strip_by is_space s))
