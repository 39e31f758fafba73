-- ===== src/Prelude/Text/Number.antt =====
-- Numbers as texts: `str(n)`, `s.isdigit()` and `int(s)`, over the ASCII digits.
use Prim.Native.Nat.{ℕ, zero, suc, ◌+◌, ◌-◌, ◌*◌, ◌/◌, ◌%◌}
use mathlib.Core.Bool.{Bool, true, false, ◌&&◌}
use mathlib.Core.Option.{Option, none, some}
use mathlib.Core.List.{List, [], ◌∷◌}
use proxmoxve_integration.Prelude.Equality.{◌==◌, nat_eq, if◌then◌else◌, leb, ltb}
use proxmoxve_integration.Prelude.Lists.{all}
use proxmoxve_integration.Prelude.Int.{ℤ, pos, negsuc}
use proxmoxve_integration.Prelude.Text.Split.{strip_by, is_space}

-- The digits of `n` in front of `acc`; a number has no more digits than its value plus one.
digits : ℕ → ℕ → List ℕ → List ℕ
digits zero n acc = acc
digits (suc fuel) n acc =
    let d = (48 + n % 10) ∷ acc in let rest = digits fuel (n / 10) d in if ltb n 10 then d else rest

unfoldable pub decimal : ℕ → List ℕ
unfolding digits
decimal n = digits (suc n) n []

-- `str` of an `int`
unfoldable pub int_text : ℤ → List ℕ
unfolding decimal
int_text (pos n) = decimal n
int_text (negsuc n) = b'-' ∷ decimal (suc n)

abbrev pub is_digit_char : ℕ → Bool
is_digit_char c = leb 48 c && leb c 57

abbrev pub is_digit : List ℕ → Bool
is_digit [] = false
is_digit (c ∷ s) = all is_digit_char (c ∷ s)

-- The value of a run of digits, in which single underscores may stand between two digits.
-- `open` says that a digit must follow.
unfoldable pub digits_value : Bool → ℕ → List ℕ → Option ℕ
digits_value true n [] = none
digits_value false n [] = some n
digits_value wants n (c ∷ s) =
    let digit = digits_value false (n * 10 + (c - 48)) s in
    let under = digits_value true n s in
    if is_digit_char c then digit else if c == b'_' then (if wants then none else under) else none

abbrev pub negate : ℕ → ℤ
negate zero = pos 0
negate (suc n) = negsuc n

unfoldable pub signed : List ℕ → Option ℤ
unfolding digits_value
signed [] = none
signed (c ∷ s) =
    if c == b'-'
    then elim (digits_value true 0 s) [ none ↦ none | some n ↦ some (negate n) ]
    else if c == b'+'
    then elim (digits_value true 0 s) [ none ↦ none | some n ↦ some (pos n) ]
    else elim (digits_value true 0 (c ∷ s)) [ none ↦ none | some n ↦ some (pos n) ]

-- `int(s)`; `none` stands for the `ValueError`.
unfoldable pub parse_int : List ℕ → Option ℤ
unfolding signed
parse_int s = signed (strip_by is_space s)
