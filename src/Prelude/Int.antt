-- ===== src/Prelude/Int.antt =====
-- Python's integers.
use Prim.Native.Nat.{ℕ, suc, ◌+◌, ◌-◌}
use mathlib.Core.Path.{◌≡◌, ap}
use native.Mathlib.Omega.{arith}
use mathlib.Core.Bool.{Bool, true, false}
use native.Mathlib.Decide.{ℕ_discrete}
use proxmoxve_integration.Prelude.Equality.{Eq, leb, ltb, if◌then◌else◌}

-- `negsuc n` is -(n + 1).
pub data ℤ : Type 0 where
  pos : ℕ → ℤ
  negsuc : ℕ → ℤ

unfoldable pub ℤ-discrete : Discrete ℤ
ℤ-discrete = hlevel ℕ_discrete

instance unfoldable pub int_eq : Eq ℤ
unfolding ℤ-discrete
int_eq = record { dec = ℤ-discrete }

abbrev pub int_leb : ℤ → ℤ → Bool
int_leb (pos a) (pos b) = leb a b
int_leb (pos a) (negsuc b) = false
int_leb (negsuc a) (pos b) = true
int_leb (negsuc a) (negsuc b) = leb b a

-- `b - a`, where `a` is not above `b`; 0 elsewhere.
abbrev pub rise : ℤ → ℤ → ℕ
rise (pos a) (pos b) = b - a
rise (pos a) (negsuc b) = 0
rise (negsuc a) (pos b) = suc (b + a)
rise (negsuc a) (negsuc b) = a - b

-- `z + n`
abbrev pub raise_by : ℤ → ℕ → ℤ
raise_by (pos a) n = pos (a + n)
raise_by (negsuc a) n = if ltb a n then pos (n - suc a) else negsuc (a - n)

pub raise_by-rise : (a b : ℤ) → int_leb a b ≡ true → raise_by a (rise a b) ≡ b
raise_by-rise (pos a) (pos b) h = ap pos (ground (arith, h))
raise_by-rise (pos a) (negsuc b) h = ground arith
raise_by-rise (negsuc a) (pos b) h = ground arith
raise_by-rise (negsuc a) (negsuc b) h = ground (arith, h)
