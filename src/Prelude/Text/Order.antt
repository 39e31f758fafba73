-- ===== src/Prelude/Text/Order.antt =====
-- The order of texts: by code points, as Python compares `str`.
use Prim.Native.Nat.{ℕ}
use mathlib.Core.Path.{◌≡◌, refl}
use mathlib.Core.Bool.{Bool, true, false, ◌||◌}
use mathlib.Core.List.{List, [], ◌∷◌}
use native.Mathlib.Omega.{arith}
use proxmoxve_integration.Prelude.Equality.{ltb, if◌then◌else◌}

unfoldable pub text_leb : List ℕ → List ℕ → Bool
text_leb [] ys = true
text_leb (x ∷ xs) [] = false
text_leb (x ∷ xs) (y ∷ ys) = if ltb x y then true else if ltb y x then false else text_leb xs ys

pub text_leb_total : (xs ys : List ℕ) → (text_leb xs ys || text_leb ys xs) ≡ true
unfolding text_leb
text_leb_total [] ys = refl
text_leb_total (x ∷ xs) [] = refl
text_leb_total (x ∷ xs) (y ∷ ys) = ground (arith, text_leb_total xs ys)

pub text_leb_trans :
    (xs ys zs : List ℕ) → text_leb xs ys ≡ true → text_leb ys zs ≡ true → text_leb xs zs ≡ true
unfolding text_leb
text_leb_trans [] ys zs h k = refl
text_leb_trans (x ∷ xs) [] zs h k = ground arith
text_leb_trans (x ∷ xs) (y ∷ ys) [] h k = ground arith
text_leb_trans (x ∷ xs) (y ∷ ys) (z ∷ zs) h k = ground (arith, text_leb_trans xs ys zs)

pub text_leb_antisymm : (xs ys : List ℕ) → text_leb xs ys ≡ true → text_leb ys xs ≡ true → xs ≡ ys
unfolding text_leb
text_leb_antisymm [] [] h k = refl
text_leb_antisymm [] (y ∷ ys) h k = ground arith
text_leb_antisymm (x ∷ xs) [] h k = ground arith
text_leb_antisymm (x ∷ xs) (y ∷ ys) h k = ground (arith, text_leb_antisymm xs ys)
