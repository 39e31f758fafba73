-- ===== src/Prelude/Text.antt =====
-- Texts as lists of code points, and the methods of `str` that the program calls.
mod Order
mod Split
mod Number
use Prim.Native.Char.{code}
use Prim.Native.Nat.{ℕ}
use Prim.Native.String.{String}
use mathlib.Core.List.{List, [], ◌∷◌}
unfoldable pub use Order.*
unfoldable pub use Split.*
unfoldable pub use Number.*

abbrev pub Text : Type 0
Text = List ℕ

-- A literal. `String` has its own `[]` and `∷`.
abbrev pub text : String → Text
text String.[] = []
text (String.◌∷◌ c s) = code c ∷ text s
