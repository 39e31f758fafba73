-- ===== src/Prelude/Text/Split.antt =====
-- `split`, `join`, `strip`, `startswith`, `partition`, `replace` and `count` of `str`.
use Prim.Native.Nat.{ℕ, zero, suc, ◌-◌, ◌+◌}
use mathlib.Core.Path.{◌≡◌, refl, ap}
use mathlib.Core.Logic.{◌≢◌}
use mathlib.Core.Bool.{Bool, true, false, ◌||◌, ◌&&◌}
use mathlib.Core.List.{List, [], ◌∷◌, ◌++◌}
use native.Mathlib.Omega.{arith}
use proxmoxve_integration.Prelude.Equality.{◌==◌, nat_eq, list_eq, if◌then◌else◌, contains, leb}
use proxmoxve_integration.Prelude.Lists.{drop, is_empty, length, All}

-- `sep.join(parts)` for a separator of one character
unfoldable pub join : ℕ → List (List ℕ) → List ℕ
join sep [] = []
join sep (p ∷ []) = p
join sep (p ∷ q ∷ ps) = p ++ sep ∷ join sep (q ∷ ps)

-- `sep.join(parts)` for any separator
unfoldable pub join_by : List ℕ → List (List ℕ) → List ℕ
join_by sep [] = []
join_by sep (p ∷ []) = p
join_by sep (p ∷ q ∷ ps) = p ++ (sep ++ join_by sep (q ∷ ps))

abbrev pub cons_head : ℕ → List (List ℕ) → List (List ℕ)
cons_head c [] = (c ∷ []) ∷ []
cons_head c (p ∷ ps) = (c ∷ p) ∷ ps

-- `s.split(sep)`
unfoldable pub split : ℕ → List ℕ → List (List ℕ)
split sep [] = [] ∷ []
split sep (c ∷ s) = let rest = split sep s in if c == sep then [] ∷ rest else cons_head c rest

-- `s.rsplit(sep, 1)[-1]`, the part behind the last separator
unfoldable pub last_part : ℕ → List ℕ → List ℕ
last_part sep [] = []
last_part sep (c ∷ s) = if contains s sep then last_part sep s else if c == sep then s else c ∷ s

-- `s.count(sep)`
unfoldable pub count_char : ℕ → List ℕ → ℕ
count_char sep [] = 0
count_char sep (c ∷ s) = let n = count_char sep s in if c == sep then n + 1 else n

-- `s.lstrip(chars)` and `s.rstrip(chars)`, the characters given by a test
unfoldable pub lstrip_by : (ℕ → Bool) → List ℕ → List ℕ
lstrip_by p [] = []
lstrip_by p (c ∷ s) = if p c then lstrip_by p s else c ∷ s

unfoldable pub rstrip_by : (ℕ → Bool) → List ℕ → List ℕ
rstrip_by p [] = []
rstrip_by p (c ∷ s) = let rest = rstrip_by p s in if p c && is_empty rest then [] else c ∷ rest

unfoldable pub strip_by : (ℕ → Bool) → List ℕ → List ℕ
unfolding lstrip_by rstrip_by
strip_by p s = rstrip_by p (lstrip_by p s)

-- What `str.strip()` takes for white space.
abbrev pub is_space : ℕ → Bool
is_space c =
    (leb 9 c && leb c 13)
    || (leb 28 c && leb c 32)
    || c == 133
    || c == 160
    || c == 5760
    || (leb 8192 c && leb c 8202)
    || c == 8232
    || c == 8233
    || c == 8239
    || c == 8287
    || c == 12288

-- `s.startswith(prefix)`, the prefix first
unfoldable pub starts_with : List ℕ → List ℕ → Bool
starts_with [] s = true
starts_with (p ∷ ps) [] = false
starts_with (p ∷ ps) (c ∷ s) = p == c && starts_with ps s

-- `s.endswith(suffix)`, the suffix first
unfoldable pub ends_with : List ℕ → List ℕ → Bool
ends_with suffix [] = is_empty suffix
ends_with suffix (c ∷ s) = (c ∷ s) == suffix || ends_with suffix s

-- `s.partition(sep)`, without the separator: before the first one, and behind it
unfoldable pub partition : ℕ → List ℕ → List ℕ × List ℕ
partition sep [] = ([], [])
partition sep (c ∷ s) =
    let (before, behind) = partition sep s in if c == sep then ([], s) else (c ∷ before, behind)

-- `s.replace(old, "")`, `skip` characters of a match still to pass
unfoldable pub remove_from : ℕ → List ℕ → List ℕ → List ℕ
unfolding starts_with
remove_from skip old [] = []
remove_from (suc skip) old (c ∷ s) = remove_from skip old s
remove_from zero old (c ∷ s) =
    let passed = remove_from (length old - 1) old s in
    let kept = remove_from zero old s in if starts_with old (c ∷ s) then passed else c ∷ kept

unfoldable pub remove_all : List ℕ → List ℕ → List ℕ
unfolding remove_from
remove_all old s = remove_from 0 old s

abbrev pub Lacks : ℕ → List ℕ → Type 0
Lacks sep s = contains s sep ≡ false

split-ne-nil : (sep : ℕ) (s : List ℕ) → split sep s ≢ []
unfolding split
split-ne-nil sep [] = ground arith
split-ne-nil sep (c ∷ s) = ground arith

pub split_of_Lacks : (sep : ℕ) (p : List ℕ) → Lacks sep p → split sep p ≡ p ∷ []
unfolding split
split_of_Lacks sep [] h = refl
split_of_Lacks sep (c ∷ p) h = ground (arith, split_of_Lacks sep p)

split-append : (sep : ℕ) (p s : List ℕ) → Lacks sep p → split sep (p ++ sep ∷ s) ≡ p ∷ split sep s
unfolding split
split-append sep [] s h = ground arith
split-append sep (c ∷ p) s h = ground (arith, split-append sep p s)

-- Splitting what was joined gives the parts back, if none holds the separator.
pub split-join :
    (sep : ℕ) (p : List ℕ) (ps : List (List ℕ))
    → All (Lacks sep) (p ∷ ps)
    → split sep (join sep (p ∷ ps)) ≡ p ∷ ps
unfolding join
split-join sep p [] h = split_of_Lacks sep p h.0
split-join sep p (q ∷ ps) h =
    rw (split-append sep p (join sep (q ∷ ps)) h.0) (ap (λ t. p ∷ t) (split-join sep q ps h.1))

pub starts_with-append : (p s : List ℕ) → starts_with p (p ++ s) ≡ true
unfolding starts_with
starts_with-append [] s = refl
starts_with-append (c ∷ p) s = ground (arith, starts_with-append p s)

pub drop-append : (p s : List ℕ) → drop (length p) (p ++ s) ≡ s
drop-append [] s = refl
drop-append (c ∷ p) s = drop-append p s

pub starts_with→append : (p s : List ℕ) → starts_with p s ≡ true → s ≡ p ++ drop (length p) s
unfolding starts_with
starts_with→append [] s h = refl
starts_with→append (c ∷ p) [] h = ground arith
starts_with→append (c ∷ p) (d ∷ s) h = ground (arith, starts_with→append p s)

pub append_cancel_left : (p s t : List ℕ) → p ++ s ≡ p ++ t → s ≡ t
append_cancel_left [] s t h = h
append_cancel_left (c ∷ p) s t h = append_cancel_left p s t (cc)

contains-append_sep : (a : List ℕ) (sep : ℕ) (s : List ℕ) → contains (a ++ sep ∷ s) sep ≡ true
contains-append_sep [] sep s = ground arith
contains-append_sep (c ∷ a) sep s = ground (arith, contains-append_sep a sep s)

pub last_part_of_Lacks : (sep : ℕ) (s : List ℕ) → Lacks sep s → last_part sep s ≡ s
unfolding last_part
last_part_of_Lacks sep [] h = refl
last_part_of_Lacks sep (c ∷ s) h = ground arith

-- The part behind the last separator.
pub last_part-append : (sep : ℕ) (a s : List ℕ) → Lacks sep s → last_part sep (a ++ sep ∷ s) ≡ s
unfolding last_part
last_part-append sep [] s h = ground arith
last_part-append sep (c ∷ a) s h =
    ground (arith, last_part-append sep a s, contains-append_sep a sep s)

pub last_part-Lacks : (sep : ℕ) (s : List ℕ) → Lacks sep (last_part sep s)
unfolding last_part
last_part-Lacks sep [] = refl
last_part-Lacks sep (c ∷ s) = ground (arith, last_part-Lacks sep s)

pub count_char_of_Lacks : (sep : ℕ) (s : List ℕ) → Lacks sep s → count_char sep s ≡ 0
unfolding count_char
count_char_of_Lacks sep [] h = refl
count_char_of_Lacks sep (c ∷ s) h = ground (arith, count_char_of_Lacks sep s)

pub count_char-append :
    (sep : ℕ) (s t : List ℕ) → count_char sep (s ++ t) ≡ count_char sep s + count_char sep t
unfolding count_char
count_char-append sep [] t = omega arith
count_char-append sep (c ∷ s) t = ground (arith, count_char-append sep s t)

-- The last character, of a text that has one.
unfoldable pub last_char : List ℕ → ℕ
last_char [] = 0
last_char (c ∷ []) = c
last_char (c ∷ d ∷ s) = last_char (d ∷ s)

pub last_char-append :
    (s : List ℕ) (c : ℕ) (t : List ℕ) → last_char (s ++ c ∷ t) ≡ last_char (c ∷ t)
unfolding last_char
last_char-append [] c t = refl
last_char-append (a ∷ []) c t = refl
last_char-append (a ∷ b ∷ s) c t = last_char-append (b ∷ s) c t
