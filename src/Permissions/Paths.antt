-- ===== src/Permissions/Paths.antt =====
-- ACL paths as lists of segments: what `path_parts` and `candidates` of permissions.py make of
-- a path that is written out from its segments.
use native.Mathlib.Decide.{ℕ_discrete}
use mathlib.Core.List.{append-nil, append_assoc}
use proxmoxve_integration.Prelude.{
  ℕ, zero, suc, ◌≡◌, refl, ap, sym, ◌∙◌, List, [], ◌∷◌, ◌++◌, Bool, true, false, map, arith, All,
  nat_eq, is_empty, length, take, any, ◌≤◌, inl, inr, Bool-cases,
}
use proxmoxve_integration.Prelude.Text.{
  Text, text, join, split-join, lstrip_by, rstrip_by, strip_by, Lacks,
}
use proxmoxve_integration.Permissions.{is_slash, path_parts, candidates, countdown}

-- A segment of a path: not empty, and without a slash.
abbrev pub IsSegment : Text → Type 0
IsSegment p = (is_empty p ≡ false) × Lacks b'/' p

-- `/vms/100` for `vms`, `100`; the root for no segment.
abbrev pub render : List Text → Text
render parts = b'/' ∷ join b'/' parts

lstrip_segment : (p s : Text) → IsSegment p → lstrip_by is_slash (p ++ s) ≡ p ++ s
unfolding lstrip_by
lstrip_segment [] s h = ground arith
lstrip_segment (c ∷ p) s h = ground arith

rstrip_segment : (p : Text) → Lacks b'/' p → rstrip_by is_slash p ≡ p
unfolding rstrip_by
rstrip_segment [] h = refl
rstrip_segment (c ∷ p) h = ground (arith, rstrip_segment p)

rstrip-append :
    (s t : Text)
    → rstrip_by is_slash t ≡ t
    → is_empty t ≡ false
    → rstrip_by is_slash (s ++ t) ≡ s ++ t
unfolding rstrip_by
rstrip-append [] t h k = h
rstrip-append (c ∷ s) [] h k = ground arith
rstrip-append (c ∷ []) (d ∷ t) h k = ground (arith, rstrip-append [] (d ∷ t))
rstrip-append (c ∷ e ∷ s) (d ∷ t) h k = ground (arith, rstrip-append (e ∷ s) (d ∷ t))

is_empty-append : (s t : Text) → is_empty t ≡ false → is_empty (s ++ t) ≡ false
is_empty-append [] t h = h
is_empty-append (c ∷ s) t h = refl

is_empty-join :
    (p : Text) (ps : List Text) → All IsSegment (p ∷ ps) → is_empty (join b'/' (p ∷ ps)) ≡ false
unfolding join
is_empty-join p [] h = h.0.0
is_empty-join p (q ∷ ps) h = is_empty-append p (b'/' ∷ join b'/' (q ∷ ps)) refl

rstrip-join :
    (p : Text) (ps : List Text)
    → All IsSegment (p ∷ ps)
    → rstrip_by is_slash (join b'/' (p ∷ ps)) ≡ join b'/' (p ∷ ps)
unfolding join
rstrip-join p [] h = rstrip_segment p h.0.1
rstrip-join p (q ∷ ps) h =
    rstrip-append p (b'/' ∷ join b'/' (q ∷ ps))
      (rstrip-append (b'/' ∷ []) (join b'/' (q ∷ ps)) (rstrip-join q ps h.1)
        (is_empty-join q ps h.1))
      refl

-- `rstrip("/")` leaves a path alone that names something.
pub rstrip-render :
    (p : Text) (ps : List Text)
    → All IsSegment (p ∷ ps)
    → rstrip_by is_slash (render (p ∷ ps)) ≡ render (p ∷ ps)
rstrip-render p ps h =
    rstrip-append (b'/' ∷ []) (join b'/' (p ∷ ps)) (rstrip-join p ps h) (is_empty-join p ps h)

lstrip-join :
    (p : Text) (ps : List Text)
    → All IsSegment (p ∷ ps)
    → lstrip_by is_slash (join b'/' (p ∷ ps)) ≡ join b'/' (p ∷ ps)
unfolding join
lstrip-join p [] h = rw (← append-nil p) (lstrip_segment p [] h.0)
lstrip-join p (q ∷ ps) h = lstrip_segment p (b'/' ∷ join b'/' (q ∷ ps)) h.0

All-Lacks : (ps : List Text) → All IsSegment ps → All (Lacks b'/') ps
All-Lacks [] h = tt
All-Lacks (p ∷ ps) h = (h.0.1, All-Lacks ps h.1)

strip-render :
    (p : Text) (ps : List Text)
    → All IsSegment (p ∷ ps)
    → strip_by is_slash (render (p ∷ ps)) ≡ join b'/' (p ∷ ps)
unfolding strip_by
strip-render p ps h =
    ap (rstrip_by is_slash) (lstrip_slash ∙ lstrip-join p ps h) ∙ rstrip-join p ps h
  where
    lstrip_slash : lstrip_by is_slash (render (p ∷ ps)) ≡ lstrip_by is_slash (join b'/' (p ∷ ps))
    lstrip_slash = ground arith

pub path_parts-render :
    (parts : List Text) → All IsSegment parts → path_parts (render parts) ≡ parts
unfolding path_parts strip_by lstrip_by rstrip_by join
path_parts-render [] h = ground arith
path_parts-render (p ∷ ps) h =
    rw (strip-render p ps h, is_empty-join p ps h) (split-join b'/' p ps (All-Lacks (p ∷ ps) h))

-- The candidates of a rendered path, as a walk over its segments.
pub candidates-render :
    (parts : List Text)
    → All IsSegment parts
    → candidates (render parts)
      ≡ map (λ depth. render (take depth parts)) (countdown (length parts)) ++ text "/" ∷ []
unfolding candidates
candidates-render parts h = rw (path_parts-render parts h)

join-append :
    (p : Text) (ps : List Text) (q : Text) (qs : List Text)
    → join b'/' ((p ∷ ps) ++ q ∷ qs) ≡ join b'/' (p ∷ ps) ++ b'/' ∷ join b'/' (q ∷ qs)
unfolding join
join-append p [] q qs = refl
join-append p (r ∷ ps) q qs = rw (join-append r ps q qs) (sym (append_assoc p _ _))

-- A path below another begins with it and a slash.
pub render-append :
    (p : Text) (ps : List Text) (q : Text) (qs : List Text)
    → render ((p ∷ ps) ++ q ∷ qs) ≡ render (p ∷ ps) ++ b'/' ∷ join b'/' (q ∷ qs)
render-append p ps q qs = ap (λ t. b'/' ∷ t) (join-append p ps q qs)

pub render-nil : render [] ≡ text "/"
unfolding join
render-nil = refl

-- A test that some candidate of a rendered path passes, passes at a prefix of its segments.
pub any-countdown→prefix :
    (f : Text → Bool) (parts : List Text) (n : ℕ)
    → any f (map (λ depth. render (take depth parts)) (countdown n)) ≡ true
    → (depth : ℕ) × (f (render (take depth parts)) ≡ true)
any-countdown→prefix f parts zero h = ground arith
any-countdown→prefix f parts (suc n) h = elim (Bool-cases (f (render (take (suc n) parts)))) [
  | inl here ↦ (suc n, here)
  | inr other ↦ any-countdown→prefix f parts n (ground arith)
]

pub any-countdown_of_prefix :
    (f : Text → Bool) (parts : List Text) (n depth : ℕ)
    → suc depth ≤ n
    → f (render (take (suc depth) parts)) ≡ true
    → any f (map (λ d. render (take d parts)) (countdown n)) ≡ true
any-countdown_of_prefix f parts zero depth h k = absurd (omega arith)
any-countdown_of_prefix f parts (suc n) depth h k = elim (ℕ_discrete n depth) [
  | yes same ↦ rw same (ground arith)
  | no other ↦ ground (arith, any-countdown_of_prefix f parts n depth)
]
