-- ===== src/Health/Replicas.antt =====
-- What is reported of a node's replication: the failing jobs, and the oldest sync among those that run.
use mathlib.Core.Path.{subst}
use mathlib.Core.Option.{some-injective}
use proxmoxve_integration.Prelude.{
  ◌≡◌, refl, ap, sym, ◌∙◌, List, [], ◌∷◌, Bool, true, not, Option, none, some, ◌==◌, ◌&&◌, ◌||◌,
  if◌then◌else◌, list_eq, nat_eq, contains, arith, option_eq, Option-cases, inl, inr, collect, any,
  All, is_empty,
}
use proxmoxve_integration.Prelude.Float.{Float}
use proxmoxve_integration.Prelude.Int.{ℤ, pos, negsuc, int_eq, int_leb}
use proxmoxve_integration.Prelude.Text.{Text, text}
use proxmoxve_integration.Json
use proxmoxve_integration.Json.{Value, Fields, get, dicts, truthy}
use proxmoxve_integration.Health.{
  is_failing, failing_jobs, job_rows, active_jobs, sync_time, sync_times, least, oldest,
  parse_replication,
}

-- A job that somebody has not turned off.
abbrev pub is_active_job : Fields → Bool
is_active_job fs = Json.has (text "id") fs && not (truthy (get (text "disable") fs))

int_leb_refl : (a : ℤ) → int_leb a a ≡ true
int_leb_refl (pos a) = ground arith
int_leb_refl (negsuc a) = ground arith

int_leb_total : (a b : ℤ) → (int_leb a b || int_leb b a) ≡ true
int_leb_total (pos a) (pos b) = ground arith
int_leb_total (pos a) (negsuc b) = refl
int_leb_total (negsuc a) (pos b) = refl
int_leb_total (negsuc a) (negsuc b) = ground arith

int_leb_trans : (a b c : ℤ) → int_leb a b ≡ true → int_leb b c ≡ true → int_leb a c ≡ true
int_leb_trans (pos a) (pos b) (pos c) h k = ground (arith, h, k)
int_leb_trans (pos a) (pos b) (negsuc c) h k = ground (arith, k)
int_leb_trans (pos a) (negsuc b) c h k = ground (arith, h)
int_leb_trans (negsuc a) (pos b) (pos c) h k = refl
int_leb_trans (negsuc a) (pos b) (negsuc c) h k = ground (arith, k)
int_leb_trans (negsuc a) (negsuc b) (pos c) h k = refl
int_leb_trans (negsuc a) (negsuc b) (negsuc c) h k = ground (arith, h, k)

least-le : (best : ℤ) (ts : List ℤ) → int_leb (least best ts) best ≡ true
least-le best [] = int_leb_refl best
least-le best (t ∷ ts) = ground (
  arith,
  least-le best ts,
  least-le t ts,
  int_leb_total best t,
  int_leb_trans (least t ts) t best,
)

not_above : (a b : ℤ) → int_leb (if int_leb a b then a else b) b ≡ true
not_above a b = ground (arith, int_leb_refl b)

least-lower : (best : ℤ) (ts : List ℤ) → All (λ t. int_leb (least best ts) t ≡ true) ts
least-lower best [] = tt
least-lower best (t ∷ ts) =
    let m = if int_leb best t then best else t in
    (int_leb_trans (least m ts) m t (least-le m ts) (not_above best t), least-lower m ts)

least-contains : (best : ℤ) (ts : List ℤ) → contains (best ∷ ts) (least best ts) ≡ true
least-contains best [] = ground arith
least-contains best (t ∷ ts) = ground (arith, least-contains best ts, least-contains t ts)

-- When a row that is an active job was last synced.
abbrev pub active_sync : (Float → Option ℤ) → Fields → Option ℤ
active_sync utc fs = if is_active_job fs then sync_time utc fs else none

sync_times-collect :
    (utc : Float → Option ℤ) (rows : List Fields)
    → sync_times utc (active_jobs (job_rows rows)) ≡ collect (active_sync utc) rows
sync_times-collect utc [] = refl
sync_times-collect utc (fs ∷ rows) = ground (arith, sync_times-collect utc rows)

abbrev pub NotBefore : ℤ → Option ℤ → Type 0
NotBefore t none = Unit
NotBefore t (some u) = int_leb t u ≡ true

module _ (f : Fields → Option ℤ) (t : ℤ) where
  All-with :
      (o : Option ℤ) (ts : List ℤ)
      → All (λ u. int_leb t u ≡ true) (elim o [ none ↦ ts | some u ↦ u ∷ ts ])
      → NotBefore t o × All (λ u. int_leb t u ≡ true) ts
  All-with none ts h = (tt, h)
  All-with (some u) ts h = h

  All-collect :
      (rows : List Fields)
      → All (λ u. int_leb t u ≡ true) (collect f rows)
      → All (λ fs. NotBefore t (f fs)) rows
  All-collect [] h = tt
  All-collect (fs ∷ rows) h =
      let (first, rest) = All-with (f fs) (collect f rows) h in (first, All-collect rows rest)

  contains-collect :
      (rows : List Fields) → contains (collect f rows) t ≡ any (λ fs. f fs == some t) rows
  contains-collect [] = refl
  contains-collect (fs ∷ rows) = ground (arith, contains-collect rows)

oldest-least :
    (ts : List ℤ) (t : ℤ)
    → oldest ts ≡ some t
    → All (λ u. int_leb t u ≡ true) ts × (contains ts t ≡ true)
oldest-least [] t h = ground (arith, h)
oldest-least (u ∷ ts) t h =
    subst (λ v. All (λ w. int_leb v w ≡ true) (u ∷ ts) × (contains (u ∷ ts) v ≡ true))
      (some-injective (least u ts) t h) ((least-le u ts, least-lower u ts), least-contains u ts)

failing_jobs-any :
    (repr : Value → Text) (rows : List Fields)
    → not (is_empty (failing_jobs repr (active_jobs (job_rows rows))))
      ≡ any (λ fs. is_active_job fs && is_failing fs) rows
failing_jobs-any repr [] = refl
failing_jobs-any repr (fs ∷ rows) = ground (arith, failing_jobs-any repr rows)

-- Where there is no oldest sync, no job has one; otherwise it is one of theirs, and none is before it.
abbrev pub IsOldest : (Float → Option ℤ) → Option ℤ → List Fields → Type 0
IsOldest utc none rows = All (λ fs. active_sync utc fs ≡ none) rows
IsOldest utc (some t) rows =
    All (λ fs. NotBefore t (active_sync utc fs)) rows
    × (any (λ fs. active_sync utc fs == some t) rows ≡ true)

cons_not_nil : (t : ℤ) (ts : List ℤ) → t ∷ ts ≡ [] → ⊥
cons_not_nil t ts h = ground (arith, h)

All-nothing :
    (f : Fields → Option ℤ) (rows : List Fields)
    → collect f rows ≡ []
    → All (λ fs. f fs ≡ none) rows
All-nothing f [] h = tt
All-nothing f (fs ∷ rows) h = elim (Option-cases (f fs)) [
  | inl nothing ↦ (
    nothing,
    All-nothing f rows (
        sym (ap (λ o. elim o [ none ↦ collect f rows | some y ↦ y ∷ collect f rows ]) nothing) ∙ h),
  )
  | inr (t, found) ↦ absurd (
      cons_not_nil t (collect f rows)
        (sym (ap (λ o. elim o [ none ↦ collect f rows | some y ↦ y ∷ collect f rows ]) found) ∙ h))
]

oldest-nothing : (ts : List ℤ) → oldest ts ≡ none → ts ≡ []
oldest-nothing [] h = refl
oldest-nothing (t ∷ ts) h = ground (arith, h)

oldest-IsOldest :
    (utc : Float → Option ℤ) (o : Option ℤ) (rows : List Fields)
    → oldest (collect (active_sync utc) rows) ≡ o
    → IsOldest utc o rows
oldest-IsOldest utc none rows h =
    All-nothing (active_sync utc) rows (oldest-nothing (collect (active_sync utc) rows) h)
oldest-IsOldest utc (some t) rows h =
    let best = oldest-least (collect (active_sync utc) rows) t h in
    (
      All-collect (active_sync utc) t rows best.0,
      sym (contains-collect (active_sync utc) t rows) ∙ best.1,
    )

-- Whatever the API answers, a node is failing exactly if a replication job that is not turned off counts
-- failures; its oldest sync is not after the last sync of any such job and is that of one of them, and it is
-- missing exactly where no such job was ever synced.
pub parse_replication-IsOldest :
    (repr : Value → Text) (utc : Float → Option ℤ) (entries : List Value) (node : Text)
    → let told = parse_replication repr utc entries node in
      (told.failing ≡ any (λ fs. is_active_job fs && is_failing fs) (dicts entries))
      × IsOldest utc told.oldest_sync (dicts entries)
unfolding parse_replication
parse_replication-IsOldest repr utc entries node =
    let rows = dicts entries in
    (
      failing_jobs-any repr rows,
      oldest-IsOldest utc (oldest (sync_times utc (active_jobs (job_rows rows)))) rows
          (ap oldest (sym (sync_times-collect utc rows))),
    )
