-- ===== src/Backups/Laws.antt =====
-- What is reported of a backup run and of the guests that none covers.
use mathlib.Core.Path.{subst}
use proxmoxve_integration.Prelude.{
  ℕ, suc, ◌+◌, ◌-◌, ◌*◌, ◌/◌, ◌≤◌, ◌<◌, ◌≡◌, refl, List, [], ◌∷◌, Bool, true, false, not, Option,
  none, some, list_eq, nat_eq, length, any, keep, is_empty, arith, Bool-cases, inl, inr,
}
use proxmoxve_integration.Prelude.Int.{ℤ, pos, negsuc, int_leb, rise, raise_by}
use proxmoxve_integration.Prelude.Text.{Text, text}
use proxmoxve_integration.Json
use proxmoxve_integration.Json.{
  Value, null, bool, int, float, str, arr, obj, Fields, find, get, is_text, rows, dicts,
}
use proxmoxve_integration.Updates.Laws.{is_some}
use proxmoxve_integration.Backups.{
  Stamp, raised, undefined, at, time?, duration_of, ProxmoxBackupData, RunningBackup,
  is_backup_task, is_raised, backup_tasks, parse_backup, parse_running_backup, task_timestamp,
  backup_from, running_of, parse_backup_info, uncovered_guests,
}

-- Whole seconds from one time to another, rounded down.
abbrev pub IsDuration : ℤ → ℤ → ℕ → Type 0
IsDuration s f d =
    (int_leb (raise_by s (d * 1000000)) f ≡ true)
    × (int_leb (raise_by s (suc d * 1000000)) f ≡ false)

-- What a duration should be: there exactly if both times are known and in order.
abbrev pub DurationFits : Option ℤ → Option ℤ → Option ℕ → Type 0
DurationFits (some s) (some f) (some d) = IsDuration s f d
DurationFits (some s) (some f) none = int_leb s f ≡ false
DurationFits none f (some d) = ⊥
DurationFits (some s) none (some d) = ⊥
DurationFits none f none = Unit
DurationFits (some s) none none = Unit

divides : (n : ℕ) → (n / 1000000 * 1000000 ≤ n) × (n < suc (n / 1000000) * 1000000)
divides n = (omega arith, omega arith)

rise-IsDuration : (s f : ℤ) → int_leb s f ≡ true → IsDuration s f (rise s f / 1000000)
rise-IsDuration (pos a) (pos b) h =
    (ground (arith, divides (b - a), h), ground (arith, divides (b - a), h))
rise-IsDuration (pos a) (negsuc b) h = ground arith
rise-IsDuration (negsuc a) (pos b) h =
    (ground (arith, divides (suc (b + a))), ground (arith, divides (suc (b + a))))
rise-IsDuration (negsuc a) (negsuc b) h =
    (ground (arith, divides (a - b), h), ground (arith, divides (a - b), h))

duration_of-DurationFits : (s f : Stamp) → DurationFits (time? s) (time? f) (duration_of s f)
unfolding duration_of
duration_of-DurationFits raised raised = tt
duration_of-DurationFits raised undefined = tt
duration_of-DurationFits raised (at f) = tt
duration_of-DurationFits undefined raised = tt
duration_of-DurationFits undefined undefined = tt
duration_of-DurationFits undefined (at f) = tt
duration_of-DurationFits (at s) raised = tt
duration_of-DurationFits (at s) undefined = tt
duration_of-DurationFits (at s) (at f) = elim (Bool-cases (int_leb s f)) [
  | inl h ↦ rw (h) (rise-IsDuration s f h)
  | inr h ↦ rw (h) h
]

abbrev Reported : Option ProxmoxBackupData → Type 0
Reported none = Unit
Reported (some b) = DurationFits b.started b.finished b.duration

module _ (repr : Value → Text) (utc : Value → Option ℤ) where
  Reported-backup_from :
      (node : Text) (active : Option RunningBackup) (tasks : List Fields)
      → Reported (backup_from repr utc node active tasks)
  Reported-backup_from node none [] = tt
  Reported-backup_from node (some r) [] = tt
  Reported-backup_from node active (task ∷ tasks) =
      let s = task_timestamp repr utc (get (text "starttime") task) in
      let f = task_timestamp repr utc (get (text "endtime") task) in
      ground (arith, duration_of-DurationFits s f)

-- Of a backup run that is reported, the duration is there exactly if both its times are and the run did not
-- end before it began, and it is the whole seconds between them, rounded down.
parse_backup-DurationFits :
    (repr : Value → Text) (utc : Value → Option ℤ) (entries : List Value) (node : Text)
    (active : Value) (b : ProxmoxBackupData)
    → parse_backup repr utc entries node active ≡ some b
    → DurationFits b.started b.finished b.duration
unfolding parse_backup
parse_backup-DurationFits repr utc entries node active b h = subst Reported h (
    Reported-backup_from repr utc node (parse_running_backup repr utc active)
      (backup_tasks entries))

abbrev Runs : Option RunningBackup → Bool → Type 0
Runs none busy = ⊥
Runs (some r) busy = r.running ≡ busy

abbrev Counts : Option ProxmoxBackupData → ℕ → Bool → Type 0
Counts none n busy = ⊥
Counts (some b) n busy = (b.runs ≡ n) × (b.running.running ≡ busy)

keep-any {ℓ} : {A : Type ℓ} (p : A → Bool) (xs : List A) → not (is_empty (keep p xs)) ≡ any p xs
keep-any p [] = refl
keep-any p (x ∷ xs) = ground (arith, keep-any p xs)

module _ (repr : Value → Text) (utc : Value → Option ℤ)
    (total : (v : Value) → is_some (utc v) ≡ true) where
  task_timestamp_total : (v : Value) → is_raised repr utc (task_timestamp repr utc v) ≡ false
  unfolding task_timestamp
  task_timestamp_total null = refl
  task_timestamp_total (bool b) = refl
  task_timestamp_total (int n) = ground (arith, total (int n))
  task_timestamp_total (float m k) = ground (arith, total (float m k))
  task_timestamp_total (str t) = refl
  task_timestamp_total (arr vs) = refl
  task_timestamp_total (obj fs) = refl

  running_of-Runs : (tasks : List Fields) → Runs (running_of repr utc tasks) (not (is_empty tasks))
  running_of-Runs [] = refl
  running_of-Runs (task ∷ tasks) =
      ground (arith, task_timestamp_total (get (text "starttime") task))

  backup_from-Counts :
      (node : Text) (active : Option RunningBackup) (busy : Bool) (tasks : List Fields)
      → Runs active busy
      → Counts (backup_from repr utc node active tasks) (length tasks) busy
  backup_from-Counts node none busy tasks h = ground arith
  backup_from-Counts node (some r) busy [] h = (refl, h)
  backup_from-Counts node (some r) busy (task ∷ tasks) h = ground (
    arith,
    h,
    task_timestamp_total (get (text "starttime") task),
    task_timestamp_total (get (text "endtime") task),
  )

counted :
    (o : Option ProxmoxBackupData) (n : ℕ) (busy : Bool)
    → Counts o n busy
    → (b : ProxmoxBackupData) × (o ≡ some b) × (b.runs ≡ n) × (b.running.running ≡ busy)
counted none n busy h = ground arith
counted (some b) n busy h = (b, refl, h.0, h.1)

-- Where every number is a time, a node's log is always understood: it counts the backup runs, and says
-- that one is running exactly if the active tasks hold one.
parse_backup_counts :
    (repr : Value → Text) (utc : Value → Option ℤ) (entries : List Value) (node : Text)
    (active : Value)
    → ((v : Value) → is_some (utc v) ≡ true)
    → (b : ProxmoxBackupData) × (parse_backup repr utc entries node active ≡ some b)
      × (b.runs ≡ length (backup_tasks entries))
      × (b.running.running ≡ any is_backup_task (dicts (rows active)))
unfolding parse_backup
parse_backup_counts repr utc entries node active total =
    let busy = backup_tasks (rows active) in
    counted (parse_backup repr utc entries node active) (length (backup_tasks entries)) _ (
      rw (← keep-any is_backup_task (dicts (rows active))) (
        backup_from-Counts repr utc total node (parse_running_backup repr utc active)
          (not (is_empty busy)) (backup_tasks entries) (running_of-Runs repr utc total busy)))

length-uncovered_guests :
    (rows : List Fields)
    → length (uncovered_guests rows) ≡ length (keep (λ fs. Json.has (text "vmid") fs) rows)
length-uncovered_guests [] = refl
length-uncovered_guests (fs ∷ rows) = ground (arith, length-uncovered_guests rows)

any-uncovered_guests :
    (f : Value → Bool) (rows : List Fields)
    → any (λ g. f g.vmid) (uncovered_guests rows)
      ≡ any (λ fs. elim (find (text "vmid") fs) [ none ↦ false | some v ↦ f v ]) rows
any-uncovered_guests f [] = refl
any-uncovered_guests f (fs ∷ rows) = ground (arith, any-uncovered_guests f rows)

-- The guests without a backup are counted, and are those of the entries that carry an id.
parse_backup_info_exact :
    (entries : List Value) (f : Value → Bool)
    → let d = parse_backup_info entries in
      (d.guests_without_backup ≡ length d.guests)
      × (length d.guests ≡ length (keep (λ fs. Json.has (text "vmid") fs) (dicts entries)))
      × (any (λ g. f g.vmid) d.guests
          ≡ any
              (λ fs. elim (find (text "vmid") fs) [ none ↦ false | some v ↦ f v ])
              (dicts entries))
unfolding parse_backup_info
parse_backup_info_exact entries f =
    (refl, length-uncovered_guests (dicts entries), any-uncovered_guests f (dicts entries))
