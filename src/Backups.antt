-- ===== src/Backups.antt =====
-- coordinator.py: what a node's task log and the cluster's backup coverage say about backups. Times are
-- microseconds since the epoch. `utc` is `dt_util.utc_from_timestamp`, which raises out of its range, and
-- a duration is that of less than 270 years, where `total_seconds` is exact.
pub mod Laws
mod Tests
use proxmoxve_integration.Prelude.{
  ℕ, zero, ◌/◌, List, [], ◌∷◌, Bool, true, false, Option, none, some, ◌==◌, if◌then◌else◌, list_eq,
  nat_eq, length, keep,
}
use proxmoxve_integration.Prelude.Int.{ℤ, int_leb, rise}
use proxmoxve_integration.Prelude.Text.{Text, text}
use proxmoxve_integration.Json
use proxmoxve_integration.Json.{
  Value, null, bool, int, float, arr, Fields, find, get, is_text, text?, rows, dicts, text_if,
  text_unless_null,
}

-- What reading a time comes to: an exception, no time, or one.
pub data Stamp : Type 0 where
  raised : Stamp
  undefined : Stamp
  at : ℤ → Stamp

abbrev pub stamp_of : Option ℤ → Stamp
stamp_of none = raised
stamp_of (some t) = at t

abbrev pub time? : Stamp → Option ℤ
time? (at t) = some t
time? _ = none

pub record RunningBackup : Type 0 where
  pub running : Bool
  pub running_since : Option ℤ
  pub running_guests : Option Text

pub record ProxmoxBackupData : Type 0 where
  pub node : Text
  pub runs : ℕ
  pub finished : Option ℤ
  pub started : Option ℤ
  pub duration : Option ℕ
  pub status : Option Text
  pub guests : Option Text
  pub user : Option Text
  pub running : RunningBackup

abbrev pub is_backup_task : Fields → Bool
is_backup_task fs = is_text (text "vzdump") (get (text "type") fs)

-- The dicts of type `vzdump`.
abbrev pub backup_tasks : List Value → List Fields
backup_tasks vs = keep is_backup_task (dicts vs)

abbrev pub not_running : RunningBackup
not_running = record { running = false; running_since = none; running_guests = none }

-- Both times known and in order: the seconds between them.
unfoldable pub duration_of : Stamp → Stamp → Option ℕ
duration_of (at started) (at finished) =
    if int_leb started finished then some (rise started finished / 1000000) else none
duration_of _ _ = none

module _ (repr : Value → Text) (utc : Value → Option ℤ) where
  unfoldable pub task_timestamp : Value → Stamp
  task_timestamp (int n) = stamp_of (utc (int n))
  task_timestamp (float m k) = stamp_of (utc (float m k))
  task_timestamp _ = undefined

  abbrev pub running_task : Fields → Option RunningBackup
  running_task task = elim (task_timestamp (get (text "starttime") task)) [
    | raised ↦ none
    | undefined ↦ some (record {
      running = true;
      running_since = none;
      running_guests = text_if repr (get (text "id") task);
    })
    | at t ↦ some (record {
      running = true;
      running_since = some t;
      running_guests = text_if repr (get (text "id") task);
    })
  ]

  -- Of the active backup tasks, the first. `none` is an exception.
  abbrev pub running_of : List Fields → Option RunningBackup
  running_of [] = some not_running
  running_of (task ∷ tasks) = running_task task

  unfoldable pub parse_running_backup : Value → Option RunningBackup
  unfolding task_timestamp
  parse_running_backup active = running_of (backup_tasks (rows active))

  abbrev pub no_backup : Text → RunningBackup → ProxmoxBackupData
  no_backup node running = record {
    node = node;
    runs = 0;
    finished = none;
    started = none;
    duration = none;
    status = none;
    guests = none;
    user = none;
    running = running;
  }

  abbrev pub backup_of : Text → ℕ → Fields → RunningBackup → ProxmoxBackupData
  backup_of node runs task running =
      let started = task_timestamp (get (text "starttime") task) in
      let finished = task_timestamp (get (text "endtime") task) in
      record {
        node = node;
        runs = runs;
        finished = time? finished;
        started = time? started;
        duration = duration_of started finished;
        status = text_unless_null repr (get (text "status") task);
        guests = text_if repr (get (text "id") task);
        user = text_if repr (get (text "user") task);
        running = running;
      }

  abbrev pub is_raised : Stamp → Bool
  is_raised raised = true
  is_raised _ = false

  abbrev pub with_running :
      (RunningBackup → ProxmoxBackupData) → Option RunningBackup → Option ProxmoxBackupData
  with_running backup none = none
  with_running backup (some running) = some (backup running)

  -- Of the finished backup tasks, the first is the newest.
  abbrev pub backup_from : Text → Option RunningBackup → List Fields → Option ProxmoxBackupData
  backup_from node active [] = with_running (no_backup node) active
  backup_from node active (task ∷ tasks) =
      if is_raised (task_timestamp (get (text "starttime") task))
      then none
      else if is_raised (task_timestamp (get (text "endtime") task))
      then none
      else with_running (backup_of node (length (task ∷ tasks)) task) active

  unfoldable pub parse_backup : List Value → Text → Value → Option ProxmoxBackupData
  unfolding parse_running_backup duration_of
  parse_backup entries node active =
      backup_from node (parse_running_backup active) (backup_tasks entries)

-- A guest that no backup job covers.
pub record UncoveredGuest : Type 0 where
  pub vmid : Value
  pub kind : Option Text
  pub name : Option Text

pub record ProxmoxBackupInfoData : Type 0 where
  pub guests_without_backup : ℕ
  pub guests : List UncoveredGuest

abbrev pub uncovered_guest : Fields → Option UncoveredGuest
uncovered_guest fs = elim (find (text "vmid") fs) [
  | none ↦ none
  | some vmid ↦ some (record {
    vmid = vmid;
    kind = text? (get (text "type") fs);
    name = text? (get (text "name") fs);
  })
]

abbrev pub uncovered_guests : List Fields → List UncoveredGuest
uncovered_guests [] = []
uncovered_guests (fs ∷ rows) =
    let rest = uncovered_guests rows in
    elim (uncovered_guest fs) [ none ↦ rest | some guest ↦ guest ∷ rest ]

unfoldable pub parse_backup_info : List Value → ProxmoxBackupInfoData
parse_backup_info entries =
    let guests = uncovered_guests (dicts entries) in
    record { guests_without_backup = length guests; guests = guests }
