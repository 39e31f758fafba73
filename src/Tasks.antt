-- ===== src/Tasks.antt =====
-- coordinator.py: the failed tasks of a node, and the update of the task coordinator. `local` writes a time in
-- seconds in the time zone of Home Assistant, which raises out of its range; `now` is the time in seconds.
pub mod Failures
mod Tests
use proxmoxve_integration.Prelude.{
  ℕ, List, [], ◌∷◌, ◌++◌, Bool, true, false, not, Option, none, some, ◌&&◌, ◌||◌, if◌then◌else◌,
  length, take, is_empty, list_eq, nat_eq,
}
use proxmoxve_integration.Prelude.Int.{ℤ, pos, negsuc, int_leb, raise_by}
use proxmoxve_integration.Prelude.Sort.{sort_by}
use proxmoxve_integration.Prelude.Text.{Text, text, text_leb}
use proxmoxve_integration.Json.{Value, str, obj, Fields, find, is_text, iterate}
use proxmoxve_integration.Const.{ProxmoxType}
use proxmoxve_integration.Api.{Reply}
use proxmoxve_integration.Issues.Registry.{IssueRegistry}
use proxmoxve_integration.Issues.{ConfigEntry}
use proxmoxve_integration.Permissions.{int_of}
use proxmoxve_integration.Poll.{State, poll_api}
use proxmoxve_integration.Coordinators.{is_null, read_for, node_path}
use proxmoxve_integration.Coordinators.Monad.{Action, pure, or_crash, answer_of, ◌>>=◌}

pub record FailedTask : Type 0 where
  pub type_of : Value
  pub starttime : Text
  pub endtime : Text
  pub status : Value

pub record ProxmoxTaskData : Type 0 where
  pub node : Text
  pub failed_count : ℕ
  pub recent_failures : Option (List FailedTask)
  pub last_failure_time : Option Text

-- `task.get(key, default)`
abbrev pub get_or : Text → Value → Fields → Value
get_or key default fs = elim (find key fs) [ none ↦ default | some v ↦ v ]

abbrev pub seconds_of : Text → Fields → Option ℤ
seconds_of key fs = int_of (get_or key (Value.int (pos 0)) fs)

-- The test of a task by its status and its start.
unfoldable pub has_failed : ℕ → Value → ℤ → Bool
has_failed now status start =
    not (is_text (text "OK") status || is_text (text "running") status)
    && (not (int_leb (raise_by start 86400) (pos now)) && not (is_text [] status))

module _ (local : ℤ → Option Text) where
  abbrev pub end_text : ℤ → Option Text
  end_text end_time = if int_leb end_time (pos 0) then some (text "N/A") else local end_time

  abbrev pub failure_of : Fields → Value → ℤ → ℤ → Option FailedTask
  failure_of fs status start end_time = elim (local start) [
    | none ↦ none
    | some from ↦ elim (end_text end_time) [
      | none ↦ none
      | some to ↦ some (record {
        type_of = get_or (text "type") (str (text "unknown")) fs;
        starttime = from;
        endtime = to;
        status = status;
      })
    ]
  ]

  abbrev pub kept : Bool → Option FailedTask → Option (Option FailedTask)
  kept false o = some none
  kept true none = none
  kept true (some f) = some (some f)

  -- What one task adds; the outer `none` is an exception.
  abbrev pub task_failure : ℕ → Fields → Option ℤ → Option ℤ → Option (Option FailedTask)
  task_failure now fs (some start) (some end_time) =
      let status = get_or (text "status") (str []) fs in
      kept (has_failed now status start) (failure_of fs status start end_time)
  task_failure now fs _ _ = none

  abbrev pub add_failure : Option FailedTask → List FailedTask → List FailedTask
  add_failure none fs = fs
  add_failure (some f) fs = f ∷ fs

  abbrev pub both : Option (Option FailedTask) → Option (List FailedTask) → Option (List FailedTask)
  both none rest = none
  both (some one) none = none
  both (some one) (some more) = some (add_failure one more)

  unfoldable pub failed_tasks : ℕ → List Value → Option (List FailedTask)
  failed_tasks now [] = some []
  failed_tasks now (obj fs ∷ rows) =
      let rest = failed_tasks now rows in
      both (task_failure now fs (seconds_of (text "starttime") fs) (seconds_of (text "endtime") fs))
        rest
  failed_tasks now (v ∷ rows) = none

  -- `starttime` as the key, in reverse
  abbrev pub newest_first : FailedTask → FailedTask → Bool
  newest_first a b = text_leb b.starttime a.starttime

  abbrev pub last_end : List FailedTask → Option Text
  last_end [] = none
  last_end (f ∷ fs) = some f.endtime

  unfoldable pub task_data : Text → List FailedTask → ProxmoxTaskData
  task_data node failed =
      let sorted = sort_by newest_first failed in
      record {
        node = node;
        failed_count = length sorted;
        recent_failures = if is_empty sorted then none else some (take 10 sorted);
        last_failure_time = last_end sorted;
      }

  module _ (R : IssueRegistry) (W : Type 0) (request : W → Text → Reply Value × W)
      (entry : ConfigEntry) (now : ℕ) (node : Text) where
    abbrev pub Update : Type 0 → Type 0
    Update A = Action (State R W request) A

    abbrev pub ask : Text → Update Value
    ask path s =
        let (outcome, after) =
          poll_api R W request entry (read_for path ProxmoxType.tasks node) s in
        (answer_of outcome, after)

    abbrev pub unread_tasks : ProxmoxTaskData
    unread_tasks = record {
      node = node;
      failed_count = 0;
      recent_failures = none;
      last_failure_time = none;
    }

    abbrev pub listed_tasks : Value → Update ProxmoxTaskData
    listed_tasks api_status = do
      rows ← or_crash (iterate api_status)
      failed ← or_crash (failed_tasks now rows)
      pure (task_data node failed)

    -- `_async_update_data` of a known node
    unfoldable pub update_tasks : Update ProxmoxTaskData
    update_tasks = do
      api_status ← ask (node_path node (text "/tasks"))
      if is_null api_status then pure unread_tasks else listed_tasks api_status
