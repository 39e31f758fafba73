-- ===== src/Tasks/Tests.antt =====
-- Two tasks that have failed, and one that has not.
use proxmoxve_integration.Prelude.{
  ℕ, ◌≤◌, ◌≡◌, refl, List, [], ◌∷◌, ◌++◌, Bool, Option, none, some, true, list_eq, nat_eq,
  ℕ_discrete, length, any,
}
use proxmoxve_integration.Prelude.Int.{ℤ, pos, negsuc}
use proxmoxve_integration.Prelude.Sort.{IsSorted}
use proxmoxve_integration.Prelude.Text.{Text, text}
use proxmoxve_integration.Json.{Value, str, int, obj, field, nil}
use proxmoxve_integration.Tasks.{FailedTask, has_failed, failed_tasks, newest_first, task_data}
use proxmoxve_integration.Tasks.Failures.{count_failures, shown, task_data-IsSorted}

abbrev written : ℤ → Option Text
written (pos n) = some (text "t")
written (negsuc n) = none

abbrev task : Text → ℕ → Value
task status start =
    obj (field (text "status") (str status) (field (text "starttime") (int (pos start)) nil))

abbrev tasks : List Value
tasks =
    task (text "job errors") 86500 ∷ task (text "OK") 86600 ∷ task (text "interrupted") 86700 ∷ []

abbrev failure : Text → FailedTask
failure status = record {
  type_of = str (text "unknown");
  starttime = text "t";
  endtime = text "N/A";
  status = str status;
}

abbrev failures : List FailedTask
failures = failure (text "job errors") ∷ failure (text "interrupted") ∷ []

abbrev each : FailedTask → Bool
each f = true

task_data-IsSorted_example :
    let told = task_data written (text "a") failures in
    (told.failed_count ≡ count_failures 90000 tasks)
    × (length (shown told.recent_failures) ≤ 10)
    × (older : List FailedTask) × IsSorted
        (newest_first written)
        (shown told.recent_failures ++ older)
    × (any each (shown told.recent_failures ++ older) ≡ any each failures)
unfolding failed_tasks has_failed list_eq ℕ_discrete
task_data-IsSorted_example = task_data-IsSorted written 90000 (text "a") tasks failures each refl
