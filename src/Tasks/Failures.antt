-- ===== src/Tasks/Failures.antt =====
-- What is told of a node's failed tasks: how many, and the most recent of them.
use proxmoxve_integration.Prelude.{
  ℕ, zero, suc, ◌||◌, ◌≤◌, ◌≡◌, refl, sym, ap, ◌∙◌, List, [], ◌∷◌, ◌++◌, Bool, true, false, Option,
  none, some, if◌then◌else◌, length, take, drop, any, is_empty, take-append-drop, arith,
}
use mathlib.Core.Path.{subst}
use proxmoxve_integration.Prelude.Int.{ℤ}
use proxmoxve_integration.Prelude.Sort.{
  sort_by, IsSorted, sort_by-IsSorted, any-sort_by, length-sort_by,
}
use proxmoxve_integration.Prelude.Text.{Text, text, text_leb_total, text_leb_trans}
use proxmoxve_integration.Json.{Value, null, bool, int, float, str, arr, obj, Fields}
use proxmoxve_integration.Tasks.{
  FailedTask, get_or, seconds_of, has_failed, failure_of, task_failure, add_failure, failed_tasks,
  newest_first, kept, both, task_data,
}

abbrev started : ℕ → Fields → Option ℤ → Bool
started now fs none = false
started now fs (some start) = has_failed now (get_or (text "status") (str []) fs) start

-- A row of the task list that has failed within a day.
abbrev pub is_failure : ℕ → Value → Bool
is_failure now (obj fs) = started now fs (seconds_of (text "starttime") fs)
is_failure now v = false

abbrev pub count_failures : ℕ → List Value → ℕ
count_failures now [] = 0
count_failures now (v ∷ rows) =
    let n = count_failures now rows in if is_failure now v then suc n else n

abbrev pub shown : Option (List FailedTask) → List FailedTask
shown none = []
shown (some fs) = fs

module _ (local : ℤ → Option Text) where
  length-kept :
      (t : Bool) (o : Option FailedTask) (one : Option FailedTask) (more : List FailedTask)
      → kept local t o ≡ some one
      → length (add_failure local one more) ≡ (if t then suc (length more) else length more)
  length-kept false o none more h = refl
  length-kept false o (some f) more h = ground (arith, h)
  length-kept true none one more h = ground (arith, h)
  length-kept true (some f) none more h = ground (arith, h)
  length-kept true (some f) (some g) more h = refl

  length-task_failure :
      (now : ℕ) (fs : Fields) (start end_time : Option ℤ) (one : Option FailedTask)
      (more : List FailedTask)
      → task_failure local now fs start end_time ≡ some one
      → length (add_failure local one more)
        ≡ (if started now fs start then suc (length more) else length more)
  length-task_failure now fs none end_time one more h = ground (arith, h)
  length-task_failure now fs (some start) none one more h = ground (arith, h)
  length-task_failure now fs (some start) (some end_time) one more h =
      length-kept (has_failed now (get_or (text "status") (str []) fs) start)
        (failure_of local fs (get_or (text "status") (str []) fs) start end_time) one more h

  both_parts :
      (o : Option (Option FailedTask)) (rest : Option (List FailedTask)) (failed : List FailedTask)
      → both local o rest ≡ some failed
      → (one : Option FailedTask) × (more : List FailedTask) × (o ≡ some one)
        × (rest ≡ some more)
        × (add_failure local one more ≡ failed)
  both_parts none rest failed h = ground (arith, h)
  both_parts (some one) none failed h = ground (arith, h)
  both_parts (some one) (some more) failed h = (one, more, refl, refl, cc)

  length-failed_tasks :
      (now : ℕ) (rows : List Value) (failed : List FailedTask)
      → failed_tasks local now rows ≡ some failed
      → length failed ≡ count_failures now rows
  unfolding failed_tasks
  length-failed_tasks now [] [] h = refl
  length-failed_tasks now [] (f ∷ fs) h = ground (arith, h)
  length-failed_tasks now (obj fs ∷ rows) failed h =
      let start = seconds_of (text "starttime") fs in
      let end_time = seconds_of (text "endtime") fs in
      let (one, more, here, there, same) =
        both_parts (task_failure local now fs start end_time) (failed_tasks local now rows) failed
          h in
      sym (ap length same)
      ∙ (length-task_failure now fs start end_time one more here
          ∙ ap (λ n. if started now fs start then suc n else n)
              (length-failed_tasks now rows more there))
  length-failed_tasks now (null ∷ rows) failed h = ground (arith, h)
  length-failed_tasks now (bool b ∷ rows) failed h = ground (arith, h)
  length-failed_tasks now (int n ∷ rows) failed h = ground (arith, h)
  length-failed_tasks now (float m k ∷ rows) failed h = ground (arith, h)
  length-failed_tasks now (str s ∷ rows) failed h = ground (arith, h)
  length-failed_tasks now (arr vs ∷ rows) failed h = ground (arith, h)

  newest_first_total :
      (a b : FailedTask) → (newest_first local a b || newest_first local b a) ≡ true
  newest_first_total a b = text_leb_total b.starttime a.starttime

  newest_first_trans :
      (a b c : FailedTask)
      → newest_first local a b ≡ true
      → newest_first local b c ≡ true
      → newest_first local a c ≡ true
  newest_first_trans a b c h k = text_leb_trans c.starttime b.starttime a.starttime k h

  length-take : (n : ℕ) (fs : List FailedTask) → length (take n fs) ≤ n
  length-take zero fs = omega arith
  length-take (suc n) [] = omega arith
  length-take (suc n) (f ∷ fs) = omega (arith, length-take n fs)

  shown-take :
      (fs : List FailedTask) → shown (if is_empty fs then none else some (take 10 fs)) ≡ take 10 fs
  shown-take [] = refl
  shown-take (f ∷ fs) = refl

  -- Where no row of a node's task list raises, what is told of its failed tasks counts the rows of a day that
  -- have failed, and shows at most ten of them: with those left out they are all that failed, in order of
  -- their start as it is written, the last first.
  pub task_data-IsSorted :
      (now : ℕ) (node : Text) (rows : List Value) (failed : List FailedTask) (f : FailedTask → Bool)
      → failed_tasks local now rows ≡ some failed
      → let told = task_data local node failed in
        (told.failed_count ≡ count_failures now rows)
        × (length (shown told.recent_failures) ≤ 10)
        × (older : List FailedTask) × IsSorted
            (newest_first local)
            (shown told.recent_failures ++ older)
        × (any f (shown told.recent_failures ++ older) ≡ any f failed)
  unfolding task_data
  task_data-IsSorted now node rows failed f h =
      let sorted = sort_by (newest_first local) failed in
      let whole =
        ap (λ fs. fs ++ drop 10 sorted) (shown-take sorted) ∙ take-append-drop 10 sorted in
      (
        length-sort_by (newest_first local) failed ∙ length-failed_tasks now rows failed h,
        subst (λ fs. length fs ≤ 10) (sym (shown-take sorted)) (length-take 10 sorted),
        drop 10 sorted,
        subst (IsSorted (newest_first local)) (sym whole)
            (sort_by-IsSorted (newest_first local) newest_first_total newest_first_trans failed),
        ap (any f) whole ∙ any-sort_by (newest_first local) f failed,
      )
