-- ===== src/Backups/Tests.antt =====
-- A node with a finished and a running backup, and the theorems there.
use proxmoxve_integration.Prelude.{
  ◌*◌, ◌≡◌, refl, List, [], ◌∷◌, true, Option, none, some, list_eq, nat_eq, ℕ_discrete,
}
use proxmoxve_integration.Prelude.Int.{ℤ, pos, int_eq}
use proxmoxve_integration.Prelude.Text.{Text, text}
use proxmoxve_integration.Json.{Value, int, str, arr, obj, item, end, field, nil}
use proxmoxve_integration.Backups.{
  ProxmoxBackupData, duration_of, task_timestamp, parse_running_backup, parse_backup,
  parse_backup_info,
}

opened : Unit {0}
unfolding parse_backup parse_running_backup task_timestamp duration_of parse_backup_info list_eq
    ℕ_discrete
opened = tt

abbrev plain : Value → Text
plain v = []

-- Whole seconds alone are read; the half of a float does not matter here.
abbrev seconds : Value → Option ℤ
seconds (int (pos n)) = some (pos (n * 1000000))
seconds v = some (pos 0)

abbrev task : Value
task = obj (
    field (text "type") (str (text "vzdump")) (
      field (text "starttime") (int (pos 10))
        (field (text "endtime") (int (pos 75)) (field (text "id") (str (text "100")) nil))))

abbrev entries : List Value
entries = str (text "x") ∷ task ∷ []

abbrev reported : ProxmoxBackupData
reported = record {
  node = text "a";
  runs = 1;
  finished = some (pos 75000000);
  started = some (pos 10000000);
  duration = some 65;
  status = none;
  guests = some (text "100");
  user = none;
  running = record {
    running = true;
    running_since = some (pos 10000000);
    running_guests = some (text "100");
  };
}

reads : parse_backup plain seconds entries (text "a") (arr (item task end)) ≡ some reported
unfolding opened
reads = refl
