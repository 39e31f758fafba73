-- ===== src/Services/Tests.antt =====
-- Runs of the backup action for an entry with two nodes, and the theorems there.
use proxmoxve_integration.Prelude.{
  ℕ, ◌+◌, ◌≡◌, refl, List, [], ◌∷◌, ◌++◌, true, false, some, none, list_eq, nat_eq, ℕ_discrete,
  is_empty, All,
}
use proxmoxve_integration.Prelude.Dict.{Dict, insert}
use proxmoxve_integration.Prelude.Sets.{add, append_new}
use proxmoxve_integration.Prelude.Sort.{sort_by}
use proxmoxve_integration.Prelude.Text.{Text, text, partition, digits_value, decimal, join_by}
use proxmoxve_integration.Api.{Reply, answered}
use proxmoxve_integration.Services.{
  Runtime, Entry, Loaded, loaded_entries, Device, ok, raised, backup_unknown_guest,
  entry_tracking_node, entry_hosting_guest, guest_target, resolve_identifier, resolve_identifiers,
  resolve_device,
}
use proxmoxve_integration.Services.Targets.{
  absent, one, several, Registries, add_device, targeted_devices,
}
use proxmoxve_integration.Services.Plans.{
  BackupPlan, Call, add_target, plan_devices, plan_guests, plan_named, some_plans, plan_backups,
}
use proxmoxve_integration.Services.PlanLaws.{Distinct, IsFilled, plan_backups-Distinct}
use proxmoxve_integration.Services.Coverage.{IsPlanned, plan_backups_hosted}
use proxmoxve_integration.Services.Runs.{
  word, Params, what_runs, vzdump_parameters, backup_running_on, Response, started, start_run,
  async_backup,
}
use proxmoxve_integration.Services.RunLaws.{
  nodes_of, run_nodes, skipped_nodes, async_backup_accounts,
}

opened : Unit {0}
unfolding entry_tracking_node entry_hosting_guest guest_target resolve_identifier
    resolve_identifiers resolve_device add_device targeted_devices add_target plan_devices
    plan_guests plan_named some_plans plan_backups what_runs vzdump_parameters backup_running_on
    started start_run async_backup insert add append_new sort_by partition digits_value decimal
    join_by list_eq ℕ_discrete
opened = tt

abbrev data_of : Runtime
data_of = record {
  nodes = text "a" ∷ text "b" ∷ [];
  guests =
      (text "qemu_7", some (text "a"))
      ∷ (text "lxc_8", some (text "b"))
      ∷ (text "lxc_9", none)
      ∷ [];
  backups = (text "b", true) ∷ [];
}

abbrev entry : Entry
entry = record {
  entry_id = text "e";
  backup_storage = some (text "nas");
  runtime_data = some data_of;
}

abbrev home : List Loaded
home = loaded_entries (entry ∷ [])

abbrev known : Dict Text Device
known =
    (
      text "d7",
      record { identifiers = (text "proxmoxve", text "e_QEMU_7") ∷ []; shown_name = text "vm" },
    )
    ∷ (
      text "dc",
      record { identifiers = (text "proxmoxve", text "e_cluster") ∷ []; shown_name = [] },
    )
    ∷ []

abbrev call : Call
call = record {
  node = none;
  vmids = 8 ∷ 7 ∷ 8 ∷ [];
  everything = false;
  storage = none;
  mode = none;
  compress = none;
  notes = some (text "n");
  skip_if_running = true;
}

abbrev loaded : Loaded
loaded = record { entry = entry; runtime = data_of }

abbrev plans : List BackupPlan
plans =
    record { entry = loaded; node = text "a"; vmids = 7 ∷ []; everything = false }
    ∷ record { entry = loaded; node = text "b"; vmids = 8 ∷ []; everything = false }
    ∷ []

planned : plan_backups home known call (text "d7" ∷ []) ≡ ok plans
unfolding opened
planned = refl

plan_backups-Distinct_example : (is_empty plans ≡ false) × Distinct plans × All IsFilled plans
plan_backups-Distinct_example = plan_backups-Distinct home known call (text "d7" ∷ []) plans planned

plan_backups_hosted_example : IsPlanned home 8 plans
unfolding ℕ_discrete
plan_backups_hosted_example =
    plan_backups_hosted home known call (text "d7" ∷ []) plans 8 refl refl planned

abbrev plan_a : BackupPlan
plan_a = record { entry = loaded; node = text "a"; vmids = 7 ∷ []; everything = false }

abbrev params : Params
params =
    (text "vmid", word (text "7"))
    ∷ (text "mode", word (text "snapshot"))
    ∷ (text "storage", word (text "nas"))
    ∷ (text "notes-template", word (text "n"))
    ∷ []

given : vzdump_parameters call plan_a ≡ ok params
unfolding opened
given = refl

abbrev post : ℕ → Text → Params → Reply Text × ℕ
post n _ _ = (answered (text "UPID"), n + 1)

abbrev nothing_done : Response
nothing_done = record { runs = []; skipped = [] }

abbrev response : Response
response = record {
  runs = record { node = text "a"; upid = text "UPID"; params = params } ∷ [];
  skipped = text "b" ∷ [];
}

answers : (async_backup ℕ post call plans nothing_done 0).0 ≡ ok response
unfolding opened
answers = refl

async_backup_accounts_example :
    (nodes_of response.runs ≡ nodes_of [] ++ run_nodes call plans)
    × (response.skipped ≡ [] ++ skipped_nodes call plans)
async_backup_accounts_example =
    async_backup_accounts ℕ post call plans nothing_done response 0 answers

abbrev registries : Registries
registries = record {
  areas_of_floor = λ f. text "hall" ∷ [];
  entity_device = λ e. some (some (text "d7"));
  devices_of_area = λ a. text "dc" ∷ [];
  entity_devices_of_area = λ a. none ∷ some (text "d7") ∷ [];
  devices_of_label = λ l. [];
  entity_devices_of_label = λ l. [];
}

runs :
    (plan_backups home known (record call { vmids = 9 ∷ [] }) [] ≡ raised (backup_unknown_guest 9))
    × (targeted_devices registries (record {
      device_id = absent;
      entity_id = one (text "sensor.x");
      area_id = one (text "none");
      floor_id = several (text "first" ∷ []);
      label_id = absent;
    })
        ≡ text "d7" ∷ text "dc" ∷ [])
    × ((async_backup ℕ post call plans nothing_done 0).1 ≡ 1)
unfolding opened
runs = (refl, refl, refl)
