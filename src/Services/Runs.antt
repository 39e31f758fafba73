-- ===== src/Services/Runs.antt =====
-- services.py: what a run is given, and the action's loop over the plans. The request that starts a run
-- is a parameter that acts on a world of its own; a coordinator's refresh is left out.
use proxmoxve_integration.Prelude.{
  ℕ, List, [], ◌∷◌, ◌++◌, Bool, true, false, Option, none, some, ◌&&◌, if◌then◌else◌, leb, list_eq,
  nat_eq, map,
}
use proxmoxve_integration.Prelude.Dict.{Dict, lookup, insert}
use proxmoxve_integration.Prelude.Sort.{sort_by}
use proxmoxve_integration.Prelude.Text.{Text, text, join_by, decimal}
use proxmoxve_integration.Api.{connection_error, auth_error, api_error, Reply, answered, failed}
use proxmoxve_integration.Services.{
  Result, ok, raised, backup_notes_need_storage, backup_refused, backup_unreachable, login_refused,
}
use proxmoxve_integration.Services.Plans.{BackupPlan, Call, given_text}

pub data Param : Type 0 where
  number : ℕ → Param
  word : Text → Param

abbrev pub Params : Type 0
Params = Dict Text Param

unfoldable pub what_runs : BackupPlan → Params
what_runs p =
    if p.everything
    then (text "all", number 1) ∷ []
    else (text "vmid", word (join_by (text ",") (map decimal (sort_by leb p.vmids)))) ∷ []

abbrev pub or_else : Option Text → Option Text → Option Text
or_else none b = b
or_else (some a) b = some a

-- The storage given, or the one of the entry's options; an empty name counts as none.
abbrev pub storage_for : Call → BackupPlan → Option Text
storage_for call p = or_else (given_text call.storage) (given_text p.entry.entry.backup_storage)

abbrev put : Text → Option Text → Params → Params
put key none ps = ps
put key (some v) ps = insert key (word v) ps

abbrev pub mode_of : Option Text → Text
mode_of none = text "snapshot"
mode_of (some m) = m

unfoldable pub vzdump_parameters : Call → BackupPlan → Result Params
vzdump_parameters call p =
    let storage = storage_for call p in
    let moded = insert (text "mode") (word (mode_of call.mode)) (what_runs p) in
    let params = put (text "compress") call.compress (put (text "storage") storage moded) in
    elim (given_text call.notes) [
      | none ↦ ok params
      | some notes ↦ elim storage [
        | none ↦ raised backup_notes_need_storage
        | some s ↦ ok (insert (text "notes-template") (word notes) params)
      ]
    ]

unfoldable pub backup_running_on : BackupPlan → Bool
backup_running_on p = elim (lookup p.node p.entry.runtime.backups) [
  | none ↦ false
  | some running ↦ running
]

-- What is handed back of a run that was started.
pub record Run : Type 0 where
  pub node : Text
  pub upid : Text
  pub params : Params

pub record Response : Type 0 where
  pub runs : List Run
  pub skipped : List Text

unfoldable pub started : BackupPlan → Params → Reply Text → Result Run
started p params (answered upid) = ok (record { node = p.node; upid = upid; params = params })
started p params (failed (api_error status m)) = raised (backup_refused p.node m)
started p params (failed (connection_error m)) = raised (backup_unreachable p.node m)
started p params (failed (auth_error m)) = raised (login_refused m)

abbrev pub skips : Call → BackupPlan → Bool
skips call p = call.skip_if_running && backup_running_on p

module _ (W : Type 0) (post : W → Text → Params → Reply Text × W) where
  -- One round: the run's outcome and the world after it.
  unfoldable pub start_run : Call → BackupPlan → W → Result Run × W
  start_run call p w = elim (vzdump_parameters call p) [
    | raised e ↦ (raised e, w)
    | ok params ↦ let reply = post w p.node params in (started p params reply.0, reply.1)
  ]

  -- The loop of `_async_backup`; the first error ends it.
  unfoldable pub async_backup : Call → List BackupPlan → Response → W → Result Response × W
  async_backup call [] r w = (ok r, w)
  async_backup call (p ∷ ps) r w = elim (skips call p) [
    | true ↦ async_backup call ps (record r { skipped = r.skipped ++ p.node ∷ [] }) w
    | false ↦ elim (start_run call p w).0 [
      | raised e ↦ (raised e, (start_run call p w).1)
      | ok run ↦
          async_backup call ps (record r { runs = r.runs ++ run ∷ [] }) (start_run call p w).1
    ]
  ]
