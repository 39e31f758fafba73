-- ===== src/Services/RunLaws.antt =====
-- What the runs of the action are given, and what becomes of every plan.
use mathlib.Core.List.{append_assoc, append-nil}
use proxmoxve_integration.Prelude.{
  ap, ◌≡◌, refl, List, [], ◌∷◌, ◌++◌, Bool, true, false, Option, none, some, if◌then◌else◌, list_eq,
  nat_eq, ℕ_discrete, arith, Bool-cases, inl, inr,
}
use proxmoxve_integration.Prelude.Dict.{lookup, insert}
use proxmoxve_integration.Prelude.Text.{Text, text}
use proxmoxve_integration.Api.{Reply, answered, failed}
use proxmoxve_integration.Services.{Result, ok, raised, backup_notes_need_storage}
use proxmoxve_integration.Services.Plans.{BackupPlan, Call, given_text}
use proxmoxve_integration.Services.Runs.{
  Param, word, Params, what_runs, storage_for, mode_of, vzdump_parameters, Run, Response, started,
  skips, start_run, async_backup,
}
use proxmoxve_integration.Services.PlanLaws.{Result-cases, ok-injective, raised-ne-ok}

abbrev pub words : Option Text → Option Param
words none = none
words (some t) = some (word t)

-- Whether the call has notes that no storage can take.
abbrev pub lacks_storage : Call → BackupPlan → Bool
lacks_storage call p = elim (given_text call.notes) [
  | none ↦ false
  | some notes ↦ elim (storage_for call p) [ none ↦ true | some s ↦ false ]
]

abbrev pub refused_for_storage {ℓ} : {A : Type ℓ} → Result A → Bool
refused_for_storage (raised backup_notes_need_storage) = true
refused_for_storage _ = false

-- The parameters of a run are refused exactly for notes without a storage, the call's or the one of
-- the entry's options.
pub vzdump_parameters_refused :
    (call : Call) (p : BackupPlan)
    → refused_for_storage (vzdump_parameters call p) ≡ lacks_storage call p
unfolding vzdump_parameters
vzdump_parameters_refused call p = ground arith

-- The parameters of a run, where they are not refused, hold the call's mode, the storage of the
-- call or else of the entry's options, and the compression and the notes if the call has any; what
-- the call lacks is not among them, but for the mode, which is then `snapshot`.
lookup-vzdump_parameters :
    (call : Call) (p : BackupPlan) (params : Params)
    → vzdump_parameters call p ≡ ok params
    → (lookup (text "mode") params ≡ some (word (mode_of call.mode)))
      × (lookup (text "storage") params ≡ words (storage_for call p))
      × (lookup (text "compress") params ≡ words call.compress)
      × (lookup (text "notes-template") params ≡ words (given_text call.notes))
unfolding vzdump_parameters what_runs insert list_eq ℕ_discrete
lookup-vzdump_parameters call p params h = ground (arith, h)

abbrev pub skipped_nodes : Call → List BackupPlan → List Text
skipped_nodes call [] = []
skipped_nodes call (p ∷ ps) =
    let rest = skipped_nodes call ps in if skips call p then p.node ∷ rest else rest

abbrev pub run_nodes : Call → List BackupPlan → List Text
run_nodes call [] = []
run_nodes call (p ∷ ps) =
    let rest = run_nodes call ps in if skips call p then rest else p.node ∷ rest

abbrev pub nodes_of : List Run → List Text
nodes_of [] = []
nodes_of (run ∷ runs) = run.node ∷ nodes_of runs

nodes_of-append : (a b : List Run) → nodes_of (a ++ b) ≡ nodes_of a ++ nodes_of b
nodes_of-append [] b = refl
nodes_of-append (r ∷ a) b = ap (◌∷◌ r.node) (nodes_of-append a b)

started_node :
    (p : BackupPlan) (params : Params) (reply : Reply Text) (run : Run)
    → started p params reply ≡ ok run
    → run.node ≡ p.node
unfolding started
started_node p params (answered upid) run h = ground (arith, h)
started_node p params (failed f) run h = ground (arith, h)

module _ (W : Type 0) (post : W → Text → Params → Reply Text × W) where
  start_run_node :
      (call : Call) (p : BackupPlan) (w : W) (run : Run)
      → (start_run W post call p w).0 ≡ ok run
      → run.node ≡ p.node
  unfolding start_run
  start_run_node call p w run = elim (Result-cases (vzdump_parameters call p)) [
    | inl (e, refused) ↦ rw (refused, start_run) (λ h. raised-ne-ok e run h)
    | inr (params, given) ↦
        rw (given, start_run) (λ h. started_node p params (post w p.node params).0 run h)
  ]

  -- If the action answers, each plan was either started or skipped, in the order of the plans: the
  -- runs handed back are those of the plans that are not to be skipped, and the nodes skipped are those
  -- where a run was in progress and the call asked to skip them.
  pub async_backup_accounts :
      (call : Call) (ps : List BackupPlan) (r done : Response) (w : W)
      → (async_backup W post call ps r w).0 ≡ ok done
      → (nodes_of done.runs ≡ nodes_of r.runs ++ run_nodes call ps)
        × (done.skipped ≡ r.skipped ++ skipped_nodes call ps)
  unfolding async_backup
  async_backup_accounts call [] r done w =
      λ h. ground (arith, ok-injective r done h, append-nil (nodes_of r.runs), append-nil r.skipped)
  async_backup_accounts call (p ∷ ps) r done w = elim (Bool-cases (skips call p)) [
    | inl skip ↦
        rw (skip, async_backup)
          (λ h. ground (
            arith,
            skip,
            async_backup_accounts call ps (record r { skipped = r.skipped ++ p.node ∷ [] }) done w
                h,
            append_assoc r.skipped (p.node ∷ []) (skipped_nodes call ps),
          ))
    | inr go ↦
        rw (go, async_backup)
          (elim (Result-cases (start_run W post call p w).0) [
            | inl (e, refused) ↦ rw (refused, async_backup) (λ h. raised-ne-ok e done h)
            | inr (run, begun) ↦
                rw (begun, async_backup)
                  (λ h. ground (
                    arith,
                    go,
                    start_run_node call p w run begun,
                    nodes_of-append r.runs (run ∷ []),
                    async_backup_accounts call ps (record r { runs = r.runs ++ run ∷ [] }) done
                        (start_run W post call p w).1 h,
                    append_assoc (nodes_of r.runs) (p.node ∷ []) (run_nodes call ps),
                  ))
          ])
  ]
