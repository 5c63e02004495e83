-- ===== src/Task/Run.antt =====
-- `Run`, `RunWithExecutor` and `RunInternal` of src/task/simple_task_graph.cpp. Which calls throw, which
-- submissions an executor refuses, and how its `WaitBatch` ends are arguments. A run also hands
-- back its log: the nodes that it called or submitted, level by level.
use corekit.Base.{
  ℕ, zero, suc, ◌+◌, ◌-◌, ◌%◌, ◌^◌, Bool, true, false, ◌&&◌, Option, none, some, List, [], ◌∷◌,
  ◌++◌, length, take, drop, ltb, ◌==◌, if◌then◌else◌,
}
use corekit.Api.Status.{Status, Result, value, error, is_ok, internal_error, invalid_argument}
use corekit.Task.Table.{find}
use corekit.Task.Graph.{TaskNode, SimpleTaskGraph, ck_task, targets}
use corekit.Task.Validate.{
  Degrees, build_indegree, ready_nodes, release, validate, missing_node, missing_degree, has_cycle,
}

pub record GraphRunOptions : Type 0 where
  pub fail_fast : Bool
  pub max_concurrency : ℕ

pub record GraphRunStats : Type 0 where
  pub total : ℕ
  pub succeeded : ℕ
  pub failed : ℕ
  pub canceled : ℕ

-- An executor: the status with which it refuses a node, if it does, and that of its `WaitBatch`.
pub record Executor : Type 0 where
  pub refuses : ℕ → Option Status
  pub waits : List ℕ → Status

-- What a level does: how it stops the run, if it does, the two counts, and the calls.
pub record Level : Type 0 where
  pub stops : Option Status
  pub succeeded : ℕ
  pub failed : ℕ
  pub calls : List ℕ

abbrev pub missing_task : Status
missing_task = ck_task internal_error "node missing during execution"

abbrev pub nothing_run : Option Status → Level
nothing_run stops = record { stops = stops; succeeded = 0; failed = 0; calls = [] }

-- A call before the others of its level.
abbrev pub tally : Bool → ℕ → Level → Level
tally true id l = record l { failed = l.failed + 1; calls = id ∷ l.calls }
tally false id l = record l { succeeded = l.succeeded + 1; calls = id ∷ l.calls }

module _ (nodes : List (ℕ × TaskNode)) (throws : ℕ → Bool) where
  -- The level without an executor.
  unfoldable pub run_inline : List ℕ → Level
  run_inline [] = nothing_run none
  run_inline (id ∷ ids) = elim (find nodes id) [
    | none ↦ nothing_run (some missing_task)
    | some node ↦ tally (throws id) id (run_inline ids)
  ]

  -- What the tasks of a level report after the wait.
  unfoldable pub reports : List ℕ → Level
  reports [] = nothing_run none
  reports (id ∷ ids) = tally (throws id) id (reports ids)

  -- The submissions of a level, up to one that is refused.
  unfoldable pub submit_each : Executor → List ℕ → Option Status × List ℕ
  submit_each ex [] = (none, [])
  submit_each ex (id ∷ ids) =
      let rest = submit_each ex ids in
      elim (find nodes id) [
        | none ↦ (some missing_task, [])
        | some node ↦ elim (ex.refuses id) [
          | some st ↦ (some st, [])
          | none ↦ (rest.0, id ∷ rest.1)
        ]
      ]

  -- The level on an executor.
  unfoldable pub run_submitted : Option Status × List ℕ → Status → List ℕ → Level
  unfolding reports
  run_submitted (some st, submitted) wait level = record (nothing_run (some st)) {
    calls = submitted;
  }
  run_submitted (none, submitted) wait level =
      if is_ok wait then reports level else record (nothing_run (some wait)) { calls = submitted }

  unfoldable pub run_level : Option Executor → List ℕ → Level
  unfolding run_inline submit_each run_submitted
  run_level none level = run_inline level
  run_level (some ex) level = run_submitted (submit_each ex level) (ex.waits level) level

-- The `while (!ready.empty() && level.size() < level_cap)` loop takes this many nodes.
abbrev pub level_cap : ℕ → ℕ
level_cap max_concurrency = if max_concurrency == 0 then 2 ^ 64 - 1 else max_concurrency

-- The loop over the nodes of a finished level.
unfoldable pub release_all :
    List (ℕ × List ℕ) → List ℕ → Degrees → List ℕ → Option (Degrees × List ℕ)
release_all edges [] deg ready = some (deg, ready)
release_all edges (id ∷ level) deg ready = elim (release (targets edges id) deg ready) [
  | none ↦ none
  | some (deg', ready') ↦ release_all edges level deg' ready'
]

-- `a - b` on `std::uint64_t`.
abbrev pub sub64 : ℕ → ℕ → ℕ
sub64 a b = (a + 2 ^ 64 - b) % 2 ^ 64

abbrev pub with_canceled : GraphRunStats → GraphRunStats
with_canceled s = record s { canceled = sub64 (sub64 s.total s.succeeded) s.failed }

-- The result, `none` if the fuel runs out, and the log.
pub record Ran : Type 0 where
  pub result : Option (Result GraphRunStats)
  pub log : List (List ℕ)

abbrev pub ended : Result GraphRunStats → List (List ℕ) → Ran
ended result log = record { result = some result; log = log }

-- The end of the loop.
unfoldable pub finish : SimpleTaskGraph → GraphRunStats → ℕ → List (List ℕ) → Ran
finish g stats processed log =
    if processed == length g.nodes
    then ended (value (with_canceled stats)) log
    else ended (error has_cycle) log

-- What follows a level: the run stops with a status, or early with its statistics, or goes on.
unfoldable pub after_level :
    (Degrees → List ℕ → Ran)
    → Option Status
    → (early : Bool) → Option (Degrees × List ℕ)
    → GraphRunStats
    → List (List ℕ)
    → Ran
after_level next (some st) early freed stats log = ended (error st) log
after_level next none true freed stats log = ended (value (with_canceled stats)) log
after_level next none false none stats log = ended (error missing_degree) log
after_level next none false (some (deg, ready)) stats log = next deg ready

abbrev pub counted : GraphRunStats → Level → GraphRunStats
counted stats out = record stats {
  succeeded = stats.succeeded + out.succeeded;
  failed = stats.failed + out.failed;
}

module _ (g : SimpleTaskGraph) (throws : ℕ → Bool) (ex : Option Executor)
    (options : GraphRunOptions) where
  -- The loop of `RunInternal`. Each round takes at least one node, if there is room for one.
  unfoldable pub run_loop :
      ℕ → Degrees → List ℕ → GraphRunStats → (processed : ℕ) → List (List ℕ) → Ran
  run_loop fuel deg [] stats processed log = finish g stats processed log
  run_loop zero deg (id ∷ ready) stats processed log = record { result = none; log = log }
  run_loop (suc fuel) deg (id ∷ ready) stats processed log =
      let level = take (level_cap options.max_concurrency) (id ∷ ready) in
      let rest = drop (level_cap options.max_concurrency) (id ∷ ready) in
      let out = run_level g.nodes throws ex level in
      let log' = log ++ out.calls ∷ [] in
      let stats' = counted stats out in
      after_level (λ deg' ready'. run_loop fuel deg' ready' stats' (processed + length level) log')
        out.stops (ltb 0 out.failed && options.fail_fast) (release_all g.edges level deg rest)
        stats' log'

  unfoldable pub run_valid : Ran
  unfolding run_loop
  run_valid = elim (build_indegree g) [
    | none ↦ ended (error missing_node) []
    | some deg ↦
        run_loop (length g.nodes) deg (ready_nodes deg)
          (record { total = length g.nodes; succeeded = 0; failed = 0; canceled = 0 }) 0 []
  ]

  unfoldable pub run_internal : Ran
  unfolding run_valid
  run_internal = elim (validate g) [
    | none ↦ record { result = none; log = [] }
    | some st ↦ if is_ok st then run_valid else ended (error st) []
  ]

abbrev pub run_graph : SimpleTaskGraph → (ℕ → Bool) → Ran
run_graph g throws = run_internal g throws none (record { fail_fast = true; max_concurrency = 0 })

abbrev pub run_with_executor :
    SimpleTaskGraph → (ℕ → Bool) → Option Executor → GraphRunOptions → Ran
run_with_executor g throws none options =
    ended (error (ck_task invalid_argument "executor is null; use Run() for synchronous execution"))
      []
run_with_executor g throws (some ex) options = run_internal g throws (some ex) options
