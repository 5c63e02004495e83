-- ===== src/Task/Answers.antt =====
-- What `RunInternal` answers: it runs a graph that `Validate` accepts, and no task of another.
use corekit.Base.{
  ℕ, ◌<◌, ◌^◌, ◌≡◌, inl, inr, refl, sym, ap, subst, Bool, Option, none, some, [], length,
  if◌then◌else◌, arith,
}
use corekit.Api.Status.{Status, error, status_ok, is_ok}
use corekit.Task.Table.{keys}
use corekit.Task.Graph.{SimpleTaskGraph}
use corekit.Task.Formed.{IsFormed}
use corekit.Task.Validate.{ready_nodes, validate, missing_node, has_cycle}
use corekit.Task.Built.{Built, build_indegree-Built}
use corekit.Task.Kahn.{start-Kahn}
use corekit.Task.Topological.{left-none}
use corekit.Task.Accepted.{length-keys, validate-IsTopological}
use corekit.Task.Levels.{Accepts, failures-nil}
use corekit.Task.Log.{Executes}
use corekit.Task.Executed.{Progress, run_loop-Executes}
use corekit.Task.Run.{
  GraphRunOptions, GraphRunStats, Executor, Ran, ended, run_loop, run_valid, run_internal,
}

-- Without a node called or submitted.
abbrev pub refused : Status → Ran
refused st = ended (error st) []

module _ {g : SimpleTaskGraph} (f : IsFormed g) (throws : ℕ → Bool) (ex : Option Executor)
    (options : GraphRunOptions) where
  -- The step that follows `Validate`.
  on_valid : Option Status → Ran
  on_valid checked = elim checked [
    | none ↦ record { result = none; log = [] }
    | some st ↦ if is_ok st then run_valid g throws ex options else refused st
  ]

  b : Built g
  b = build_indegree-Built f

  start : GraphRunStats
  start = record { total = length g.nodes; succeeded = 0; failed = 0; canceled = 0 }

  start-Progress : Progress g throws options [] start []
  unfolding start
  start-Progress = record {
    flat = refl;
    layered = tt;
    failed = sym (failures-nil throws);
    called = refl;
    total = refl;
    left_over = omega (arith, left-none (keys g.nodes), length-keys g.nodes);
  }

  run_valid-Executes :
      Accepts ex
      → length g.nodes < 2 ^ 64
      → validate g ≡ some status_ok
      → Executes g throws options (run_valid g throws ex options)
  unfolding run_valid start
  run_valid-Executes accepts small ok =
      let order = (validate-IsTopological f).0.0 ok in
      let deg = b.degrees in
      subst
        (λ d. Executes g throws options (elim d [
          | none ↦ ended (error missing_node) []
          | some deg ↦
              run_loop g throws ex options (length g.nodes) deg (ready_nodes deg)
                (record { total = length g.nodes; succeeded = 0; failed = 0; canceled = 0 }) 0 []
        ]))
        (sym b.gives)
        (run_loop-Executes f throws ex options accepts small order.0 order.1 (length g.nodes) deg
          (ready_nodes deg) [] start 0 [] (start-Kahn f b) start-Progress refl
          (omega (arith, left-none (keys g.nodes), length-keys g.nodes)))

  -- A run of a well-formed graph of fewer than 2^64 nodes that `Validate` accepts, inline or on an
  -- executor that takes every task and waits for it: the run ends with its statistics, and calls no
  -- task but those of the nodes, each at most once and behind all that it waits for, in an earlier
  -- level. The statistics count the calls that throw, those that do not, and the nodes left out. If
  -- no call throws, or the run does not stop at a failure, each node is called exactly once.
  pub run_internal-Executes :
      Accepts ex
      → length g.nodes < 2 ^ 64
      → validate g ≡ some status_ok
      → Executes g throws options (run_internal g throws ex options)
  unfolding run_internal on_valid
  run_internal-Executes accepts small ok =
      subst (λ checked. Executes g throws options (on_valid checked)) (sym ok)
        (run_valid-Executes accepts small ok)

  -- A run of a well-formed graph that `Validate` does not accept, with whatever executor: it ends
  -- with the status that names the cycle, and no task is called or submitted.
  pub run_internal-refused :
      (validate g ≡ some status_ok → ⊥) → run_internal g throws ex options ≡ refused has_cycle
  unfolding run_internal on_valid
  run_internal-refused not_ok = elim ((validate-IsTopological f).1) [
    | inl ok ↦ absurd (not_ok ok)
    | inr cycle ↦ ap on_valid cycle
  ]
