-- ===== src/Task/Tests.antt =====
-- Runs of src/task/simple_task_graph.cpp on small graphs, and the theorems at them.
use corekit.Base.{
  ℕ, ◌+◌, ◌<◌, ◌^◌, ◌≡◌, ◌↔◌, ◌⊎◌, refl, sym, ◌∙◌, if◌then◌else◌, Bool, true, false, none, some,
  List, [], ◌∷◌, length, ◌==◌, arith,
}
use corekit.Base.Count.{count}
use corekit.Api.Status.{value, error, status_ok, internal_error}
use corekit.Task.Table.{find, assign, insert}
use corekit.Task.Graph.{
  normal, GraphTaskOptions, SimpleTaskGraph, ck_task, new_graph, targets, add_task, add_dependency,
  add_dependencies, add_each, clear_graph,
}
use corekit.Task.Formed.{IsFormed, new_graph-IsFormed}
use corekit.Task.History.{Call, adds, depends, depends_on, call, build, build-IsFormed}
use corekit.Task.Validate.{
  zeros, count_targets, count_edges, build_indegree, ready_nodes, release, drain, verdict, validate,
  has_cycle,
}
use corekit.Task.Topological.{IsTopological}
use corekit.Task.Accepted.{validate-IsTopological, has_cycle-ne_ok, edge, further, validate-cycle}
use corekit.Task.Log.{Executes}
use corekit.Task.Answers.{refused, run_internal-Executes, run_internal-refused}
use corekit.Task.Run.{
  GraphRunOptions, Executor, run_inline, reports, submit_each, run_submitted, run_level,
  release_all, finish, after_level, run_loop, run_valid, run_internal,
}

every_step : Unit {0}
unfolding count find assign insert targets add_task add_dependency add_dependencies add_each
    clear_graph call build zeros count_targets count_edges build_indegree ready_nodes release drain
    verdict validate run_inline reports submit_each run_submitted run_level release_all finish
    after_level run_loop run_valid run_internal
every_step = tt

abbrev plain : GraphTaskOptions
plain = record { name = none; priority = normal }

-- Task 4 waits for 2 and 3, and both wait for 1.
abbrev diamond_calls : List Call
diamond_calls =
    adds false plain
    ∷ adds true plain
    ∷ adds false plain
    ∷ adds false plain
    ∷ adds false plain
    ∷ depends 1 2
    ∷ depends 1 3
    ∷ depends 1 3
    ∷ depends 2 2
    ∷ depends 2 9
    ∷ depends_on 4 (some (2 ∷ 3 ∷ [])) 2
    ∷ []

abbrev diamond : SimpleTaskGraph
diamond = build new_graph diamond_calls

diamond_edges : diamond.edges ≡ (1, 2 ∷ 3 ∷ []) ∷ (2, 4 ∷ []) ∷ (3, 4 ∷ []) ∷ (4, []) ∷ []
unfolding every_step
diamond_edges = refl

diamond_next : new_graph.next_id + length diamond_calls < 2 ^ 64
diamond_next = omega arith

build-IsFormed_example : IsFormed diamond
build-IsFormed_example = build-IsFormed new_graph diamond_calls new_graph-IsFormed diamond_next

diamond_valid : validate diamond ≡ some status_ok
unfolding every_step
diamond_valid = refl

validate-IsTopological_example :
    ((validate diamond ≡ some status_ok) ↔ ((order : List ℕ) × IsTopological diamond order))
    × ((validate diamond ≡ some status_ok) ⊎ (validate diamond ≡ some has_cycle))
validate-IsTopological_example = validate-IsTopological build-IsFormed_example

abbrev throws3 : ℕ → Bool
throws3 id = id == 3

abbrev in_pairs : GraphRunOptions
in_pairs = record { fail_fast = false; max_concurrency = 2 }

abbrev fast : GraphRunOptions
fast = record { fail_fast = true; max_concurrency = 1 }

abbrev willing : Executor
willing = record { refuses = λ id. none; waits = λ level. status_ok }

run_internal-diamond : run_internal diamond throws3 (some willing) in_pairs ≡ record {
  result = some (value (record { total = 4; succeeded = 3; failed = 1; canceled = 0 }));
  log = (1 ∷ []) ∷ (2 ∷ 3 ∷ []) ∷ (4 ∷ []) ∷ [];
}
unfolding every_step
run_internal-diamond = refl

-- With `fail_fast` the run stops behind the level that failed.
run_internal-fast : run_internal diamond throws3 none fast ≡ record {
  result = some (value (record { total = 4; succeeded = 2; failed = 1; canceled = 1 }));
  log = (1 ∷ []) ∷ (2 ∷ []) ∷ (3 ∷ []) ∷ [];
}
unfolding every_step
run_internal-fast = refl

-- An executor that refuses task 3 has already been given task 2.
run_internal-refuses :
    run_internal diamond throws3
      (some (record {
        refuses = λ id. if id == 3 then some (ck_task internal_error "full") else none;
        waits = λ level. status_ok;
      }))
      in_pairs
    ≡ record {
      result = some (error (ck_task internal_error "full"));
      log = (1 ∷ []) ∷ (2 ∷ []) ∷ [];
    }
unfolding every_step
run_internal-refuses = refl

diamond_small : length diamond.nodes < 2 ^ 64
unfolding every_step
diamond_small = omega arith

run_internal-Executes_example :
    Executes diamond throws3 in_pairs (run_internal diamond throws3 (some willing) in_pairs)
run_internal-Executes_example =
    run_internal-Executes build-IsFormed_example throws3 (some willing) in_pairs
      ((λ id. refl), λ level. refl) diamond_small diamond_valid

-- Task 3 waits for 2, and 2 for 3.
abbrev ring_calls : List Call
ring_calls =
    adds false plain
    ∷ adds false plain
    ∷ adds false plain
    ∷ depends 1 2
    ∷ depends 2 3
    ∷ depends 3 2
    ∷ []

abbrev ring : SimpleTaskGraph
ring = build new_graph ring_calls

ring_next : new_graph.next_id + length ring_calls < 2 ^ 64
ring_next = omega arith

ring-IsFormed : IsFormed ring
ring-IsFormed = build-IsFormed new_graph ring_calls new_graph-IsFormed ring_next

ring_there : 0 < count (targets ring.edges 2) 3
unfolding every_step
ring_there = omega arith

ring_back : 0 < count (targets ring.edges 3) 2
unfolding every_step
ring_back = omega arith

validate-cycle_example : validate ring ≡ some has_cycle
validate-cycle_example = validate-cycle ring-IsFormed (further (edge ring_there) ring_back)

ring_refused : validate ring ≡ some status_ok → ⊥
ring_refused e = has_cycle-ne_ok (sym validate-cycle_example ∙ e)

run_internal-refused_example : run_internal ring throws3 none fast ≡ refused has_cycle
run_internal-refused_example = run_internal-refused ring-IsFormed throws3 none fast ring_refused
