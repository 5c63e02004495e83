-- ===== src/Task/Graph.antt =====
-- The graph of src/task/simple_task_graph.cpp. The callable of a node stands outside the model: a run
-- is told which calls throw.
use corekit.Base.{
  ℕ, ◌+◌, ◌%◌, ◌^◌, Bool, true, false, ◌||◌, not, Option, none, some, List, [], ◌∷◌, String, ltb,
  ◌==◌, if◌then◌else◌,
}
use corekit.Api.Status.{
  Status, StatusCode, Result, value, error, status_ok, is_ok, from_module, invalid_argument,
  not_found, task,
}
use corekit.Task.Table.{find, assign, insert}

pub data TaskPriority : Type 0 where
  low normal high : TaskPriority

pub record GraphTaskOptions : Type 0 where
  pub name : Option String
  pub priority : TaskPriority

pub record TaskNode : Type 0 where
  pub id : ℕ
  pub options : GraphTaskOptions
  pub name : String

pub record SimpleTaskGraph : Type 0 where
  pub nodes : List (ℕ × TaskNode)
  pub edges : List (ℕ × List ℕ)
  pub next_id : ℕ

abbrev pub ck_task : StatusCode → String → Status
ck_task code message = from_module code message task 0

abbrev pub new_graph : SimpleTaskGraph
new_graph = record { nodes = []; edges = []; next_id = 1 }

abbrev pub given_or : Option String → String → String
given_or none default = default
given_or (some s) default = s

abbrev pub or_empty : Option (List ℕ) → List ℕ
or_empty none = []
or_empty (some out) = out

-- `edges_[id]`, which is an empty set where there is no entry.
unfoldable pub targets : List (ℕ × List ℕ) → ℕ → List ℕ
targets edges id = or_empty (find edges id)

unfoldable pub add_task : SimpleTaskGraph → Bool → GraphTaskOptions → Result ℕ × SimpleTaskGraph
unfolding targets
add_task g fn_is_null options =
    let id = g.next_id in
    let node : TaskNode = record { id = id; options = options; name = given_or options.name "" } in
    if fn_is_null then (error (ck_task invalid_argument "fn is null"), g) else (
      value id,
      record {
        nodes = assign g.nodes id node;
        edges = assign g.edges id (targets g.edges id);
        next_id = (id + 1) % 2 ^ 64;
      },
    )

abbrev pub has {ℓ} : {A : Type ℓ} → Option A → Bool
has none = false
has (some a) = true

unfoldable pub add_dependency : SimpleTaskGraph → ℕ → ℕ → Status × SimpleTaskGraph
unfolding targets
add_dependency g before after =
    if before == after
    then (ck_task invalid_argument "self dependency is not allowed", g)
    else if not (has (find g.nodes before)) || not (has (find g.nodes after))
    then (ck_task not_found "task id not found", g)
    else (
      status_ok,
      record g { edges = assign g.edges before (insert (targets g.edges before) after) },
    )

-- The loop of `AddDependencies`.
unfoldable pub add_each : SimpleTaskGraph → ℕ → List ℕ → Status × SimpleTaskGraph
add_each g after [] = (status_ok, g)
add_each g after (b ∷ befores) =
    let out = add_dependency g b after in
    let rest = add_each out.1 after befores in if is_ok out.0 then rest else out

-- `none` is the null pointer.
unfoldable pub add_dependencies :
    SimpleTaskGraph → ℕ → Option (List ℕ) → ℕ → Status × SimpleTaskGraph
add_dependencies g after none n =
    if ltb 0 n then (ck_task invalid_argument "before_task_ids is null", g) else (status_ok, g)
add_dependencies g after (some befores) n = add_each g after befores

unfoldable pub clear_graph : SimpleTaskGraph → Status × SimpleTaskGraph
clear_graph g = (status_ok, new_graph)
