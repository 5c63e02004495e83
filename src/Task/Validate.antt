-- ===== src/Task/Validate.antt =====
-- `BuildIndegree` and `Validate` of src/task/simple_task_graph.cpp.
use corekit.Base.{
  ℕ, zero, suc, ◌+◌, ◌-◌, Option, none, some, List, [], ◌∷◌, ◌++◌, length, ◌==◌, if◌then◌else◌,
}
use corekit.Api.Status.{Status, status_ok, internal_error, invalid_argument}
use corekit.Task.Table.{find, assign}
use corekit.Task.Graph.{TaskNode, SimpleTaskGraph, ck_task, targets}

-- `indegree`.
abbrev pub Degrees : Type 0
Degrees = List (ℕ × ℕ)

unfoldable pub zeros : List (ℕ × TaskNode) → Degrees → Degrees
zeros [] deg = deg
zeros ((id, node) ∷ nodes) deg = zeros nodes (assign deg id 0)

-- The inner loop of `BuildIndegree`; `none` is a target without a node.
unfoldable pub count_targets : List ℕ → Degrees → Option Degrees
count_targets [] deg = some deg
count_targets (dst ∷ rest) deg = elim (find deg dst) [
  | none ↦ none
  | some n ↦ count_targets rest (assign deg dst (n + 1))
]

unfoldable pub count_edges : List (ℕ × List ℕ) → Degrees → Option Degrees
count_edges [] deg = some deg
count_edges ((src, out) ∷ edges) deg = elim (count_targets out deg) [
  | none ↦ none
  | some deg' ↦ count_edges edges deg'
]

unfoldable pub build_indegree : SimpleTaskGraph → Option Degrees
unfolding zeros count_edges
build_indegree g = count_edges g.edges (zeros g.nodes [])

abbrev pub missing_node : Status
missing_node = ck_task internal_error "edge references missing node"

abbrev pub missing_degree : Status
missing_degree = ck_task internal_error "indegree missing for destination node"

abbrev pub has_cycle : Status
has_cycle = ck_task invalid_argument "task graph contains cycle or unresolved dependency"

-- The nodes that wait for nothing, in the order of their numbers.
unfoldable pub ready_nodes : Degrees → List ℕ
ready_nodes [] = []
ready_nodes ((id, n) ∷ deg) = let rest = ready_nodes deg in if n == 0 then id ∷ rest else rest

-- The loop over the targets of a finished node: a target that now waits for nothing gets ready. A
-- subtraction at 0 gives 0, and so does `◌-◌`.
unfoldable pub release : List ℕ → Degrees → List ℕ → Option (Degrees × List ℕ)
release [] deg ready = some (deg, ready)
release (dst ∷ rest) deg ready = elim (find deg dst) [
  | none ↦ none
  | some n ↦ release rest (assign deg dst (n - 1)) (if n - 1 == 0 then ready ++ dst ∷ [] else ready)
]

pub data Drained : Type 0 where
  missing out_of_fuel : Drained
  drained : ℕ → Drained

-- The `while` loop of `Validate`. Each round takes one node, and no node gets ready twice.
unfoldable pub drain : ℕ → List (ℕ × List ℕ) → Degrees → List ℕ → (processed : ℕ) → Drained
drain fuel edges deg [] processed = drained processed
drain zero edges deg (id ∷ ready) processed = out_of_fuel
drain (suc fuel) edges deg (id ∷ ready) processed = elim (release (targets edges id) deg ready) [
  | none ↦ missing
  | some (deg', ready') ↦ drain fuel edges deg' ready' (suc processed)
]

-- `none` means that the fuel ran out.
unfoldable pub verdict : ℕ → Drained → Option Status
verdict total missing = some missing_degree
verdict total out_of_fuel = none
verdict total (drained processed) = some (if processed == total then status_ok else has_cycle)

unfoldable pub validate : SimpleTaskGraph → Option Status
unfolding drain verdict
validate g = elim (build_indegree g) [
  | none ↦ some missing_node
  | some deg ↦ verdict (length g.nodes) (drain (length g.nodes) g.edges deg (ready_nodes deg) 0)
]
