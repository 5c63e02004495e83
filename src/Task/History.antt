-- ===== src/Task/History.antt =====
-- Histories of calls that build a graph keep it well formed.
use corekit.Base.{
  ℕ, ◌+◌, ◌^◌, ◌≤◌, ◌<◌, ◌≡◌, inl, inr, refl, Bool, Option, none, some, List, [], ◌∷◌, length, ltb,
  Bool-cases, arith,
}
use corekit.Task.Graph.{
  SimpleTaskGraph, GraphTaskOptions, add_task, add_dependency, add_each, add_dependencies,
  clear_graph,
}
use corekit.Task.Formed.{
  IsFormed, add_task-IsFormed, add_dependency-IsFormed, add_each-IsFormed, new_graph-IsFormed,
}

pub data Call : Type 0 where
  adds : (fn_is_null : Bool) → GraphTaskOptions → Call
  depends : (before after : ℕ) → Call
  depends_on : (after : ℕ) → Option (List ℕ) → (n : ℕ) → Call
  clears : Call

unfoldable pub call : SimpleTaskGraph → Call → SimpleTaskGraph
call g (adds fn_is_null options) = (add_task g fn_is_null options).1
call g (depends before after) = (add_dependency g before after).1
call g (depends_on after befores n) = (add_dependencies g after befores n).1
call g clears = (clear_graph g).1

unfoldable pub build : SimpleTaskGraph → List Call → SimpleTaskGraph
build g [] = g
build g (c ∷ cs) = build (call g c) cs

add_dependencies-IsFormed :
    {g : SimpleTaskGraph} (after : ℕ) (befores : Option (List ℕ)) (n : ℕ)
    → IsFormed g
    → IsFormed (add_dependencies g after befores n).1
unfolding add_dependencies
add_dependencies-IsFormed after none n f = elim (Bool-cases (ltb 0 n)) [
  | inl some_ids ↦ simp (some_ids) f
  | inr no_ids ↦ simp (no_ids) f
]
add_dependencies-IsFormed after (some befores) n f = add_each-IsFormed after befores f

call-IsFormed :
    {g : SimpleTaskGraph} (c : Call) → IsFormed g → g.next_id + 1 < 2 ^ 64 → IsFormed (call g c)
unfolding call clear_graph
call-IsFormed (adds fn_is_null options) f room = add_task-IsFormed fn_is_null options f room
call-IsFormed (depends before after) f room = add_dependency-IsFormed before after f
call-IsFormed (depends_on after befores n) f room = add_dependencies-IsFormed after befores n f
call-IsFormed clears f room = new_graph-IsFormed

-- A call gives out one number at most.
add_dependency-next_id :
    (g : SimpleTaskGraph) (before after : ℕ) → (add_dependency g before after).1.next_id ≡ g.next_id
unfolding add_dependency
add_dependency-next_id g before after = ground arith

add_each-next_id :
    (g : SimpleTaskGraph) (after : ℕ) (befores : List ℕ)
    → (add_each g after befores).1.next_id ≡ g.next_id
unfolding add_each
add_each-next_id g after [] = refl
add_each-next_id g after (b ∷ befores) = ground (
  arith,
  add_dependency-next_id g b after,
  add_each-next_id (add_dependency g b after).1 after befores,
)

call-next_id : (g : SimpleTaskGraph) (c : Call) → (call g c).next_id ≤ g.next_id + 1
unfolding call clear_graph add_task add_dependencies
call-next_id g (adds fn_is_null options) = ground arith
call-next_id g (depends before after) = omega (arith, add_dependency-next_id g before after)
call-next_id g (depends_on after none n) = ground arith
call-next_id g (depends_on after (some befores) n) = omega (arith, add_each-next_id g after befores)
call-next_id g clears = omega arith

-- After any history of calls that build a graph, shorter than the numbers of a 64-bit counter, the
-- graph is well formed: its nodes are in order, edges lead from a node to another node, and the
-- next number is new.
pub build-IsFormed :
    (g : SimpleTaskGraph) (calls : List Call)
    → IsFormed g
    → g.next_id + length calls < 2 ^ 64
    → IsFormed (build g calls)
unfolding build
build-IsFormed g [] f room = f
build-IsFormed g (c ∷ cs) f room =
    build-IsFormed (call g c) cs (call-IsFormed c f (omega arith)) (omega (arith, call-next_id g c))
