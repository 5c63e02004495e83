-- ===== src/Concurrent/Tests.antt =====
-- A ring of three elements on a concrete history: it wraps, and three copies throw.
use corekit.Base.{ℕ, ◌==◌, ◌≡◌, refl, false, none, some, List, [], ◌∷◌, arith}
use corekit.Api.Status.{status_ok, value}
use corekit.Concurrent.Ring.{assigned, thrown, removed, not_moved, not_returned, new_ring}
use corekit.Concurrent.Bounded.{
  Call, push, pop, peek, clearing, sizes, tests_full, returned, popped, counted, push_reply,
  queue_call, queue_run, ring_run,
}
use corekit.Concurrent.Fifo.{ring_run-queue}
use corekit.Concurrent.Queue.{
  added, out_of_memory, new_queue, push_each, push_back, queue_push, push_batch, pop_front,
  pop_each, pop_batch,
}
use corekit.Concurrent.Map.{written, not_assigned, bad_alloc}
use corekit.Concurrent.Finite.{IsEquality}
use corekit.Concurrent.Calls as Calls
use corekit.Concurrent.Agree.{map_run-finite}
use corekit.Concurrent.Calls.{map_run, finite_run}
use corekit.Concurrent.Order as Order
use corekit.Concurrent.Order.{pushes, pushes_batch, pops, pops_batch, Orders, run-Orders}

abbrev history : List (Call ℕ)
history =
    push 1 assigned
    ∷ push 2 assigned
    ∷ pop (removed 0)
    ∷ push 3 assigned
    ∷ push 9 (thrown 8)
    ∷ push 4 assigned
    ∷ push 5 assigned
    ∷ pop (not_moved 7)
    ∷ pop (removed 0)
    ∷ pop (not_returned 0)
    ∷ peek false false
    ∷ sizes
    ∷ clearing
    ∷ tests_full
    ∷ []

ring_run-queue_example : ring_run (new_ring 0 3) history ≡ some (queue_run 3 [] history)
ring_run-queue_example = ring_run-queue 0 3 history (omega arith)

-- An element goes through the queue.
short_run :
    queue_run {A = ℕ} 3 [] (push 1 assigned ∷ pop (removed 0) ∷ sizes ∷ [])
    ≡ returned status_ok ∷ popped (value 1) ∷ counted 0 ∷ []
unfolding queue_run queue_call push_reply
short_run = refl

-- A queue of two: a batch of three fills it, and a push is refused.
abbrev batches : List (Order.Call ℕ)
batches =
    pushes 1 added
    ∷ pops 0
    ∷ pushes 2 out_of_memory
    ∷ pushes_batch ((3, added) ∷ (4, added) ∷ (5, added) ∷ [])
    ∷ pushes 6 added
    ∷ pops_batch (0 ∷ 0 ∷ 0 ∷ [])
    ∷ []

run-Orders_example : Orders (new_queue 2) (Order.run (new_queue 2) batches)
run-Orders_example = run-Orders batches (new_queue 2)

batches-deliver : (Order.run (new_queue 2) batches).delivered ≡ 1 ∷ 3 ∷ 4 ∷ []
unfolding Order.run Order.call queue_push push_each push_back push_batch pop_front pop_each
    pop_batch
batches-deliver = refl

-- A map from numbers to numbers, with a write that throws and leaves a default value.
abbrev lookups : List (Calls.Call ℕ ℕ)
lookups =
    Calls.upserts 1 10 written
    ∷ Calls.inserts_or_assigns 1 11 written
    ∷ Calls.inserts_if_absent 1 12 written
    ∷ Calls.upserts 2 20 (not_assigned bad_alloc 0)
    ∷ Calls.finds 2
    ∷ Calls.erases 1
    ∷ Calls.gets 1 false
    ∷ Calls.erases 1
    ∷ Calls.contains_asked 2
    ∷ Calls.clears
    ∷ []

numbers-IsEquality : IsEquality {K = ℕ} ◌==◌
numbers-IsEquality = record { same = λ x. ground arith; sound = λ x y e. ground arith }

map_run-finite_example : map_run ◌==◌ [] lookups ≡ finite_run ◌==◌ (λ k. none) lookups
map_run-finite_example = map_run-finite numbers-IsEquality lookups
