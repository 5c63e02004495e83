-- ===== src/Concurrent/Queue.antt =====
-- `BasicMutexQueueImpl` of src/concurrent/basic_queue_impl.hpp. How the copies and moves of elements
-- end is an argument; `none` is an exception that leaves the call. A batch is the list of its
-- elements, and a count is returned, also where the caller passes no pointer for it.
use corekit.Base.{
  ℕ, ◌+◌, Bool, true, false, ◌&&◌, Option, none, some, List, [], ◌∷◌, ◌++◌, length, ltb, leb, ◌==◌,
  if◌then◌else◌,
}
use corekit.Api.Status.{
  Status, Result, value, error, status_ok, would_block, internal_error, invalid_argument,
}
use corekit.Concurrent.Ring.{Removal, removed, not_moved, not_returned, ck_status}

-- How `push_back` ends; one that throws changes nothing.
pub data Insertion : Type 0 where
  added out_of_memory thrown : Insertion

pub record MutexQueue {ℓ} (A : Type ℓ) : Type ℓ where
  pub capacity : ℕ
  pub queue : List A

abbrev pub queue_full : Status
queue_full = ck_status would_block "queue is full"

abbrev pub queue_empty : Status
queue_empty = ck_status would_block "queue is empty"

module _ {ℓ} {A : Type ℓ} where
  abbrev pub new_queue : ℕ → MutexQueue A
  new_queue capacity = record { capacity = capacity; queue = [] }

  -- A queue of capacity 0 is not bounded.
  abbrev pub at_capacity : MutexQueue A → Bool
  at_capacity s = ltb 0 s.capacity && leb s.capacity (length s.queue)

  unfoldable pub push_back : MutexQueue A → A → Insertion → Status × MutexQueue A
  push_back s a added = (status_ok, record s { queue = s.queue ++ a ∷ [] })
  push_back s a out_of_memory = (ck_status internal_error "queue allocation failed", s)
  push_back s a thrown = (ck_status internal_error "queue push failed", s)

  -- `TryPush` and `TryPushMove`.
  unfoldable pub queue_push : MutexQueue A → A → Insertion → Status × MutexQueue A
  queue_push s a ending = if at_capacity s then (queue_full, s) else push_back s a ending

  -- The loop of `TryPushBatch`, with `done` elements pushed.
  unfoldable pub push_each : MutexQueue A → ℕ → List (A × Insertion) → Status × ℕ × MutexQueue A
  push_each s done [] = (status_ok, done, s)
  push_each s done ((a, added) ∷ rest) =
      let more = push_each (push_back s a added).1 (done + 1) rest in
      if at_capacity s then (queue_full, done, s) else more
  push_each s done ((a, ending) ∷ rest) =
      if at_capacity s then (queue_full, done, s) else ((push_back s a ending).0, done, s)

  -- With no pointer to the values, only their number `count` matters.
  unfoldable pub push_batch :
      MutexQueue A → Option (List (A × Insertion)) → ℕ → Status × ℕ × MutexQueue A
  push_batch s none count =
      if ltb 0 count then (ck_status invalid_argument "values is null", 0, s) else (status_ok, 0, s)
  push_batch s (some values) count = push_each s 0 values

  -- `TryPop`, by the elements.
  unfoldable pub pop_front : List A → MutexQueue A → Removal A → Option (Result A) × MutexQueue A
  pop_front [] s ending = (some (error queue_empty), s)
  pop_front (a ∷ q) s (removed left) = (some (value a), record s { queue = q })
  pop_front (a ∷ q) s (not_moved left) = (none, record s { queue = left ∷ q })
  pop_front (a ∷ q) s (not_returned left) = (none, record s { queue = q })

  abbrev pub queue_pop : MutexQueue A → Removal A → Option (Result A) × MutexQueue A
  queue_pop s ending = pop_front s.queue s ending

  -- What is written to `*out`, if it is.
  unfoldable pub peek_front : List A → Bool → Bool → Option (Status × Option A)
  peek_front q true throws = some (ck_status invalid_argument "out is null", none)
  peek_front [] false throws = some (queue_empty, none)
  peek_front (a ∷ q) false true = none
  peek_front (a ∷ q) false false = some (status_ok, some a)

  abbrev pub queue_peek : MutexQueue A → Bool → Bool → Option (Status × Option A)
  queue_peek s out_is_null throws = peek_front s.queue out_is_null throws

  -- The loop of `TryPopBatch` for as many moves as the caller has room: each succeeds, or throws
  -- and leaves something in the element. What is written to `out_values`, and the rest.
  unfoldable pub pop_each : List (Option A) → List A → Status × List A × List A
  pop_each [] q = (status_ok, [], q)
  pop_each (e ∷ es) [] = (status_ok, [], [])
  pop_each (none ∷ es) (a ∷ q) = let more = pop_each es q in (more.0, a ∷ more.1, more.2)
  pop_each (some left ∷ es) (a ∷ q) =
      (ck_status internal_error "queue pop batch failed", [], left ∷ q)

  unfoldable pub pop_batch : MutexQueue A → Bool → List (Option A) → Status × List A × MutexQueue A
  pop_batch s out_is_null moves =
      let out = pop_each moves s.queue in
      if out_is_null && ltb 0 (length moves)
      then (ck_status invalid_argument "out_values is null", [], s)
      else if length s.queue == 0
      then (queue_empty, [], s)
      else (out.0, out.1, record s { queue = out.2 })

  unfoldable pub queue_clear : MutexQueue A → Status × MutexQueue A
  queue_clear s = (status_ok, record s { queue = [] })
