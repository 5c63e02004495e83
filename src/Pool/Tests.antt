-- ===== src/Pool/Tests.antt =====
-- Histories of src/task/thread_pool_executor.cpp, and the theorems at them.
use corekit.Base.{
  ℕ, none, Bool, ◌==◌, ◌+◌, ◌-◌, ◌%◌, ◌^◌, ◌<◌, ◌≡◌, ◌≢◌, inr, refl, true, false, some, List, [],
  ◌∷◌, length, arith,
}
use corekit.Base.Count.{mem, count}
use corekit.Api.Status.{status_ok}
use corekit.Task.Graph.{normal, high}
use corekit.Pool.State.{
  hybrid_fair_priority, ExecutorOptions, TaskSubmitOptions, tracked, taken, begun, ThreadPool,
  new_pool, erased,
}
use corekit.Pool.Submit.{
  enqueue_task, submit, find_mutex, announce, announced, submit_ex, wait, wait_batch, try_cancel,
  is_task_succeeded,
}
use corekit.Pool.Work.{
  pick_from, pick_next, entry_at, set_at, erase_at, take_entry, take_task, expire, mark_task_done,
  is_held, advance_worker, Event, submits, submits_ex, cancels, takes, advances, happens, happen,
}
use corekit.Pool.Safe.{IsSafe, happen-IsSafe}
use corekit.Pool.Picked.{IsFirstOfHighest, happen-picks}
use corekit.Pool.Chunks.{chunks, run_from, run_chunks, Covers, chunks-Covers}
use corekit.Pool.Wrapped.{chunks-below}
use corekit.Pool.Expired.{IsForgotten, mark_task_done-IsForgotten}
use corekit.Pool.Canceled.{try_cancel-twice}

every_step : Unit {0}
unfolding mem count erased enqueue_task submit find_mutex announce announced submit_ex wait
    wait_batch try_cancel is_task_succeeded pick_from pick_next entry_at set_at erase_at take_entry
    take_task expire mark_task_done is_held advance_worker happens happen chunks run_from run_chunks
every_step = tt

abbrev two_workers : ExecutorOptions
two_workers = record { worker_count = 2; queue_capacity = 4; policy = hybrid_fair_priority }

abbrev keyed : TaskSubmitOptions
keyed = record { priority = normal; serial_key = 7 }

abbrev urgent : TaskSubmitOptions
urgent = record { priority = high; serial_key = 0 }

-- Tasks 1 and 2 have one key, task 3 is urgent; 2 is canceled, and one more worker finds no room.
abbrev busy : List Event
busy =
    submits_ex false keyed
    ∷ submits_ex false keyed
    ∷ takes
    ∷ submits_ex false urgent
    ∷ cancels 2
    ∷ takes
    ∷ takes
    ∷ advances 1 false
    ∷ submits false
    ∷ []

abbrev busy_pool : ThreadPool
busy_pool = happen (new_pool 8 two_workers) busy

-- Task 3 was picked before task 2.
busy_workers :
    busy_pool.workers ≡ (tracked 3 0 none, taken) ∷ (tracked 1 7 (some 0), begun false) ∷ []
unfolding every_step
busy_workers = refl

-- Both tasks end; task 2 is taken, and skipped, and then the plain one throws.
abbrev rest : List Event
rest =
    advances 0 false
    ∷ advances 0 true
    ∷ advances 0 true
    ∷ advances 0 true
    ∷ takes
    ∷ advances 0 false
    ∷ advances 1 false
    ∷ advances 1 false
    ∷ advances 0 false
    ∷ advances 0 false
    ∷ advances 0 false
    ∷ takes
    ∷ advances 0 true
    ∷ advances 0 true
    ∷ []

rest_stats : (happen busy_pool rest).stats ≡ record {
  submitted = 4;
  completed = 1;
  failed = 2;
  canceled = 1;
  rejected = 0;
  stolen = 0;
  queue_depth = 0;
  queue_high_watermark = 2;
}
unfolding every_step
rest_stats = refl

rest_workers : (happen busy_pool rest).workers ≡ []
unfolding every_step
rest_workers = refl

busy_small : length busy + 1 < 2 ^ 64
busy_small = omega arith

happen-IsSafe_example : IsSafe busy_pool
happen-IsSafe_example = happen-IsSafe 8 two_workers busy busy_small

busy_policy : busy_pool.options.policy ≡ hybrid_fair_priority
unfolding every_step
busy_policy = refl

busy_queued : busy_pool.tasks ≢ []
unfolding every_step
busy_queued e = cc

happen-picks_example :
    IsFirstOfHighest busy_pool.tasks (pick_next busy_pool.options.policy busy_pool.tasks)
happen-picks_example = happen-picks 8 two_workers busy busy_small (inr busy_policy) busy_queued

abbrev calm : ℕ → Bool
calm i = false

abbrev takes_all : ℕ × ℕ → Bool
takes_all c = false

chunks-Covers_example : Covers calm takes_all 3 12 (chunks 9 4 3 12)
chunks-Covers_example =
    chunks-Covers calm takes_all 9 4 3 12 (omega arith) (omega arith) (omega arith) (λ i. refl)
      (λ c. refl)

-- A call that throws takes the rest of its range along, and no other.
chunks_throw : run_chunks (λ i. i == 5) takes_all ((3, 7) ∷ (7, 9) ∷ []) ≡ 3 ∷ 4 ∷ 5 ∷ 7 ∷ 8 ∷ []
unfolding every_step
chunks_throw = refl

chunks_ranges : chunks 9 4 3 12 ≡ some ((3, 7) ∷ (7, 11) ∷ (11, 12) ∷ [])
unfolding every_step
chunks_ranges = refl

-- One grain of the largest size, to get one range.
chunks-below_example :
    (chunks 2 (2 ^ 64 - 1) 1 10 ≡ some ((1, 0) ∷ (0, 10) ∷ []))
    × (0 < 1)
    × (0 < count (run_chunks calm takes_all ((1, 0) ∷ (0, 10) ∷ [])) 0)
chunks-below_example =
    chunks-below calm takes_all 0 (2 ^ 64 - 1) 1 10 0 (omega arith) (omega arith) (omega arith)
      (omega arith) (omega arith) refl refl

-- A pool with a window of one finished task, in which task 1 is finished and task 2 is about to be.
abbrev narrow_pool : ThreadPool
narrow_pool =
    happen (record (new_pool 8 two_workers) { max_retained_states = 1 })
      (submits_ex false urgent
        ∷ submits_ex false urgent
        ∷ takes
        ∷ advances 0 false
        ∷ advances 0 false
        ∷ [])

narrow_done : narrow_pool.done_ids ≡ 1 ∷ []
unfolding every_step
narrow_done = refl

narrow_full : length narrow_pool.done_ids ≡ narrow_pool.max_retained_states
unfolding every_step
narrow_full = refl

narrow_known : mem narrow_pool.states 2 ≡ true
unfolding every_step
narrow_known = refl

narrow_state : (narrow_pool.objects 1).done ≡ true
unfolding every_step
narrow_state = refl

mark_task_done-IsForgotten_example :
    IsForgotten (mark_task_done narrow_pool 2 true false) 1
    × (length (mark_task_done narrow_pool 2 true false).done_ids ≡ narrow_pool.max_retained_states)
mark_task_done-IsForgotten_example =
    mark_task_done-IsForgotten narrow_pool 2 1 [] true false narrow_done narrow_full narrow_known
      narrow_state

narrow_started : (narrow_pool.objects 2).started ≡ false
unfolding every_step
narrow_started = refl

narrow_open : (narrow_pool.objects 2).done ≡ false
unfolding every_step
narrow_open = refl

try_cancel-twice_example :
    ((try_cancel narrow_pool 2).0 ≡ status_ok)
    × ((try_cancel (try_cancel narrow_pool 2).1 2).0 ≡ status_ok)
    × ((try_cancel (try_cancel narrow_pool 2).1 2).1.stats.canceled
        ≡ (narrow_pool.stats.canceled + 2) % 2 ^ 64)
try_cancel-twice_example = try_cancel-twice narrow_pool 2 narrow_known narrow_started narrow_open
