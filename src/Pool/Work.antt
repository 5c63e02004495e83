-- ===== src/Pool/Work.antt =====
-- The workers of src/task/thread_pool_executor.cpp: each of their critical sections is a step.
use corekit.Base.{
  ℕ, zero, suc, ◌+◌, ◌-◌, ◌%◌, ◌^◌, Bool, true, false, ◌&&◌, ◌||◌, not, Option, none, some, List,
  [], ◌∷◌, ◌++◌, length, ltb, ◌==◌, if◌then◌else◌,
}
use corekit.Base.Count.{mem}
use corekit.Task.Graph.{TaskPriority, low, normal, high}
use corekit.Pool.State.{
  ExecutorPolicy, fifo, by_priority, fair, hybrid_fair_priority, ExecutorOptions, ExecutorStats,
  TaskSubmitOptions, TaskState, plain, tracked, TaskEntry, taken, threw, over, begun, Worker,
  ThreadPool, next64, erased, set_state,
}
use corekit.Pool.Submit.{submit, submit_ex, try_cancel, reconfigure}

abbrev pub score : TaskPriority → ℕ
score high = 2
score normal = 1
score low = 0

-- The loop of PickNextTaskIndexLocked from the place `i` on.
unfoldable pub pick_from : List TaskEntry → (i best best_score best_seq : ℕ) → ℕ
pick_from [] i best best_score best_seq = best
pick_from (e ∷ es) i best best_score best_seq =
    let better = pick_from es (suc i) i (score e.priority) e.seq in
    let worse = pick_from es (suc i) best best_score best_seq in
    if ltb best_score (score e.priority) || ((score e.priority == best_score) && ltb e.seq best_seq)
    then better
    else worse

abbrev pub pick_best : List TaskEntry → ℕ
pick_best [] = 0
pick_best (e ∷ es) = pick_from es 1 0 (score e.priority) e.seq

unfoldable pub pick_next : ExecutorPolicy → List TaskEntry → ℕ
pick_next fifo es = 0
pick_next fair es = 0
pick_next by_priority es = pick_best es
pick_next hybrid_fair_priority es = pick_best es

module _ {ℓ} {A : Type ℓ} where
  unfoldable pub entry_at : List A → ℕ → Option A
  entry_at [] i = none
  entry_at (x ∷ xs) zero = some x
  entry_at (x ∷ xs) (suc i) = entry_at xs i

  unfoldable pub set_at : List A → ℕ → A → List A
  set_at [] i y = []
  set_at (x ∷ xs) zero y = y ∷ xs
  set_at (x ∷ xs) (suc i) y = x ∷ set_at xs i y

  unfoldable pub erase_at : List A → ℕ → List A
  erase_at [] i = []
  erase_at (x ∷ xs) zero = xs
  erase_at (x ∷ xs) (suc i) = x ∷ erase_at xs i

-- A worker takes the entry at the place that was picked.
unfoldable pub take_entry : ThreadPool → ℕ → Option TaskEntry → ThreadPool
take_entry p i none = p
take_entry p i (some e) = record p {
  tasks = erase_at p.tasks i;
  workers = (e.fn, taken) ∷ p.workers;
  active_workers = next64 p.active_workers;
}

-- The first section of a round of WorkerLoop, by a worker that has nothing to do, if there is one.
unfoldable pub take_task : ThreadPool → ThreadPool
take_task p =
    let i = pick_next p.options.policy p.tasks in
    if ltb (length p.workers) p.options.worker_count then take_entry p i (entry_at p.tasks i) else p

-- Finished tasks beyond the window are forgotten, the oldest first.
unfoldable pub expire : ℕ → (ℕ → TaskState) → (done_ids states : List ℕ) → List ℕ × List ℕ
expire window objects [] states = ([], states)
expire window objects (old ∷ ids) states =
    let states' = if mem states old && (objects old).done then erased states old else states in
    let rest = expire window objects ids states' in
    if ltb window (length (old ∷ ids)) then rest else (old ∷ ids, states)

abbrev pub finished_stats : ExecutorStats → (canceled executed failed : Bool) → ExecutorStats
finished_stats s true executed failed = s
finished_stats s false executed true = record s { failed = next64 s.failed }
finished_stats s false true false = record s { completed = next64 s.completed }
finished_stats s false false false = s

unfoldable pub mark_task_done : ThreadPool → ℕ → (executed failed : Bool) → ThreadPool
mark_task_done p id executed failed =
    let state = record (p.objects id) { done = true; succeeded = executed && not failed } in
    let objects' = set_state p.objects id state in
    let kept = expire p.max_retained_states objects' (p.done_ids ++ id ∷ []) p.states in
    if mem p.states id
    then record p {
      objects = objects';
      pending_ids = erased p.pending_ids id;
      done_ids = kept.0;
      states = kept.1;
      stats = finished_stats p.stats (p.objects id).canceled executed failed;
    }
    else p

-- Whether a worker holds a mutex. It does from its second section until its callable returns or
-- throws.
abbrev pub holds : ℕ → Worker → Bool
holds m (tracked id key (some key_mu), begun c) = key_mu == m
holds m w = false

unfoldable pub is_held : List Worker → ℕ → Bool
is_held [] m = false
is_held (w ∷ ws) m = let rest = is_held ws m in if holds m w then true else rest

-- Whether a worker that waits for this mutex, if there is one to wait for, gets on.
abbrev pub is_free : List Worker → Option ℕ → Bool
is_free ws none = true
is_free ws (some m) = not (is_held ws m)

abbrev pub plain_stats : ExecutorStats → (throws : Bool) → ExecutorStats
plain_stats s true = record s { failed = next64 s.failed }
plain_stats s false = record s { completed = next64 s.completed }

-- The next section of the worker at the place `i`; `throws` says whether its callable does, where it
-- calls it.
unfoldable pub advance_worker : ThreadPool → (i : ℕ) → (throws : Bool) → Option Worker → ThreadPool
advance_worker p i throws none = p
advance_worker p i throws (some (plain, taken)) = record p {
  stats = plain_stats p.stats throws;
  workers = set_at p.workers i (plain, over);
}
advance_worker p i throws (some (plain, begun c)) = p
advance_worker p i throws (some (plain, threw)) = p
advance_worker p i throws (some (tracked id key key_mu, taken)) =
    if is_free p.workers key_mu
    then record p {
      objects = set_state p.objects id (record (p.objects id) { started = true });
      workers = set_at p.workers i (tracked id key key_mu, begun (p.objects id).canceled);
    }
    else p
advance_worker p i throws (some (tracked id key key_mu, begun true)) =
    record (mark_task_done p id false false) {
      workers = set_at p.workers i (tracked id key key_mu, over);
    }
advance_worker p i true (some (tracked id key key_mu, begun false)) = record p {
  workers = set_at p.workers i (tracked id key key_mu, threw);
}
advance_worker p i false (some (tracked id key key_mu, begun false)) =
    record (mark_task_done p id true false) {
      workers = set_at p.workers i (tracked id key key_mu, over);
    }
advance_worker p i throws (some (tracked id key key_mu, threw)) =
    record (mark_task_done p id false true) {
      workers = set_at p.workers i (tracked id key key_mu, over);
    }
advance_worker p i throws (some (job, over)) = record p {
  workers = erase_at p.workers i;
  active_workers = (p.active_workers + 2 ^ 64 - 1) % 2 ^ 64;
  pending_tasks = p.pending_tasks - 1;
  stats = record (p.stats) { queue_depth = length p.tasks };
}

-- The calls of the clients and the sections of the workers, in any order.
pub data Event : Type 0 where
  submits : (fn_is_empty : Bool) → Event
  submits_ex : (fn_is_empty : Bool) → TaskSubmitOptions → Event
  cancels : (id : ℕ) → Event
  reconfigures : ExecutorOptions → Event
  stops takes : Event
  advances : (i : ℕ) → (throws : Bool) → Event

unfoldable pub happens : ThreadPool → Event → ThreadPool
happens p (submits fn_is_empty) = (submit p fn_is_empty).1
happens p (submits_ex fn_is_empty o) = (submit_ex p fn_is_empty o).1
happens p (cancels id) = (try_cancel p id).1
happens p (reconfigures o) = (reconfigure p o).1
happens p stops = record p { stopping = true }
happens p takes = take_task p
happens p (advances i throws) = advance_worker p i throws (entry_at p.workers i)

unfoldable pub happen : ThreadPool → List Event → ThreadPool
happen p [] = p
happen p (e ∷ es) = happen (happens p e) es
