-- ===== src/Pool/Submit.antt =====
-- The calls of src/task/thread_pool_executor.cpp that clients make. The critical sections of one
-- call of SubmitEx are one step.
use corekit.Base.{
  ℕ, Bool, true, ◌&&◌, ◌||◌, not, Option, none, some, List, [], ◌∷◌, ◌++◌, length, ltb, leb, ◌==◌,
  if◌then◌else◌, zero, suc, ◌+◌,
}
use corekit.Base.Count.{mem}
use corekit.Api.Status.{
  Status, Result, value, error, status_ok, is_ok, internal_error, invalid_argument, not_found,
  would_block,
}
use corekit.Task.Graph.{TaskPriority, ck_task}
use corekit.Pool.State.{
  ExecutorOptions, ExecutorStats, TaskSubmitOptions, default_submit, new_state, Job, plain, tracked,
  TaskEntry, ThreadPool, next64, with_key, erased, set_state, set_mutex,
}

abbrev pub at_least : ℕ → ℕ → ℕ
at_least a b = if ltb b a then a else b

unfoldable pub enqueue_task : ThreadPool → Job → TaskPriority → Status × ThreadPool
enqueue_task p fn priority =
    let entry : TaskEntry = record { fn = fn; priority = priority; seq = next64 p.enqueue_seq } in
    let tasks' = p.tasks ++ entry ∷ [] in
    if p.stopping
    then (ck_task internal_error "executor is stopping, cannot accept new tasks", p)
    else if ltb 0 p.options.queue_capacity && leb p.options.queue_capacity (length p.tasks)
    then (
      ck_task would_block "executor queue is full",
      record p { stats = record (p.stats) { rejected = next64 p.stats.rejected } },
    )
    else (
      status_ok,
      record p {
        enqueue_seq = next64 p.enqueue_seq;
        tasks = tasks';
        pending_tasks = next64 p.pending_tasks;
        stats = record (p.stats) {
          submitted = next64 p.stats.submitted;
          queue_depth = length tasks';
          queue_high_watermark = at_least (length tasks') p.stats.queue_high_watermark;
        };
      },
    )

unfoldable pub submit : ThreadPool → (fn_is_empty : Bool) → Status × ThreadPool
submit p fn_is_empty =
    if fn_is_empty
    then (ck_task invalid_argument "fn is empty", p)
    else enqueue_task p plain default_submit.priority

-- The mutex of a key that is not 0: the one that is stored, or a new one, which is stored.
abbrev pub stored_mutex : ThreadPool → ℕ → Option ℕ → Option ℕ × ThreadPool
stored_mutex p key (some m) = (some m, p)
stored_mutex p key none = (
  some p.next_mutex,
  record p {
    serial_key_mu = set_mutex p.serial_key_mu key p.next_mutex;
    next_mutex = p.next_mutex + 1;
  },
)

-- The first section of SubmitEx.
unfoldable pub find_mutex : ThreadPool → (serial_key : ℕ) → Option ℕ × ThreadPool
find_mutex p zero = (none, p)
find_mutex p (suc k) = stored_mutex p (suc k) (p.serial_key_mu (suc k))

-- The second section of SubmitEx.
unfoldable pub announce : ThreadPool → ThreadPool
announce p = record p {
  next_task_id = next64 p.next_task_id;
  objects = set_state p.objects p.next_task_id new_state;
  states = with_key p.states p.next_task_id;
  pending_ids = with_key p.pending_ids p.next_task_id;
}

-- The end of SubmitEx.
unfoldable pub announced : Status × ThreadPool → ℕ → Result ℕ × ThreadPool
announced (st, p) id =
    if is_ok st
    then (value id, p)
    else (error st, record p { states = erased p.states id; pending_ids = erased p.pending_ids id })

unfoldable pub submit_ex :
    ThreadPool → (fn_is_empty : Bool) → TaskSubmitOptions → Result ℕ × ThreadPool
unfolding find_mutex announce announced
submit_ex p fn_is_empty o =
    let keyed = find_mutex p o.serial_key in
    let id = p.next_task_id in
    if fn_is_empty
    then (error (ck_task invalid_argument "fn is empty"), p)
    else announced (enqueue_task (announce keyed.1) (tracked id o.serial_key keyed.0) o.priority) id

abbrev pub submit_with_key : ThreadPool → (serial_key : ℕ) → Bool → Result ℕ × ThreadPool
submit_with_key p serial_key fn_is_empty =
    submit_ex p fn_is_empty (record default_submit { serial_key = serial_key })

-- What a call of Wait with no limit of time answers, or `none` while it blocks.
unfoldable pub wait : ThreadPool → ℕ → Option Status
wait p id =
    if not (mem p.states id)
    then some (ck_task not_found "task id not found")
    else if (p.objects id).done
    then some status_ok
    else none

-- WaitBatch with no limit of time.
unfoldable pub wait_batch : ThreadPool → List ℕ → Option Status
unfolding wait
wait_batch p [] = some status_ok
wait_batch p (id ∷ ids) = elim (wait p id) [
  | none ↦ none
  | some st ↦ if is_ok st then wait_batch p ids else some st
]

unfoldable pub try_cancel : ThreadPool → ℕ → Status × ThreadPool
try_cancel p id =
    if not (mem p.states id)
    then (ck_task not_found "task id not found", p)
    else if (p.objects id).started || (p.objects id).done
    then (ck_task would_block "task already running or done", p)
    else (
      status_ok,
      record p {
        objects = set_state p.objects id (record (p.objects id) { canceled = true });
        stats = record (p.stats) { canceled = next64 p.stats.canceled };
      },
    )

-- The condition that WaitAll waits for.
abbrev pub is_idle : ThreadPool → Bool
is_idle p = p.pending_tasks == 0 && p.active_workers == 0

unfoldable pub is_task_succeeded : ThreadPool → ℕ → Result Bool
is_task_succeeded p id =
    if mem p.states id
    then value ((p.objects id).succeeded)
    else error (ck_task not_found "task id not found or result expired")

abbrev pub query_stats : ThreadPool → Result ExecutorStats
query_stats p = value (record (p.stats) { queue_depth = length p.tasks })

abbrev pub reconfigure : ThreadPool → ExecutorOptions → Status × ThreadPool
reconfigure p o = (
  status_ok,
  record p {
    options = record (p.options) { queue_capacity = o.queue_capacity; policy = o.policy };
  },
)
