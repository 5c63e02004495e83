-- ===== src/Pool/State.antt =====
-- The state of src/task/thread_pool_executor.hpp. The callables stand outside the model: a job says
-- which task a worker runs, and a step whether its callable throws. The shared state objects of the
-- tasks are a store with the task's number as address, and `states` are the numbers that the map has.
use corekit.Base.{
  ℕ, zero, suc, ◌+◌, ◌%◌, ◌^◌, Bool, false, List, [], ◌∷◌, ◌==◌, if◌then◌else◌, Option, none, some,
}
use corekit.Base.Count.{mem}
use corekit.Task.Graph.{TaskPriority, normal}

pub data ExecutorPolicy : Type 0 where
  fifo by_priority fair hybrid_fair_priority : ExecutorPolicy

pub record ExecutorOptions : Type 0 where
  pub worker_count : ℕ
  pub queue_capacity : ℕ
  pub policy : ExecutorPolicy

pub record TaskSubmitOptions : Type 0 where
  pub priority : TaskPriority
  pub serial_key : ℕ

abbrev pub default_submit : TaskSubmitOptions
default_submit = record { priority = normal; serial_key = 0 }

pub record ExecutorStats : Type 0 where
  pub submitted : ℕ
  pub completed : ℕ
  pub failed : ℕ
  pub canceled : ℕ
  pub rejected : ℕ
  pub stolen : ℕ
  pub queue_depth : ℕ
  pub queue_high_watermark : ℕ

pub record TaskState : Type 0 where
  pub started : Bool
  pub done : Bool
  pub canceled : Bool
  pub succeeded : Bool

-- The callable that `Submit` queues, and the one that `SubmitEx` queues for a task. That one holds the
-- mutex of its serial key, if it has one; the key stands there for what is said of the pool only.
pub data Job : Type 0 where
  plain : Job
  tracked : (id key : ℕ) (key_mu : Option ℕ) → Job

pub record TaskEntry : Type 0 where
  pub fn : Job
  pub priority : TaskPriority
  pub seq : ℕ

-- How far a worker is with its job: it has taken it; it has begun, and found it canceled or not; the
-- callable threw; all is done but the end of the worker's round.
pub data Phase : Type 0 where
  taken threw over : Phase
  begun : (canceled : Bool) → Phase

abbrev pub Worker : Type 0
Worker = Job × Phase

pub record ThreadPool : Type 0 where
  pub options : ExecutorOptions
  pub stopping : Bool
  pub tasks : List TaskEntry
  pub workers : List Worker
  pub active_workers : ℕ
  pub pending_tasks : ℕ
  pub next_task_id : ℕ
  pub enqueue_seq : ℕ
  pub max_retained_states : ℕ
  pub stats : ExecutorStats
  pub objects : ℕ → TaskState
  pub states : List ℕ
  pub pending_ids : List ℕ
  pub done_ids : List ℕ
  pub serial_key_mu : ℕ → Option ℕ
  pub next_mutex : ℕ

abbrev pub new_state : TaskState
new_state = record { started = false; done = false; canceled = false; succeeded = false }

abbrev pub no_stats : ExecutorStats
no_stats = record {
  submitted = 0;
  completed = 0;
  failed = 0;
  canceled = 0;
  rejected = 0;
  stolen = 0;
  queue_depth = 0;
  queue_high_watermark = 0;
}

-- `hardware` is what std::thread::hardware_concurrency answers.
abbrev pub normalize_worker_count : (hardware worker_count : ℕ) → ℕ
normalize_worker_count hardware (suc n) = suc n
normalize_worker_count hardware zero = if hardware == 0 then 1 else hardware

abbrev pub new_pool : (hardware : ℕ) → ExecutorOptions → ThreadPool
new_pool hardware o = record {
  options = record o { worker_count = normalize_worker_count hardware o.worker_count };
  stopping = false;
  tasks = [];
  workers = [];
  active_workers = 0;
  pending_tasks = 0;
  next_task_id = 1;
  enqueue_seq = 0;
  max_retained_states = 65536;
  stats = no_stats;
  objects = λ id. new_state;
  states = [];
  pending_ids = [];
  done_ids = [];
  serial_key_mu = λ key. none;
  next_mutex = 0;
}

-- `++x` on 64 bits.
abbrev pub next64 : ℕ → ℕ
next64 x = (x + 1) % 2 ^ 64

-- Insertion into a set, and erasure.
abbrev pub with_key : List ℕ → ℕ → List ℕ
with_key xs k = if mem xs k then xs else k ∷ xs

unfoldable pub erased : List ℕ → ℕ → List ℕ
erased [] k = []
erased (x ∷ xs) k = let rest = erased xs k in if x == k then rest else x ∷ rest

abbrev pub set_state : (ℕ → TaskState) → ℕ → TaskState → ℕ → TaskState
set_state objects id s = λ j. if id == j then s else objects j

-- `serial_key_mu_[key] = key_mu`.
abbrev pub set_mutex : (ℕ → Option ℕ) → ℕ → ℕ → ℕ → Option ℕ
set_mutex mutexes key m = λ k. if key == k then some m else mutexes k
