-- ===== src/Pool/Sound.antt =====
-- The invariant of the thread pool.
use corekit.Base.{
  ℕ, ◌+◌, ◌≤◌, ◌<◌, ◌≡◌, refl, true, false, List, [], ◌∷◌, length, if◌then◌else◌, arith, Option,
  none, some,
}
use corekit.Pool.State.{
  ExecutorOptions, TaskState, Job, plain, tracked, TaskEntry, begun, Worker, ThreadPool, new_pool,
}
use corekit.Pool.Work.{holds}
use corekit.Pool.Places.{Each, total}

-- The task of a job has a number that was given out, and its mutex is the one that is stored for its
-- key; without a mutex it has no key.
abbrev pub Known : ℕ → (ℕ → Option ℕ) → Job → Type 0
Known next mutexes plain = Unit
Known next mutexes (tracked id key none) = (id < next) × (key ≡ 0)
Known next mutexes (tracked id key (some m)) = (id < next) × (mutexes key ≡ some m)

-- A worker about to run a task, or in it, knows that it has not been canceled, and no one can cancel
-- it any more.
abbrev pub Uncanceled : (ℕ → TaskState) → Worker → Type 0
Uncanceled objects (tracked id key key_mu, begun false) =
    ((objects id).started ≡ true) × ((objects id).canceled ≡ false)
Uncanceled objects w = Unit

-- The workers that hold a mutex.
abbrev pub holders : ℕ → List Worker → ℕ
holders m = total (λ w. if holds m w then 1 else 0)

-- The sequence numbers go up from behind `low` to `high`.
abbrev pub Ascending : ℕ → List TaskEntry → ℕ → Type 0
Ascending low [] high = low ≤ high
Ascending low (e ∷ es) high = (low < e.seq) × Ascending e.seq es high

-- The counters of the pool, after no more than `n` steps.
pub record Counted (n worker_count at_work unfinished : ℕ) (tasks : List TaskEntry)
    (workers : List Worker) : Type 0 where
  pub active : at_work ≡ length workers
  pub pending : unfinished ≡ length tasks + length workers
  pub room : length workers ≤ worker_count
  pub steps : length tasks + length workers ≤ n

-- The queue.
pub record InOrder (n next : ℕ) (mutexes : ℕ → Option ℕ) (seq : ℕ) (tasks : List TaskEntry)
    : Type 0 where
  pub ids : next ≤ n + 1
  pub seqs : seq ≤ n
  pub ascending : Ascending 0 tasks seq
  pub known : Each (λ e. Known next mutexes e.fn) tasks

-- The workers.
pub record Crew (next : ℕ) (mutexes : ℕ → Option ℕ) (objects : ℕ → TaskState)
    (workers : List Worker) : Type 0 where
  pub known : Each (λ w. Known next mutexes w.0) workers
  pub uncanceled : Each (Uncanceled objects) workers
  pub alone : (m : ℕ) → holders m workers ≤ 1

pub record IsSound (n : ℕ) (p : ThreadPool) : Type 0 where
  pub counts : Counted n p.options.worker_count p.active_workers p.pending_tasks p.tasks p.workers
  pub queue : InOrder n p.next_task_id p.serial_key_mu p.enqueue_seq p.tasks
  pub crew : Crew p.next_task_id p.serial_key_mu p.objects p.workers

pub new_pool-IsSound : (hardware : ℕ) (o : ExecutorOptions) → IsSound 0 (new_pool hardware o)
unfolding total
new_pool-IsSound hardware o = record {
  counts = record { active = refl; pending = refl; room = omega arith; steps = omega arith };
  queue = record { ids = omega arith; seqs = omega arith; ascending = omega arith; known = tt };
  crew = record { known = tt; uncanceled = tt; alone = λ m. omega arith };
}
