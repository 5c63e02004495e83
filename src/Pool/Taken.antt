-- ===== src/Pool/Taken.antt =====
-- A worker that takes a task keeps the pool sound.
use corekit.Base.{
  ℕ, zero, suc, ◌^◌, ◌≤◌, ◌<◌, ◌≡◌, refl, Option, none, some, List, [], ◌∷◌, length, ltb,
  if◌then◌else◌, arith,
}
use corekit.Pool.State.{TaskState, Job, plain, tracked, TaskEntry, taken, Worker, ThreadPool}
use corekit.Pool.Work.{entry_at, erase_at, pick_next, take_entry, take_task, holds}
use corekit.Pool.Places.{entry_at-Each, erase_at-Each, length-erase_at, total-cons}
use corekit.Base.Branch.{if-both}
use corekit.Pool.Sound.{Known, Uncanceled, Ascending, IsSound}

abbrev pub weight : ℕ → Worker → ℕ
weight k w = if holds k w then 1 else 0

Ascending-low :
    (low less : ℕ) (es : List TaskEntry) (high : ℕ)
    → less ≤ low
    → Ascending low es high
    → Ascending less es high
Ascending-low low less [] high h a = omega arith
Ascending-low low less (e ∷ es) high h a = (omega (arith, a.0), a.1)

erase_at-Ascending :
    (low : ℕ) (es : List TaskEntry) (i high : ℕ)
    → Ascending low es high
    → Ascending low (erase_at es i) high
unfolding erase_at
erase_at-Ascending low [] i high a = a
erase_at-Ascending low (e ∷ es) zero high a =
    Ascending-low e.seq low es high (omega (arith, a.0)) a.1
erase_at-Ascending low (e ∷ es) (suc i) high a = (a.0, erase_at-Ascending e.seq es i high a.1)

-- A worker that has only just taken its job holds nothing.
taken-free : (k : ℕ) (j : Job) → weight k (j, taken) ≡ 0
taken-free k plain = refl
taken-free k (tracked id key none) = refl
taken-free k (tracked id key (some m)) = refl

Uncanceled-taken : (objects : ℕ → TaskState) (j : Job) → Uncanceled objects (j, taken)
Uncanceled-taken objects plain = tt
Uncanceled-taken objects (tracked id key key_mu) = tt

take_entry-IsSound :
    {n : ℕ} {p : ThreadPool} (i : ℕ) (o : Option TaskEntry)
    → entry_at p.tasks i ≡ o
    → length p.workers < p.options.worker_count
    → n < 2 ^ 64
    → IsSound n p
    → IsSound n (take_entry p i o)
unfolding take_entry
take_entry-IsSound i none e room small s = s
take_entry-IsSound {n} {p} i (some t) e room small s =
    let fewer = length-erase_at p.tasks i e in
    record {
      counts = record {
        active = omega (arith, s.counts.active, s.counts.steps);
        pending = omega (arith, s.counts.pending, fewer);
        room = omega arith;
        steps = omega (arith, s.counts.steps, fewer);
      };
      queue = record {
        ids = s.queue.ids;
        seqs = s.queue.seqs;
        ascending = erase_at-Ascending 0 p.tasks i p.enqueue_seq s.queue.ascending;
        known = erase_at-Each _ p.tasks i s.queue.known;
      };
      crew = record {
        known = (
          entry_at-Each (λ t. Known p.next_task_id p.serial_key_mu t.fn) p.tasks i s.queue.known e,
          s.crew.known,
        );
        uncanceled = (Uncanceled-taken p.objects t.fn, s.crew.uncanceled);
        alone = λ k. omega (
          arith,
          s.crew.alone k,
          taken-free k t.fn,
          total-cons (weight k) (t.fn, taken) p.workers,
        );
      };
    }

pub take_task-IsSound :
    {n : ℕ} {p : ThreadPool} → n < 2 ^ 64 → IsSound n p → IsSound n (take_task p)
unfolding take_task
take_task-IsSound {n} {p} small s =
    let i = pick_next p.options.policy p.tasks in
    if-both (IsSound n) (ltb (length p.workers) p.options.worker_count)
      (λ room. take_entry-IsSound i (entry_at p.tasks i) refl (ground arith) small s) (λ _. s)
