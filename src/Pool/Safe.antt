-- ===== src/Pool/Safe.antt =====
-- What holds of the thread pool after any history.
use corekit.Base.{
  ℕ, suc, ◌+◌, ◌^◌, ◌≤◌, ◌<◌, ◌≡◌, ◌↔◌, refl, ap, subst, true, false, some, List, [], ◌∷◌, length,
  arith, Option,
}
use corekit.Pool.State.{ExecutorOptions, tracked, begun, ThreadPool, new_pool}
use corekit.Pool.Submit.{is_idle}
use corekit.Pool.Work.{
  entry_at, Event, submits, submits_ex, cancels, reconfigures, stops, takes, advances, happens,
  happen,
}
use corekit.Pool.Places.{entry_at-Each}
use corekit.Pool.Inside.{insiders, insiders-alone}
use corekit.Pool.Sound.{Uncanceled, IsSound, new_pool-IsSound}
use corekit.Pool.Clients.{more_steps, submit-IsSound, submit_ex-IsSound, try_cancel-IsSound}
use corekit.Pool.Taken.{take_task-IsSound}
use corekit.Pool.Worked.{advance_worker-IsSound}

happens-IsSound :
    {n : ℕ} {p : ThreadPool} (e : Event)
    → suc (suc n) < 2 ^ 64
    → IsSound n p
    → IsSound (suc n) (happens p e)
unfolding happens
happens-IsSound (submits fn_is_empty) small s = submit-IsSound fn_is_empty s small
happens-IsSound (submits_ex fn_is_empty o) small s = submit_ex-IsSound fn_is_empty o s small
happens-IsSound (cancels id) small s = more_steps (try_cancel-IsSound id s)
happens-IsSound (reconfigures o) small s =
    more_steps (record { counts = s.counts; queue = s.queue; crew = s.crew })
happens-IsSound stops small s =
    more_steps (record { counts = s.counts; queue = s.queue; crew = s.crew })
happens-IsSound takes small s = more_steps (take_task-IsSound (omega arith) s)
happens-IsSound {p = p} (advances i throws) small s =
    more_steps (advance_worker-IsSound i throws (entry_at p.workers i) refl (omega arith) s)

-- From a sound pool every history of calls and sections, in any order and shorter than the 64-bit
-- counters, leads to a sound pool.
pub happen-IsSound :
    (es : List Event) {n : ℕ} {p : ThreadPool}
    → n + length es + 1 < 2 ^ 64
    → IsSound n p
    → IsSound (n + length es) (happen p es)
unfolding happen
happen-IsSound [] {n} {p} small s = subst (λ m. IsSound m p) (omega arith) s
happen-IsSound (e ∷ es) {n} {p} small s =
    subst (λ m. IsSound m (happen (happens p e) es)) (omega arith)
      (happen-IsSound es (omega arith) (happens-IsSound e (omega arith) s))

-- What a client relies on.
pub record IsSafe (p : ThreadPool) : Type 0 where
  pub uncanceled :
      (i id key : ℕ) (key_mu : Option ℕ)
      → entry_at p.workers i ≡ some (tracked id key key_mu, begun false)
      → (p.objects id).canceled ≡ false
  pub alone : (k : ℕ) → 0 < k → insiders k p.workers ≤ 1
  pub room : length p.workers ≤ p.options.worker_count
  pub idle : (is_idle p ≡ true) ↔ ((p.tasks ≡ []) × (p.workers ≡ []))

length-none : {A : Type 0} (xs : List A) → length xs ≡ 0 → xs ≡ []
length-none [] e = refl
length-none (x ∷ xs) e = absurd (omega arith)

sound-IsSafe : {n : ℕ} {p : ThreadPool} → IsSound n p → IsSafe p
sound-IsSafe {n} {p} s = record {
  uncanceled =
      λ i id key key_mu e. (entry_at-Each (Uncanceled p.objects) p.workers i s.crew.uncanceled e).1;
  alone = λ k h.
      insiders-alone p.next_task_id p.serial_key_mu p.workers k h (p.serial_key_mu k) refl
        s.crew.known s.crew.alone;
  room = s.counts.room;
  idle = (
    λ e. (
      length-none p.tasks (ground (arith, s.counts.pending)),
      length-none p.workers (ground (arith, s.counts.pending)),
    ),
    λ (t, w).
        let no_tasks : length p.tasks ≡ 0 = ap length t in
        let no_workers : length p.workers ≡ 0 = ap length w in
        ground (arith, s.counts.pending, s.counts.active),
  );
}

-- After any history of calls and of sections of the workers on a new pool, in any order and
-- shorter than the 64-bit counters: a task whose callable is about to run or runs is not
-- canceled, at most one worker is inside a task with a given key other than 0, no more workers
-- work than the pool has, and the condition of WaitAll holds exactly if no task is queued and
-- none is with a worker.
pub happen-IsSafe :
    (hardware : ℕ) (o : ExecutorOptions) (es : List Event)
    → length es + 1 < 2 ^ 64
    → IsSafe (happen (new_pool hardware o) es)
happen-IsSafe hardware o es small =
    sound-IsSafe (happen-IsSound es (omega arith) (new_pool-IsSound hardware o))
