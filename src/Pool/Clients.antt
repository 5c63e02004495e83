-- ===== src/Pool/Clients.antt =====
-- The calls of clients keep the pool sound.
use corekit.Base.{
  ℕ, suc, ◌+◌, ◌^◌, ◌≤◌, ◌<◌, ◌≡◌, inl, inr, sym, ap, ◌∙◌, Bool, true, false, ◌&&◌, ◌||◌, not, List,
  [], ◌∷◌, ◌++◌, length, length-append, ltb, leb, ◌==◌, Bool-cases, arith, Option, none, some, zero,
  refl,
}
use corekit.Base.Count.{mem}
use corekit.Api.Status.{Status, Result, is_ok}
use corekit.Task.Graph.{TaskPriority}
use corekit.Pool.State.{
  TaskSubmitOptions, default_submit, TaskState, new_state, Job, plain, tracked, TaskEntry, taken,
  threw, over, begun, Worker, ThreadPool, next64, set_state, set_mutex,
}
use corekit.Pool.Submit.{
  enqueue_task, submit, announce, announced, submit_ex, try_cancel, find_mutex, stored_mutex,
}
use corekit.Pool.Places.{Each-map, Each-both, Each-push}
use corekit.Base.Branch.{if-both}
use corekit.Pool.Sound.{Known, Uncanceled, Ascending, IsSound}

Ascending-push :
    (low : ℕ) (es : List TaskEntry) (e : TaskEntry) {high : ℕ}
    → Ascending low es high
    → high < e.seq
    → Ascending low (es ++ e ∷ []) e.seq
Ascending-push low [] e a h = (omega arith, omega arith)
Ascending-push low (x ∷ es) e a h = (a.0, Ascending-push x.seq es e a.1 h)

Known-more :
    (mutexes : ℕ → Option ℕ) {next more : ℕ} (j : Job)
    → next ≤ more
    → Known next mutexes j
    → Known more mutexes j
Known-more mutexes plain h n = tt
Known-more mutexes (tracked id key none) h n = (omega (arith, n.0), n.1)
Known-more mutexes (tracked id key (some m)) h n = (omega (arith, n.0), n.1)

Known-id :
    (mutexes : ℕ → Option ℕ) (key : ℕ) {next id : ℕ} (key_mu : Option ℕ)
    → Known next mutexes (tracked id key key_mu)
    → id < next
Known-id mutexes key none h = h.0
Known-id mutexes key (some m) h = h.0

-- A mutex for a key that has none is that of no job.
Known-mutex :
    (next : ℕ) (mutexes : ℕ → Option ℕ) (key new : ℕ) (j : Job)
    → mutexes key ≡ none
    → Known next mutexes j
    → Known next (set_mutex mutexes key new) j
Known-mutex next mutexes key new plain e h = tt
Known-mutex next mutexes key new (tracked id k none) e h = h
Known-mutex next mutexes key new (tracked id k (some m)) e h = elim (Bool-cases (key == k)) [
  | inl same ↦
      let at : key ≡ k = ground arith in
      absurd (let clash : none ≡ some m = sym e ∙ ap mutexes at ∙ h.1 in cc)
  | inr other ↦ (h.0, simp (other) h.1)
]

-- The queue and the counters allow for more steps.
pub more_steps : {n : ℕ} {p : ThreadPool} → IsSound n p → IsSound (suc n) p
more_steps s = record {
  counts = record {
    active = s.counts.active;
    pending = s.counts.pending;
    room = s.counts.room;
    steps = omega (arith, s.counts.steps);
  };
  queue = record {
    ids = omega (arith, s.queue.ids);
    seqs = omega (arith, s.queue.seqs);
    ascending = s.queue.ascending;
    known = s.queue.known;
  };
  crew = s.crew;
}

pub enqueue_task-IsSound :
    {n : ℕ} {p : ThreadPool} (j : Job) (priority : TaskPriority)
    → IsSound (suc n) p
    → length p.tasks + length p.workers ≤ n
    → p.enqueue_seq ≤ n
    → suc n < 2 ^ 64
    → Known p.next_task_id p.serial_key_mu j
    → IsSound (suc n) (enqueue_task p j priority).1
unfolding enqueue_task
enqueue_task-IsSound {n} {p} j priority s few low_seq small known =
    let entry : TaskEntry = record { fn = j; priority = priority; seq = next64 p.enqueue_seq } in
    let longer = length-append p.tasks (entry ∷ []) in
    let good = λ (out : Status × ThreadPool). IsSound (suc n) out.1 in
    if-both good p.stopping (λ _. s)
      (λ _.
        if-both good
          (ltb 0 p.options.queue_capacity && leb p.options.queue_capacity (length p.tasks))
          (λ _. record { counts = s.counts; queue = s.queue; crew = s.crew })
          (λ _. record {
            counts = record {
              active = s.counts.active;
              pending = omega (arith, s.counts.pending, longer);
              room = s.counts.room;
              steps = omega (arith, longer);
            };
            queue = record {
              ids = s.queue.ids;
              seqs = omega arith;
              ascending = Ascending-push 0 p.tasks entry s.queue.ascending (omega arith);
              known = Each-push _ p.tasks s.queue.known known;
            };
            crew = s.crew;
          }))

pub submit-IsSound :
    {n : ℕ} {p : ThreadPool} (fn_is_empty : Bool)
    → IsSound n p
    → suc (suc n) < 2 ^ 64
    → IsSound (suc n) (submit p fn_is_empty).1
unfolding submit
submit-IsSound true s small = more_steps s
submit-IsSound false s small =
    enqueue_task-IsSound plain default_submit.priority (more_steps s) s.counts.steps s.queue.seqs
      (omega arith) tt

-- A new state object is that of no worker.
Uncanceled-new :
    (next : ℕ) (mutexes : ℕ → Option ℕ) (objects : ℕ → TaskState) (w : Worker)
    → Known next mutexes w.0 × Uncanceled objects w
    → Uncanceled (set_state objects next new_state) w
Uncanceled-new next mutexes objects (plain, f) h = tt
Uncanceled-new next mutexes objects (tracked id key key_mu, taken) h = tt
Uncanceled-new next mutexes objects (tracked id key key_mu, threw) h = tt
Uncanceled-new next mutexes objects (tracked id key key_mu, over) h = tt
Uncanceled-new next mutexes objects (tracked id key key_mu, begun true) h = tt
Uncanceled-new next mutexes objects (tracked id key key_mu, begun false) h =
    let other : (next == id) ≡ false = ground (arith, Known-id mutexes key key_mu h.0) in
    (simp (other) h.1.0, simp (other) h.1.1)

-- The mutex of a key, and the pool that stores it.
record Keyed (n key : ℕ) (p : ThreadPool) (out : Option ℕ × ThreadPool) : Type 0 where
  sound : IsSound n out.1
  known : (next id : ℕ) → id < next → Known next out.1.serial_key_mu (tracked id key out.0)
  same_id : out.1.next_task_id ≡ p.next_task_id

stored_mutex-Keyed :
    {n : ℕ} {p : ThreadPool} (key : ℕ) (o : Option ℕ)
    → p.serial_key_mu key ≡ o
    → IsSound n p
    → Keyed n key p (stored_mutex p key o)
stored_mutex-Keyed key (some m) e s = record {
  sound = s;
  known = λ next id h. (h, e);
  same_id = refl;
}
stored_mutex-Keyed {p = p} key none e s =
    let here : (key == key) ≡ true = ground arith in
    record {
      sound = record {
        counts = s.counts;
        queue = record {
          ids = s.queue.ids;
          seqs = s.queue.seqs;
          ascending = s.queue.ascending;
          known =
              Each-map p.tasks
                (λ t h. Known-mutex p.next_task_id p.serial_key_mu key p.next_mutex t.fn e h)
                s.queue.known;
        };
        crew = record {
          known =
              Each-map p.workers
                (λ w h. Known-mutex p.next_task_id p.serial_key_mu key p.next_mutex w.0 e h)
                s.crew.known;
          uncanceled = s.crew.uncanceled;
          alone = s.crew.alone;
        };
      };
      known = λ next id h. (h, simp (here) refl);
      same_id = refl;
    }

find_mutex-Keyed :
    {n : ℕ} {p : ThreadPool} (key : ℕ) → IsSound n p → Keyed n key p (find_mutex p key)
unfolding find_mutex
find_mutex-Keyed zero s = record { sound = s; known = λ next id h. (h, refl); same_id = refl }
find_mutex-Keyed {p = p} (suc k) s = stored_mutex-Keyed (suc k) (p.serial_key_mu (suc k)) refl s

announce-IsSound :
    {n : ℕ} {p : ThreadPool} → IsSound n p → suc (suc n) < 2 ^ 64 → IsSound (suc n) (announce p)
unfolding announce
announce-IsSound {n} {p} s small =
    let given : next64 p.next_task_id ≡ p.next_task_id + 1 = omega (arith, s.queue.ids) in
    record {
      counts = (more_steps s).counts;
      queue = record {
        ids = omega (arith, s.queue.ids);
        seqs = omega (arith, s.queue.seqs);
        ascending = s.queue.ascending;
        known =
            Each-map p.tasks (λ e h. Known-more p.serial_key_mu e.fn (omega (arith, given)) h)
              s.queue.known;
      };
      crew = record {
        known =
            Each-map p.workers (λ w h. Known-more p.serial_key_mu w.0 (omega (arith, given)) h)
              s.crew.known;
        uncanceled =
            Each-map p.workers (Uncanceled-new p.next_task_id p.serial_key_mu p.objects)
              (Each-both _ _ p.workers s.crew.known s.crew.uncanceled);
        alone = s.crew.alone;
      };
    }

announced-IsSound :
    {n : ℕ} (out : Status × ThreadPool) (id : ℕ) → IsSound n out.1 → IsSound n (announced out id).1
unfolding announced
announced-IsSound {n} (st, p) id s =
    if-both (λ (o : Result ℕ × ThreadPool). IsSound n o.1) (is_ok st) (λ _. s)
      (λ _. record { counts = s.counts; queue = s.queue; crew = s.crew })

pub submit_ex-IsSound :
    {n : ℕ} {p : ThreadPool} (fn_is_empty : Bool) (o : TaskSubmitOptions)
    → IsSound n p
    → suc (suc n) < 2 ^ 64
    → IsSound (suc n) (submit_ex p fn_is_empty o).1
unfolding submit_ex announce
submit_ex-IsSound true o s small = more_steps s
submit_ex-IsSound {n} {p} false o s small =
    let key = o.serial_key in
    let keyed = find_mutex p key in
    let k = find_mutex-Keyed key s in
    let given : next64 keyed.1.next_task_id ≡ keyed.1.next_task_id + 1 =
      omega (arith, k.sound.queue.ids) in
    let job = tracked p.next_task_id key keyed.0 in
    announced-IsSound (enqueue_task (announce keyed.1) job o.priority) p.next_task_id (
      enqueue_task-IsSound job o.priority (announce-IsSound k.sound small) k.sound.counts.steps
        k.sound.queue.seqs (omega arith)
        (k.known (next64 keyed.1.next_task_id) p.next_task_id (omega (arith, k.same_id, given))))

-- A task that has started stays as it is.
Uncanceled-cancel :
    (objects : ℕ → TaskState) (id : ℕ) (w : Worker)
    → (objects id).started ≡ false
    → Uncanceled objects w
    → Uncanceled (set_state objects id (record (objects id) { canceled = true })) w
Uncanceled-cancel objects id (plain, f) e h = tt
Uncanceled-cancel objects id (tracked j key key_mu, taken) e h = tt
Uncanceled-cancel objects id (tracked j key key_mu, threw) e h = tt
Uncanceled-cancel objects id (tracked j key key_mu, over) e h = tt
Uncanceled-cancel objects id (tracked j key key_mu, begun true) e h = tt
Uncanceled-cancel objects id (tracked j key key_mu, begun false) e h = elim (Bool-cases (id == j)) [
  | inl same ↦
      let at : id ≡ j = ground arith in
      absurd (let clash : true ≡ false = sym h.0 ∙ ap (λ k. (objects k).started) (sym at) ∙ e in cc)
  | inr other ↦ (simp (other) h.0, simp (other) h.1)
]

pub try_cancel-IsSound :
    {n : ℕ} {p : ThreadPool} (id : ℕ) → IsSound n p → IsSound n (try_cancel p id).1
unfolding try_cancel
try_cancel-IsSound {n} {p} id s =
    let good = λ (out : Status × ThreadPool). IsSound n out.1 in
    if-both good (not (mem p.states id)) (λ _. s)
      (λ _.
        if-both good ((p.objects id).started || (p.objects id).done) (λ _. s)
          (λ idle. record {
            counts = s.counts;
            queue = s.queue;
            crew = record {
              known = s.crew.known;
              uncanceled =
                  Each-map p.workers (λ w h. Uncanceled-cancel p.objects id w (ground arith) h)
                    s.crew.uncanceled;
              alone = s.crew.alone;
            };
          }))
