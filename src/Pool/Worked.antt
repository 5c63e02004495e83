-- ===== src/Pool/Worked.antt =====
-- The sections of a worker with its job keep the pool sound.
use corekit.Base.{
  ℕ, ◌+◌, ◌-◌, ◌%◌, ◌^◌, ◌≤◌, ◌<◌, ◌≡◌, inl, inr, refl, sym, ap, ◌∙◌, subst, Bool, true, false,
  ◌&&◌, not, Option, none, some, List, [], ◌∷◌, length, ◌==◌, if◌then◌else◌, Bool-cases, arith,
}
use corekit.Base.Count.{mem}
use corekit.Pool.State.{
  ExecutorStats, TaskState, Job, plain, tracked, Phase, taken, threw, over, begun, Worker,
  ThreadPool, set_state,
}
use corekit.Pool.Work.{
  entry_at, set_at, erase_at, mark_task_done, holds, plain_stats, advance_worker, is_held, is_free,
}
use corekit.Pool.Places.{
  Each-map, entry_at-Each, set_at-Each, erase_at-Each, length-set_at, length-erase_at, total-nil,
  total-cons, total-set_at, total-erase_at,
}
use corekit.Base.Branch.{if-both}
use corekit.Pool.Sound.{Known, Uncanceled, holders, Counted, Crew, IsSound}
use corekit.Pool.Taken.{weight}

-- A worker goes on to another phase of its job.
set_worker-IsSound :
    {n : ℕ} {q : ThreadPool} (ws : List Worker) (i : ℕ) (j : Job) (f f' : Phase)
    → q.workers ≡ ws
    → entry_at ws i ≡ some (j, f)
    → Uncanceled q.objects (j, f')
    → ((k : ℕ) → weight k (j, f') + holders k ws ≤ 1 + weight k (j, f))
    → IsSound n q
    → IsSound n (record q { workers = set_at ws i (j, f') })
set_worker-IsSound {n} {q} ws i j f f' same e fine free s =
    let c =
      subst (Counted n q.options.worker_count q.active_workers q.pending_tasks q.tasks) same
        s.counts in
    let crew = subst (Crew q.next_task_id q.serial_key_mu q.objects) same s.crew in
    let long = length-set_at ws i (j, f') in
    record {
      counts = record {
        active = omega (arith, c.active);
        pending = omega (arith, c.pending);
        room = omega (arith, c.room);
        steps = omega (arith, c.steps);
      };
      queue = s.queue;
      crew = record {
        known =
            set_at-Each _ ws i crew.known
              (entry_at-Each (λ w. Known q.next_task_id q.serial_key_mu w.0) ws i crew.known e);
        uncanceled = set_at-Each _ ws i crew.uncanceled fine;
        alone = λ k. omega (arith, total-set_at (weight k) ws i (j, f') e, free k, crew.alone k);
      };
    }

-- An update that keeps `started` and `canceled`, or sets `started`, keeps what the workers know.
Uncanceled-update :
    (objects : ℕ → TaskState) (id : ℕ) (new : TaskState) (w : Worker)
    → new.canceled ≡ (objects id).canceled
    → ((objects id).started ≡ true → new.started ≡ true)
    → Uncanceled objects w
    → Uncanceled (set_state objects id new) w
Uncanceled-update objects id new (plain, f) c b h = tt
Uncanceled-update objects id new (tracked j key key_mu, taken) c b h = tt
Uncanceled-update objects id new (tracked j key key_mu, threw) c b h = tt
Uncanceled-update objects id new (tracked j key key_mu, over) c b h = tt
Uncanceled-update objects id new (tracked j key key_mu, begun true) c b h = tt
Uncanceled-update objects id new (tracked j key key_mu, begun false) c b h =
    elim (Bool-cases (id == j)) [
      | inl same ↦
          let at : id ≡ j = ground arith in
          (
            simp (same) (b (ap (λ k. (objects k).started) at ∙ h.0)),
            simp (same) (c ∙ ap (λ k. (objects k).canceled) at ∙ h.1),
          )
      | inr other ↦ (simp (other) h.0, simp (other) h.1)
    ]

mark_task_done-IsSound :
    {n : ℕ} {p : ThreadPool} (id : ℕ) (executed failed : Bool)
    → IsSound n p
    → IsSound n (mark_task_done p id executed failed)
unfolding mark_task_done
mark_task_done-IsSound {n} {p} id executed failed s =
    if-both (IsSound n) (mem p.states id)
      (λ _. record {
        counts = s.counts;
        queue = s.queue;
        crew = record {
          known = s.crew.known;
          uncanceled =
              Each-map p.workers
                (λ w h.
                  Uncanceled-update p.objects id
                    (record (p.objects id) { done = true; succeeded = executed && not failed }) w
                    refl (λ b. b) h)
                s.crew.uncanceled;
          alone = s.crew.alone;
        };
      })
      (λ _. s)

mark_task_done-workers :
    (p : ThreadPool) (id : ℕ) (executed failed : Bool)
    → (mark_task_done p id executed failed).workers ≡ p.workers
unfolding mark_task_done
mark_task_done-workers p id executed failed =
    if-both (λ (q : ThreadPool). q.workers ≡ p.workers) (mem p.states id) (λ _. refl) (λ _. refl)

-- A worker whose callable has returned, or thrown, holds nothing.
over-free : (k id key : ℕ) (key_mu : Option ℕ) → weight k (tracked id key key_mu, over) ≡ 0
over-free k id key none = refl
over-free k id key (some m) = refl

threw-free : (k id key : ℕ) (key_mu : Option ℕ) → weight k (tracked id key key_mu, threw) ≡ 0
threw-free k id key none = refl
threw-free k id key (some m) = refl

-- The end of a worker's job, with its state updated first.
marked-IsSound :
    {n : ℕ} {p : ThreadPool} (i id key : ℕ) (key_mu : Option ℕ) (f : Phase) (executed failed : Bool)
    → entry_at p.workers i ≡ some (tracked id key key_mu, f)
    → IsSound n p
    → IsSound n (record (mark_task_done p id executed failed) {
      workers = set_at p.workers i (tracked id key key_mu, over);
    })
marked-IsSound {n} {p} i id key key_mu f executed failed e s =
    set_worker-IsSound p.workers i (tracked id key key_mu) f over
      (mark_task_done-workers p id executed failed) e tt
      (λ k. omega (arith, over-free k id key key_mu, s.crew.alone k))
      (mark_task_done-IsSound id executed failed s)

is_held-holders : (m : ℕ) (ws : List Worker) → is_held ws m ≡ false → holders m ws ≡ 0
unfolding is_held
is_held-holders m [] e = total-nil (weight m)
is_held-holders m (w ∷ ws) e = elim (Bool-cases (holds m w)) [
  | inl held ↦
      absurd (let yes : (if holds m w then true else is_held ws m) ≡ true = simp (held) refl in cc)
  | inr other ↦
      let later : (if holds m w then true else is_held ws m) ≡ is_held ws m = simp (other) refl in
      let light : weight m w ≡ 0 = simp (other) refl in
      omega (arith, total-cons (weight m) w ws, light, is_held-holders m ws (sym later ∙ e))
]

-- A worker that takes a mutex which is free is the only one that holds it.
begun-alone :
    (m id key : ℕ) (key_mu : Option ℕ) (c : Bool) (ws : List Worker)
    → is_free ws key_mu ≡ true
    → holders m ws ≤ 1
    → weight m (tracked id key key_mu, begun c) + holders m ws ≤ 1
begun-alone m id key none c ws free few = omega arith
begun-alone m id key (some k) c ws free few = elim (Bool-cases (k == m)) [
  | inl same ↦
      let at : k ≡ m = ground arith in
      let unheld : is_held ws m ≡ false = ap (is_held ws) (sym at) ∙ (ground (arith, free)) in
      simp (same) (omega (arith, is_held-holders m ws unheld))
  | inr other ↦ simp (other) (omega (arith, few))
]

-- A worker that begins a task notes whether it is canceled.
Uncanceled-begun :
    (objects : ℕ → TaskState) (id key : ℕ) (key_mu : Option ℕ) (c : Bool)
    → (objects id).canceled ≡ c
    → Uncanceled
        (set_state objects id (record (objects id) { started = true }))
        (tracked id key key_mu, begun c)
Uncanceled-begun objects id key key_mu true e = tt
Uncanceled-begun objects id key key_mu false e =
    let here : (id == id) ≡ true = ground arith in (simp (here) refl, simp (here) e)

begins-IsSound :
    {n : ℕ} {p : ThreadPool} (i id key : ℕ) (key_mu : Option ℕ)
    → entry_at p.workers i ≡ some (tracked id key key_mu, taken)
    → is_free p.workers key_mu ≡ true
    → IsSound n p
    → IsSound n (record p {
      objects = set_state p.objects id (record (p.objects id) { started = true });
      workers = set_at p.workers i (tracked id key key_mu, begun (p.objects id).canceled);
    })
begins-IsSound {n} {p} i id key key_mu e free s =
    let new = record (p.objects id) { started = true } in
    let q : ThreadPool = record p { objects = set_state p.objects id new } in
    set_worker-IsSound {q = q} p.workers i (tracked id key key_mu) taken
      (begun (p.objects id).canceled) refl e
      (Uncanceled-begun p.objects id key key_mu (p.objects id).canceled refl)
      (λ k. omega (
        arith,
        begun-alone k id key key_mu (p.objects id).canceled p.workers free (s.crew.alone k),
      ))
      (record {
        counts = s.counts;
        queue = s.queue;
        crew = record {
          known = s.crew.known;
          uncanceled =
              Each-map p.workers (λ w h. Uncanceled-update p.objects id new w refl (λ b. refl) h)
                s.crew.uncanceled;
          alone = s.crew.alone;
        };
      })

-- A worker that is done goes back to its loop.
retires-IsSound :
    {n : ℕ} {p : ThreadPool} (i : ℕ) {w : Worker} (stats : ExecutorStats)
    → entry_at p.workers i ≡ some w
    → n < 2 ^ 64
    → IsSound n p
    → IsSound n (record p {
      workers = erase_at p.workers i;
      active_workers = (p.active_workers + 2 ^ 64 - 1) % 2 ^ 64;
      pending_tasks = p.pending_tasks - 1;
      stats = stats;
    })
retires-IsSound {n} {p} i stats e small s =
    let fewer = length-erase_at p.workers i e in
    record {
      counts = record {
        active = omega (arith, s.counts.active, s.counts.steps, fewer);
        pending = omega (arith, s.counts.pending, fewer);
        room = omega (arith, s.counts.room, fewer);
        steps = omega (arith, s.counts.steps, fewer);
      };
      queue = s.queue;
      crew = record {
        known = erase_at-Each _ p.workers i s.crew.known;
        uncanceled = erase_at-Each _ p.workers i s.crew.uncanceled;
        alone = λ k. omega (arith, s.crew.alone k, total-erase_at (weight k) p.workers i e);
      };
    }

pub advance_worker-IsSound :
    {n : ℕ} {p : ThreadPool} (i : ℕ) (throws : Bool) (o : Option Worker)
    → entry_at p.workers i ≡ o
    → n < 2 ^ 64
    → IsSound n p
    → IsSound n (advance_worker p i throws o)
unfolding advance_worker
advance_worker-IsSound i throws none e small s = s
advance_worker-IsSound {p = p} i throws (some (plain, taken)) e small s =
    set_worker-IsSound {q = record p { stats = plain_stats p.stats throws }} p.workers i plain taken
      over refl e tt (λ k. omega (arith, s.crew.alone k))
      (record { counts = s.counts; queue = s.queue; crew = s.crew })
advance_worker-IsSound i throws (some (plain, begun c)) e small s = s
advance_worker-IsSound i throws (some (plain, threw)) e small s = s
advance_worker-IsSound {n} {p} i throws (some (tracked id key key_mu, taken)) e small s =
    if-both (IsSound n) (is_free p.workers key_mu) (λ free. begins-IsSound i id key key_mu e free s)
      (λ _. s)
advance_worker-IsSound i throws (some (tracked id key key_mu, begun true)) e small s =
    marked-IsSound i id key key_mu (begun true) false false e s
advance_worker-IsSound {p = p} i true (some (tracked id key key_mu, begun false)) e small s =
    set_worker-IsSound {q = p} p.workers i (tracked id key key_mu) (begun false) threw refl e tt
      (λ k. omega (arith, threw-free k id key key_mu, s.crew.alone k)) s
advance_worker-IsSound i false (some (tracked id key key_mu, begun false)) e small s =
    marked-IsSound i id key key_mu (begun false) true false e s
advance_worker-IsSound i throws (some (tracked id key key_mu, threw)) e small s =
    marked-IsSound i id key key_mu threw false true e s
advance_worker-IsSound {p = p} i throws (some (plain, over)) e small s =
    retires-IsSound i (record (p.stats) { queue_depth = length p.tasks }) e small s
advance_worker-IsSound {p = p} i throws (some (tracked id key key_mu, over)) e small s =
    retires-IsSound i (record (p.stats) { queue_depth = length p.tasks }) e small s
