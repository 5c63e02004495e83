-- ===== src/Pool/Expired.antt =====
-- The window of finished tasks.
use corekit.Base.{
  ℕ, ◌≤◌, ◌≡◌, inl, inr, refl, ap, ◌∙◌, Bool, true, false, ◌&&◌, not, none, some, List, [], ◌∷◌,
  ◌++◌, length, length-append, ltb, ◌==◌, if◌then◌else◌, Bool-cases, arith,
}
use corekit.Base.Count.{mem}
use corekit.Api.Status.{error, is_ok, not_found}
use corekit.Task.Graph.{ck_task}
use corekit.Pool.State.{TaskState, ThreadPool, erased, set_state}
use corekit.Pool.Submit.{wait, wait_batch, is_task_succeeded}
use corekit.Base.Branch.{if-then}
use corekit.Pool.Work.{expire, mark_task_done}

erased-gone : (xs : List ℕ) (k : ℕ) → mem (erased xs k) k ≡ false
unfolding erased mem
erased-gone [] k = refl
erased-gone (x ∷ xs) k = elim (Bool-cases (x == k)) [
  | inl same ↦ simp (same) (erased-gone xs k)
  | inr other ↦ simp (other) (erased-gone xs k)
]

-- The window does not lose more than it must.
expire-length :
    (window : ℕ) (objects : ℕ → TaskState) (ids states : List ℕ)
    → length (expire window objects ids states).0 ≤ window
unfolding expire
expire-length window objects [] states = omega arith
expire-length window objects (old ∷ ids) states =
    elim (Bool-cases (ltb window (length (old ∷ ids)))) [
      | inl more ↦ simp (more) (expire-length window objects ids _)
      | inr fits ↦ simp (fits) (ground arith)
    ]

-- A full window with one more task in it forgets the oldest.
expire-forgets :
    (window : ℕ) (objects : ℕ → TaskState) (old : ℕ) (ids states : List ℕ)
    → length ids ≡ window
    → (objects old).done ≡ true
    → (mem (expire window objects (old ∷ ids) states).1 old ≡ false)
      × (length (expire window objects (old ∷ ids) states).0 ≡ window)
unfolding expire
expire-forgets window objects old ids states full done =
    let more : ltb window (length (old ∷ ids)) ≡ true = ground arith in
    let states' = if mem states old && (objects old).done then erased states old else states in
    let stops : expire window objects ids states' ≡ (ids, states') =
      expire-fits window objects ids states' (omega arith) in
    let gone : mem states' old ≡ false = elim (Bool-cases (mem states old)) [
      | inl there ↦ simp (there, done) (erased-gone states old)
      | inr absent ↦ simp (absent) refl
    ] in
    simp (more, stops) (gone, full)
  where
    expire-fits :
        (window : ℕ) (objects : ℕ → TaskState) (ids states : List ℕ)
        → length ids ≤ window
        → expire window objects ids states ≡ (ids, states)
    expire-fits window objects [] states h = refl
    expire-fits window objects (x ∷ ids) states h =
        let fits : ltb window (length (x ∷ ids)) ≡ false = ground arith in simp (fits) refl

-- `old` is known to no call any more.
pub record IsForgotten (p : ThreadPool) (old : ℕ) : Type 0 where
  pub waits : wait p old ≡ some (ck_task not_found "task id not found")
  pub batch :
      (more : List ℕ) → wait_batch p (old ∷ more) ≡ some (ck_task not_found "task id not found")
  pub result :
      is_task_succeeded p old ≡ error (ck_task not_found "task id not found or result expired")

absent-IsForgotten : (p : ThreadPool) (old : ℕ) → mem p.states old ≡ false → IsForgotten p old
unfolding wait wait_batch is_task_succeeded
absent-IsForgotten p old gone =
    let unknown : wait p old ≡ some (ck_task not_found "task id not found") = simp (gone) refl in
    record {
      waits = unknown;
      batch = λ more i. elim (unknown i) [
        | none ↦ none
        | some st ↦ if is_ok st then wait_batch p more else some st
      ];
      result = simp (gone) refl;
    }

-- Where a task that the pool knows ends while the window of finished tasks is full, the oldest
-- finished task is forgotten: Wait, a WaitBatch that starts with it and IsTaskSucceeded answer kNotFound
-- for it, though it is done, and the window stays as long as it was.
pub mark_task_done-IsForgotten :
    (p : ThreadPool) (id old : ℕ) (ids : List ℕ) (executed failed : Bool)
    → p.done_ids ≡ old ∷ ids
    → length p.done_ids ≡ p.max_retained_states
    → mem p.states id ≡ true
    → (p.objects old).done ≡ true
    → IsForgotten (mark_task_done p id executed failed) old
      × (length (mark_task_done p id executed failed).done_ids ≡ p.max_retained_states)
unfolding mark_task_done
mark_task_done-IsForgotten p id old ids executed failed first full known done =
    let state = record (p.objects id) { done = true; succeeded = executed && not failed } in
    let objects' = set_state p.objects id state in
    let still : (objects' old).done ≡ true = elim (Bool-cases (id == old)) [
      | inl same ↦ simp (same) refl
      | inr other ↦ simp (other) done
    ] in
    let kept = expire p.max_retained_states objects' (p.done_ids ++ id ∷ []) p.states in
    let out =
      expire-forgets p.max_retained_states objects' old (ids ++ id ∷ []) p.states
        (omega (arith, ap length first, length-append ids (id ∷ []))) still in
    let same : kept ≡ expire p.max_retained_states objects' (old ∷ ids ++ id ∷ []) p.states =
      ap (λ l. expire p.max_retained_states objects' (l ++ id ∷ []) p.states) first in
    let q = mark_task_done p id executed failed in
    let gone : mem q.states old ≡ false =
      if-then (λ (r : ThreadPool). mem r.states old ≡ false) (mem p.states id) p known
        (ap (λ k. mem (k.1) old) same ∙ out.0) in
    let long : length q.done_ids ≡ p.max_retained_states =
      if-then (λ (r : ThreadPool). length r.done_ids ≡ p.max_retained_states) (mem p.states id) p
        known (ap (λ k. length k.0) same ∙ out.1) in
    (absent-IsForgotten q old gone, long)
