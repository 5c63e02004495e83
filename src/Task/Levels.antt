-- ===== src/Task/Levels.antt =====
-- A level of ready nodes: what it calls, and what it hands on.
use corekit.Base.{
  ℕ, ◌+◌, ◌<◌, ◌≡◌, refl, sym, ap, ◌∙◌, subst, Bool, true, false, Option, none, some, List, [], ◌∷◌,
  ◌++◌, length, append-nil, append_assoc, if◌then◌else◌, arith,
}
use corekit.Base.Count.{count, count-cons, hit_self}
use corekit.Api.Status.{Status, is_ok}
use corekit.Task.Table.{keys}
use corekit.Task.Sorted.{find-key}
use corekit.Task.Graph.{TaskNode, SimpleTaskGraph}
use corekit.Task.Formed.{IsFormed}
use corekit.Task.Validate.{Degrees}
use corekit.Task.Kahn.{Kahn, ready-node, ready-new, released, step-Kahn}
use corekit.Task.Topological.{left, left-done}
use corekit.Task.Run.{
  Executor, Level, nothing_run, tally, missing_task, run_inline, reports, submit_each,
  run_submitted, run_level, release_all,
}

-- An executor that takes every task, and waits for all of them; or none.
abbrev pub Accepts : Option Executor → Type 0
Accepts none = Unit
Accepts (some ex) =
    ((id : ℕ) → ex.refuses id ≡ none) × ((level : List ℕ) → is_ok (ex.waits level) ≡ true)

-- The calls of these nodes that throw.
unfoldable pub failures : (ℕ → Bool) → List ℕ → ℕ
failures throws [] = 0
failures throws (id ∷ ids) = (if throws id then 1 else 0) + failures throws ids

pub failures-append :
    (throws : ℕ → Bool) (xs ys : List ℕ)
    → failures throws (xs ++ ys) ≡ failures throws xs + failures throws ys
unfolding failures
failures-append throws [] ys = omega arith
failures-append throws (x ∷ xs) ys = omega (arith, failures-append throws xs ys)

pub failures-nil : (throws : ℕ → Bool) → failures throws [] ≡ 0
unfolding failures
failures-nil throws = refl

-- A level that ran whole.
pub record Whole (throws : ℕ → Bool) (level : List ℕ) (out : Level) : Type 0 where
  pub stops : out.stops ≡ none
  pub calls : out.calls ≡ level
  pub failed : out.failed ≡ failures throws level
  pub called : out.succeeded + out.failed ≡ length level

tally-Whole :
    (throws : ℕ → Bool) (b : Bool) (id : ℕ) {ids : List ℕ} {out : Level}
    → throws id ≡ b
    → Whole throws ids out
    → Whole throws (id ∷ ids) (tally b id out)
unfolding failures
tally-Whole throws true id e w = record {
  stops = w.stops;
  calls = ap (◌∷◌ id) w.calls;
  failed = ground (arith, w.failed);
  called = omega (arith, w.called);
}
tally-Whole throws false id e w = record {
  stops = w.stops;
  calls = ap (◌∷◌ id) w.calls;
  failed = ground (arith, w.failed);
  called = omega (arith, w.called);
}

module _ (nodes : List (ℕ × TaskNode)) (throws : ℕ → Bool) where
  reports-Whole : (level : List ℕ) → Whole throws level (reports nodes throws level)
  unfolding reports failures
  reports-Whole [] = record { stops = refl; calls = refl; failed = refl; called = omega arith }
  reports-Whole (id ∷ ids) = tally-Whole throws (throws id) id refl (reports-Whole ids)

  run_inline-reports :
      (level : List ℕ)
      → ((v : ℕ) → 0 < count level v → 0 < count (keys nodes) v)
      → run_inline nodes throws level ≡ reports nodes throws level
  unfolding run_inline reports
  run_inline-reports [] known = refl
  run_inline-reports (id ∷ ids) known =
      let found = find-key nodes id (known id (omega (arith, count-cons id ids id, hit_self id))) in
      let rest = run_inline-reports ids (λ v h. known v (omega (arith, count-cons id ids v))) in
      (λ i. elim (found.1 i) [
        | none ↦ nothing_run (some missing_task)
        | some node ↦ tally (throws id) id (run_inline nodes throws ids)
      ])
      ∙ ap (tally (throws id) id) rest

  submit_each-accepted :
      (ex : Executor) (level : List ℕ)
      → ((id : ℕ) → ex.refuses id ≡ none)
      → ((v : ℕ) → 0 < count level v → 0 < count (keys nodes) v)
      → submit_each nodes throws ex level ≡ (none, level)
  unfolding submit_each
  submit_each-accepted ex [] accepts known = refl
  submit_each-accepted ex (id ∷ ids) accepts known =
      let found = find-key nodes id (known id (omega (arith, count-cons id ids id, hit_self id))) in
      let rest =
        submit_each-accepted ex ids accepts (λ v h. known v (omega (arith, count-cons id ids v))) in
      let others = submit_each nodes throws ex ids in
      (λ i. elim (found.1 i) [
        | none ↦ (some missing_task, [])
        | some node ↦ elim (accepts id i) [
          | some st ↦ (some st, [])
          | none ↦ (others.0, id ∷ others.1)
        ]
      ])
      ∙ ap (λ (o : Option Status × List ℕ). (o.0, id ∷ o.1)) rest

  pub run_level-Whole :
      (ex : Option Executor) (level : List ℕ)
      → Accepts ex
      → ((v : ℕ) → 0 < count level v → 0 < count (keys nodes) v)
      → Whole throws level (run_level nodes throws ex level)
  unfolding run_level run_submitted
  run_level-Whole none level accepts known =
      subst (Whole throws level) (sym (run_inline-reports level known)) (reports-Whole level)
  run_level-Whole (some ex) level accepts known =
      let submitted = submit_each-accepted ex level accepts.0 known in
      let waited : run_submitted nodes throws (none, level) (ex.waits level) level
          ≡ reports nodes throws level =
        ap
          (λ b.
            if b
            then reports nodes throws level
            else record (nothing_run (some (ex.waits level))) { calls = level })
          (accepts.1 level) in
      subst (Whole throws level)
        (sym (ap (λ o. run_submitted nodes throws o (ex.waits level) level) submitted ∙ waited))
        (reports-Whole level)

-- The nodes of a level are finished one by one.
pub record Freed (g : SimpleTaskGraph) (level done : List ℕ) (out : Option (Degrees × List ℕ))
    : Type 0 where
  pub degrees : Degrees
  pub queue : List ℕ
  pub gives : out ≡ some (degrees, queue)
  pub kahn : Kahn g degrees queue (done ++ level)
  pub fewer : left (keys g.nodes) done ≡ left (keys g.nodes) (done ++ level) + length level

pub release_all-Freed :
    {g : SimpleTaskGraph} (f : IsFormed g) (deg : Degrees) (level rest done : List ℕ)
    → Kahn g deg (level ++ rest) done
    → Freed g level done (release_all g.edges level deg rest)
unfolding release_all
release_all-Freed {g} f deg [] rest done k = record {
  degrees = deg;
  queue = rest;
  gives = refl;
  kahn = subst (Kahn g deg rest) (sym (append-nil done)) k;
  fewer = omega (arith, ap (left (keys g.nodes)) (append-nil done));
}
release_all-Freed {g} f deg (x ∷ level) rest done k =
    let here : 0 < count (x ∷ level ++ rest) x =
      omega (arith, count-cons x (level ++ rest) x, hit_self x) in
    let one = released f level rest k in
    let more =
      release_all-Freed f one.degrees level one.queue (done ++ x ∷ []) (step-Kahn f level rest k) in
    let together = append_assoc done (x ∷ []) level in
    record {
      degrees = more.degrees;
      queue = more.queue;
      gives =
          (λ i. elim (one.gives i) [
            | none ↦ none
            | some (deg', ready') ↦ release_all g.edges level deg' ready'
          ])
          ∙ more.gives;
      kahn = subst (Kahn g more.degrees more.queue) together more.kahn;
      fewer = omega (
        arith,
        more.fewer,
        left-done (keys g.nodes) done x (ready-node f k x here) (ready-new f k x here),
        ap (left (keys g.nodes)) together,
      );
    }
