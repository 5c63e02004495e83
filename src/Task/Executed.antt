-- ===== src/Task/Executed.antt =====
-- A run calls each task once, behind all that it waits for.
use corekit.Base.{
  ℕ, zero, suc, ◌+◌, ◌^◌, ◌≤◌, ◌<◌, ◌≡◌, ◌⊎◌, inl, inr, refl, sym, ap, ◌∙◌, subst, Bool, true,
  false, ◌&&◌, Option, none, some, List, [], ◌∷◌, ◌++◌, length, length-append, take, drop,
  take-append-drop, length-take, ltb, ◌==◌, Bool-cases, arith,
}
use corekit.Base.Count.{count, count-nil, count-append, count-cons, hit_self}
use corekit.Api.Status.{value}
use corekit.Task.Table.{keys}
use corekit.Task.Sorted.{Sorted-once}
use corekit.Task.Graph.{SimpleTaskGraph, targets}
use corekit.Task.Formed.{IsFormed}
use corekit.Task.Validate.{Degrees}
use corekit.Task.Kahn.{Kahn, ready-node, ready-new, ready-backed}
use corekit.Task.Topological.{IsTopological, left, left-done, waiting-all}
use corekit.Task.Accepted.{OrderedFrom-finished}
use corekit.Task.Levels.{
  Accepts, failures, failures-append, Whole, run_level-Whole, release_all-Freed,
}
use corekit.Task.Log.{flatten, flatten-push, Layered, Layered-push, Executes}
use corekit.Task.Run.{
  GraphRunOptions, GraphRunStats, Executor, Level, Ran, ended, run_level, level_cap, with_canceled,
  finish, after_level, counted, run_loop,
}

-- The loop, with these nodes done.
pub record Progress (g : SimpleTaskGraph) (throws : ℕ → Bool) (options : GraphRunOptions)
    (done : List ℕ) (stats : GraphRunStats) (log : List (List ℕ)) : Type 0 where
  pub flat : flatten log ≡ done
  pub layered : Layered (targets g.edges) [] log
  pub failed : stats.failed ≡ failures throws done
  pub called : stats.succeeded + stats.failed ≡ length done
  pub total : stats.total ≡ length g.nodes
  pub left_over : length done + left (keys g.nodes) done ≡ length g.nodes

module _ {g : SimpleTaskGraph} (f : IsFormed g) (throws : ℕ → Bool) (ex : Option Executor)
    (options : GraphRunOptions) (accepts : Accepts ex) (small : length g.nodes < 2 ^ 64)
    (order : List ℕ) (sorted : IsTopological g order) where
  level_cap_pos : 0 < level_cap options.max_concurrency
  level_cap_pos = ground arith

  count-done :
      {deg : Degrees} {ready done : List ℕ} (v : ℕ)
      → Kahn g deg ready done
      → count done v ≤ count (keys g.nodes) v
  count-done v k = ground (arith, k.once v)

  -- With nothing ready all nodes are done.
  done-all :
      {deg : Degrees} {done : List ℕ}
      → Kahn g deg [] done
      → (v : ℕ) → count done v ≡ count (keys g.nodes) v
  done-all {done = done} k v =
      let reached =
        OrderedFrom-finished [] order k sorted.1 (λ v h. absurd (omega (arith, count-nil v)))
          (λ v h. omega (arith, sorted.0 v)) in
      ground
        (arith, reached v, sorted.0 v, k.once v, count-nil v, Sorted-once (keys g.nodes) v f.sorted)

  canceled-left :
      {done : List ℕ} {stats : GraphRunStats} {log : List (List ℕ)}
      → Progress g throws options done stats log
      → (with_canceled stats).canceled + length done ≡ length g.nodes
  canceled-left {done} {stats} p = omega (arith, p.called, p.total, p.left_over)

  ended-Executes :
      {deg : Degrees} {ready done : List ℕ} {stats : GraphRunStats} {log : List (List ℕ)}
      → Kahn g deg ready done
      → Progress g throws options done stats log
      → ((stats.failed ≡ 0) ⊎ (options.fail_fast ≡ false)
          → (v : ℕ) → count done v ≡ count (keys g.nodes) v)
      → Executes g throws options (ended (value (with_canceled stats)) log)
  ended-Executes {stats = stats} k p whole = record {
    stats = with_canceled stats;
    result = refl;
    layered = p.layered;
    nodes = λ v. subst (λ d. count d v ≤ count (keys g.nodes) v) (sym p.flat) (count-done v k);
    failed = p.failed ∙ ap (failures throws) (sym p.flat);
    called = p.called ∙ ap length (sym p.flat);
    total = p.total;
    canceled = omega (arith, canceled-left p, ap length p.flat);
    whole = λ h v. ap (λ d. count d v) p.flat ∙ whole h v;
  }

  -- A level that ran adds to the progress.
  level-Progress :
      {deg : Degrees} {ready done level : List ℕ} {stats : GraphRunStats} {log : List (List ℕ)}
      {out : Level}
      → Kahn g deg ready done
      → Progress g throws options done stats log
      → ((v : ℕ) → 0 < count level v → 0 < count ready v)
      → Whole throws level out
      → left (keys g.nodes) done ≡ left (keys g.nodes) (done ++ level) + length level
      → Progress g throws options (done ++ level) (counted stats out) (log ++ level ∷ [])
  level-Progress {done = done} {level} {stats} {log} k p among w fewer = record {
    flat = flatten-push log level ∙ ap (λ d. d ++ level) p.flat;
    layered =
        Layered-push (targets g.edges) [] log level p.layered
          (λ u v h e. subst (λ d. 0 < count d u) (sym p.flat) (ready-backed f k u v (among v h) e));
    failed = omega (arith, p.failed, w.failed, failures-append throws done level);
    called = omega (arith, p.called, w.called, length-append done level);
    total = p.total;
    left_over = omega (arith, p.left_over, fewer, length-append done level);
  }

  all_done : {deg : Degrees} {done : List ℕ} → Kahn g deg [] done → left (keys g.nodes) done ≡ 0
  all_done {done = done} k =
      waiting-all (λ _. 0 ∷ []) (keys g.nodes) done 0 (λ u h. omega (arith, done-all k u))

  -- The loop ends within the fuel.
  pub run_loop-Executes :
      (fuel : ℕ) (deg : Degrees) (ready done : List ℕ) (stats : GraphRunStats) (processed : ℕ)
      (log : List (List ℕ))
      → Kahn g deg ready done
      → Progress g throws options done stats log
      → processed ≡ length done
      → left (keys g.nodes) done ≤ fuel
      → Executes g throws options (run_loop g throws ex options fuel deg ready stats processed log)
  unfolding run_loop finish after_level
  run_loop-Executes fuel deg [] done stats processed log k p same enough =
      let all : (processed == length g.nodes) ≡ true = ground (arith, all_done k, p.left_over) in
      simp (all) (ended-Executes k p (λ _ v. done-all k v))
  run_loop-Executes zero deg (id ∷ ready) done stats processed log k p same enough =
      let here : 0 < count (id ∷ ready) id = omega (arith, count-cons id ready id, hit_self id) in
      absurd (
        omega (
          arith,
          left-done (keys g.nodes) done id (ready-node f k id here) (ready-new f k id here),
        ))
  run_loop-Executes (suc fuel) deg (id ∷ ready) done stats processed log k p same enough =
      let level = take (level_cap options.max_concurrency) (id ∷ ready) in
      let rest = drop (level_cap options.max_concurrency) (id ∷ ready) in
      let joined : level ++ rest ≡ id ∷ ready =
        take-append-drop (level_cap options.max_concurrency) (id ∷ ready) in
      let among : (v : ℕ) → 0 < count level v → 0 < count (id ∷ ready) v =
        λ v h. omega (arith, ap (λ l. count l v) joined, count-append level rest v) in
      let out = run_level g.nodes throws ex level in
      let w =
        run_level-Whole g.nodes throws ex level accepts
          (λ v h. omega (arith, ready-node f k v (among v h))) in
      let freed =
        release_all-Freed f deg level rest done (subst (λ l. Kahn g deg l done) (sym joined) k) in
      let some_level : 0 < length level =
        omega
          (arith, length-take (level_cap options.max_concurrency) (id ∷ ready), level_cap_pos) in
      let more = level-Progress k p among w freed.fewer in
      let log' = log ++ level ∷ [] in
      let next : List (List ℕ) → Degrees → List ℕ → Ran = λ l deg' ready'.
        run_loop g throws ex options fuel deg' ready' (counted stats out) (processed + length level)
          l in
      let round : run_loop g throws ex options (suc fuel) deg (id ∷ ready) stats processed log
          ≡ after_level (next log') none (ltb 0 out.failed && options.fail_fast)
              (some (freed.degrees, freed.queue)) (counted stats out) log' =
        λ i.
          after_level (next (log ++ w.calls i ∷ [])) (w.stops i)
            (ltb 0 out.failed && options.fail_fast) (freed.gives i) (counted stats out)
            (log ++ w.calls i ∷ []) in
      subst (Executes g throws options) (sym round)
        (elim (Bool-cases (ltb 0 out.failed && options.fail_fast)) [
          | inl early ↦
              subst
                (λ b. Executes g throws options (
                  after_level (next log') none b (some (freed.degrees, freed.queue))
                    (counted stats out) log'))
                (sym early) (ended-Executes freed.kahn more (λ h. absurd (ground arith)))
          | inr goes_on ↦
              subst
                (λ b. Executes g throws options (
                  after_level (next log') none b (some (freed.degrees, freed.queue))
                    (counted stats out) log'))
                (sym goes_on)
                (run_loop-Executes fuel freed.degrees freed.queue (done ++ level)
                  (counted stats out) (processed + length level) log' freed.kahn more
                  (omega (arith, length-append done level)) (omega (arith, freed.fewer)))
        ])
