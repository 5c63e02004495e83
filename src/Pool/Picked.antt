-- ===== src/Pool/Picked.antt =====
-- The entry that PickNextTaskIndexLocked picks.
use corekit.Base.{
  ℕ, suc, ◌+◌, ◌^◌, ◌≤◌, ◌<◌, ◌≡◌, ◌≢◌, ◌⊎◌, inl, inr, refl, sym, ap, ◌∙◌, subst, ◌&&◌, ◌||◌, List,
  [], ◌∷◌, ◌++◌, length, length-append, append_assoc, append-nil, ltb, ◌==◌, arith,
}
use corekit.Pool.State.{
  ExecutorPolicy, by_priority, hybrid_fair_priority, ExecutorOptions, TaskEntry, new_pool,
}
use corekit.Pool.Work.{score, pick_from, pick_next, Event, happen}
use corekit.Pool.Places.{Each, Each-map, Each-push, Each-append}
use corekit.Base.Branch.{if-both}
use corekit.Pool.Sound.{Ascending, new_pool-IsSound}
use corekit.Pool.Safe.{happen-IsSound}

-- The entry at a place is the first of those with the highest priority.
pub record IsFirstOfHighest (tasks : List TaskEntry) (i : ℕ) : Type 0 where
  pub earlier : List TaskEntry
  pub later : List TaskEntry
  pub entry : TaskEntry
  pub split : tasks ≡ earlier ++ entry ∷ later
  pub place : length earlier ≡ i
  pub above : Each (λ e. score e.priority < score entry.priority) earlier
  pub highest : Each (λ e. score e.priority ≤ score entry.priority) later

-- The loop has seen `seen`, with the best entry in it.
record Seen (seen : List TaskEntry) (best best_score best_seq : ℕ) : Type 0 where
  first : IsFirstOfHighest seen best
  same_score : score first.entry.priority ≡ best_score
  same_seq : first.entry.seq ≡ best_seq

Seen-all :
    {seen : List TaskEntry} {best bs bq : ℕ}
    → Seen seen best bs bq
    → Each (λ e. score e.priority ≤ bs) seen
Seen-all {bs = bs} s =
    let f = s.first in
    subst (Each (λ e. score e.priority ≤ bs)) (sym f.split) (
      Each-append _ f.earlier (f.entry ∷ f.later)
        (Each-map f.earlier (λ e h. omega (arith, s.same_score)) f.above)
        (
          omega (arith, s.same_score),
          Each-map f.later (λ e h. omega (arith, s.same_score)) f.highest,
        ))

-- A better entry comes.
Seen-better :
    {seen : List TaskEntry} {best bs bq : ℕ} (x : TaskEntry)
    → Seen seen best bs bq
    → bs < score x.priority
    → Seen (seen ++ x ∷ []) (length seen) (score x.priority) x.seq
Seen-better {seen} x s better = record {
  first = record {
    earlier = seen;
    later = [];
    entry = x;
    split = refl;
    place = refl;
    above = Each-map seen (λ e h. omega arith) (Seen-all s);
    highest = tt;
  };
  same_score = refl;
  same_seq = refl;
}

-- An entry comes that is no better.
Seen-worse :
    {seen : List TaskEntry} {best bs bq : ℕ} (x : TaskEntry)
    → Seen seen best bs bq
    → score x.priority ≤ bs
    → Seen (seen ++ x ∷ []) best bs bq
Seen-worse x s worse =
    let f = s.first in
    record {
      first = record {
        earlier = f.earlier;
        later = f.later ++ x ∷ [];
        entry = f.entry;
        split = ap (λ l. l ++ x ∷ []) f.split ∙ append_assoc f.earlier (f.entry ∷ f.later) (x ∷ []);
        place = f.place;
        above = f.above;
        highest = Each-push _ f.later f.highest (omega (arith, s.same_score));
      };
      same_score = s.same_score;
      same_seq = s.same_seq;
    }

pick_from-first :
    (es seen : List TaskEntry) (best bs bq low high : ℕ)
    → Seen seen best bs bq
    → bq ≤ low
    → Ascending low es high
    → IsFirstOfHighest (seen ++ es) (pick_from es (length seen) best bs bq)
unfolding pick_from
pick_from-first [] seen best bs bq low high s under a =
    subst (λ l. IsFirstOfHighest l best) (sym (append-nil seen)) s.first
pick_from-first (x ∷ es) seen best bs bq low high s under a =
    let long : length (seen ++ x ∷ []) ≡ suc (length seen) =
      omega (arith, length-append seen (x ∷ [])) in
    let next : (b c d : ℕ)
        → Seen (seen ++ x ∷ []) b c d
        → d ≤ x.seq
        → IsFirstOfHighest (seen ++ x ∷ es) (pick_from es (suc (length seen)) b c d) =
      λ b c d s' under'.
        subst (λ l. IsFirstOfHighest l (pick_from es (suc (length seen)) b c d))
          (append_assoc seen (x ∷ []) es)
          (subst (λ n. IsFirstOfHighest ((seen ++ x ∷ []) ++ es) (pick_from es n b c d)) long
            (pick_from-first es (seen ++ x ∷ []) b c d x.seq high s' under' a.1)) in
    if-both (IsFirstOfHighest (seen ++ x ∷ es))
      (ltb bs (score x.priority) || ((score x.priority == bs) && ltb x.seq bq))
      (λ yes.
        next (length seen) (score x.priority) x.seq (Seen-better x s (ground (arith, a.0)))
          (omega arith))
      (λ no. next best bs bq (Seen-worse x s (ground arith)) (omega (arith, a.0)))

-- By priority.
abbrev pub RespectsPriority : ExecutorPolicy → Type 0
RespectsPriority policy = (policy ≡ by_priority) ⊎ (policy ≡ hybrid_fair_priority)

pick_next-first :
    (policy : ExecutorPolicy) (tasks : List TaskEntry) (high : ℕ)
    → RespectsPriority policy
    → Ascending 0 tasks high
    → tasks ≢ []
    → IsFirstOfHighest tasks (pick_next policy tasks)
unfolding pick_next
pick_next-first policy [] high by a some_task = absurd (some_task refl)
pick_next-first policy (e ∷ es) high by a some_task =
    let seen : Seen (e ∷ []) 0 (score e.priority) e.seq = record {
      first = record {
        earlier = [];
        later = [];
        entry = e;
        split = refl;
        place = refl;
        above = tt;
        highest = tt;
      };
      same_score = refl;
      same_seq = refl;
    } in
    let picked =
      pick_from-first es (e ∷ []) 0 (score e.priority) e.seq e.seq high seen (omega arith) a.1 in
    elim by [
      | inl same ↦ subst (λ k. IsFirstOfHighest (e ∷ es) (pick_next k (e ∷ es))) (sym same) picked
      | inr same ↦ subst (λ k. IsFirstOfHighest (e ∷ es) (pick_next k (e ∷ es))) (sym same) picked
    ]

-- After any history on a new pool, shorter than the 64-bit counters, with a policy that respects
-- priorities and some task queued: the worker that takes a task next gets the one that was queued
-- first of those with the highest priority.
pub happen-picks :
    (hardware : ℕ) (o : ExecutorOptions) (es : List Event)
    → length es + 1 < 2 ^ 64
    → RespectsPriority (happen (new_pool hardware o) es).options.policy
    → (happen (new_pool hardware o) es).tasks ≢ []
    → IsFirstOfHighest (happen (new_pool hardware o) es).tasks (
        pick_next
          (happen (new_pool hardware o) es).options.policy
          (happen (new_pool hardware o) es).tasks)
happen-picks hardware o es small by some_task =
    let p = happen (new_pool hardware o) es in
    let s = happen-IsSound es (omega arith) (new_pool-IsSound hardware o) in
    pick_next-first p.options.policy p.tasks p.enqueue_seq by s.queue.ascending some_task
