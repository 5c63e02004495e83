-- ===== src/Task/Formed.antt =====
-- The calls that build a graph keep it well formed.
use corekit.Base.{
  ℕ, ◌+◌, ◌^◌, ◌<◌, ◌≡◌, ◌≢◌, ◌⊎◌, inl, inr, refl, sym, ap, ◌∙◌, subst, Bool, true, false, some,
  List, [], ◌∷◌, ◌++◌, ◌==◌, if◌then◌else◌, Bool-cases, arith,
}
use corekit.Base.Count.{hit, count, count-push, count-nil, hit-cases}
use corekit.Api.Status.{is_ok}
use corekit.Task.Table.{keys, find, assign, insert}
use corekit.Task.Sorted.{
  Sorted, Sorted-push, find-assign, find-no_key, keys-assign_new, keys-assign_old, count-insert,
}
use corekit.Task.Graph.{
  SimpleTaskGraph, GraphTaskOptions, new_graph, or_empty, targets, has, add_task, add_dependency,
  add_each,
}

-- Every node has an entry for its edges, edges lead from nodes to other nodes, and no number of a
-- node is given out again.
pub record IsFormed (g : SimpleTaskGraph) : Type 0 where
  pub sorted : Sorted (keys g.nodes)
  pub same : keys g.edges ≡ keys g.nodes
  pub known : (u v : ℕ) → 0 < count (targets g.edges u) v → 0 < count (keys g.nodes) v
  pub apart : (u : ℕ) → count (targets g.edges u) u ≡ 0
  pub below : (v : ℕ) → 0 < count (keys g.nodes) v → v < g.next_id

pub targets-assign :
    (m : List (ℕ × List ℕ)) (k : ℕ) (out : List ℕ) (u : ℕ)
    → targets (assign m k out) u ≡ (if k == u then out else targets m u)
unfolding targets
targets-assign m k out u = ap or_empty (find-assign m k out u) ∙ by_test (k == u)
  where
    by_test :
        (b : Bool)
        → or_empty (if b then some out else find m u) ≡ (if b then out else or_empty (find m u))
    by_test true = refl
    by_test false = refl

-- An edge starts at a node.
pub targets-key :
    {g : SimpleTaskGraph} (u v : ℕ)
    → IsFormed g
    → 0 < count (targets g.edges u) v
    → 0 < count (keys g.nodes) u
unfolding targets
targets-key {g} u v f h = elim (Bool-cases (count (keys g.nodes) u == 0)) [
  | inr there ↦ ground arith
  | inl gone ↦
      let no_edges : count (keys g.edges) u ≡ 0 = ap (λ k. count k u) f.same ∙ (ground arith) in
      let no_targets : targets g.edges u ≡ [] = ap or_empty (find-no_key g.edges u no_edges) in
      let no_count : count (targets g.edges u) v ≡ 0 =
        ap (λ s. count s v) no_targets ∙ count-nil v in
      absurd (omega arith)
]

targets_same :
    (m : List (ℕ × List ℕ)) (k u : ℕ) → targets (assign m k (targets m k)) u ≡ targets m u
targets_same m k u = targets-assign m k (targets m k) u ∙ elim (Bool-cases (k == u)) [
  | inl at ↦ let equal : k ≡ u = ground arith in simp (at) (ap (targets m) equal)
  | inr away ↦ simp (away) refl
]

pub add_task-IsFormed :
    {g : SimpleTaskGraph} (fn_is_null : Bool) (options : GraphTaskOptions)
    → IsFormed g
    → g.next_id + 1 < 2 ^ 64
    → IsFormed (add_task g fn_is_null options).1
unfolding add_task
add_task-IsFormed true options f room = f
add_task-IsFormed {g} false options f room =
    let id = g.next_id in
    let nodes : keys (add_task g false options).1.nodes ≡ keys g.nodes ++ id ∷ [] =
      keys-assign_new g.nodes id _ f.below in
    let edges : keys (add_task g false options).1.edges ≡ keys g.edges ++ id ∷ [] =
      keys-assign_new g.edges id (targets g.edges id)
        (λ y h. f.below y (subst (λ k. 0 < count k y) f.same h)) in
    let counted : (v : ℕ)
        → count (keys (add_task g false options).1.nodes) v ≡ count (keys g.nodes) v + hit id v =
      λ v. ap (λ k. count k v) nodes ∙ count-push (keys g.nodes) id v in
    record {
      sorted = subst Sorted (sym nodes) (Sorted-push (keys g.nodes) id f.sorted f.below);
      same = edges ∙ ap (λ k. k ++ id ∷ []) f.same ∙ sym nodes;
      known = λ u v h. omega (
        arith,
        counted v,
        f.known u v (subst (λ s. 0 < count s v) (targets_same g.edges id u) h),
      );
      apart = λ u. ap (λ s. count s u) (targets_same g.edges id u) ∙ f.apart u;
      below = λ v h. elim (hit-cases id v) [
        | inl at ↦ omega (arith, at.0)
        | inr away ↦ omega (arith, f.below v (omega (arith, counted v, away)))
      ];
    }

has-key : (g : SimpleTaskGraph) (k : ℕ) → has (find g.nodes k) ≡ true → 0 < count (keys g.nodes) k
has-key g k h = elim (Bool-cases (count (keys g.nodes) k == 0)) [
  | inr there ↦ ground arith
  | inl gone ↦
      let absent : has (find g.nodes k) ≡ false = ap has (find-no_key g.nodes k (ground arith)) in
      absurd (cc)
]

-- A new edge between two nodes.
edge-IsFormed :
    {g : SimpleTaskGraph} (before after : ℕ)
    → IsFormed g
    → before ≢ after
    → 0 < count (keys g.nodes) before
    → 0 < count (keys g.nodes) after
    → IsFormed (record g { edges = assign g.edges before (insert (targets g.edges before) after) })
edge-IsFormed {g} before after f other has_before has_after =
    let out = insert (targets g.edges before) after in
    let inside : (u v : ℕ)
        → 0 < count (targets (assign g.edges before out) u) v
        → ((before ≡ u) × (after ≡ v)) ⊎ (0 < count (targets g.edges u) v) =
      λ u v h. elim (Bool-cases (before == u)) [
        | inl at ↦
            let here : before ≡ u = ground arith in
            let new : 0 < count out v =
              subst (λ s. 0 < count s v) (targets-assign g.edges before out u ∙ simp (at) refl) h in
            elim (count-insert (targets g.edges before) after v new) [
              | inl e ↦ inl (here, e)
              | inr old ↦ inr (subst (λ w. 0 < count (targets g.edges w) v) here old)
            ]
        | inr away ↦
            inr (
              subst (λ s. 0 < count s v) (targets-assign g.edges before out u ∙ simp (away) refl) h)
      ] in
    record {
      sorted = f.sorted;
      same =
          keys-assign_old g.edges before out (subst Sorted (sym f.same) f.sorted)
            (subst (λ k. 0 < count k before) (sym f.same) has_before)
          ∙ f.same;
      known = λ u v h. elim (inside u v h) [
        | inl e ↦ subst (λ w. 0 < count (keys g.nodes) w) e.1 has_after
        | inr old ↦ f.known u v old
      ];
      apart = λ u. elim (Bool-cases (count (targets (assign g.edges before out) u) u == 0)) [
        | inl e ↦ ground arith
        | inr e ↦ absurd (elim (inside u u (ground arith)) [
          | inl both ↦ other (both.0 ∙ sym both.1)
          | inr old ↦ omega (arith, f.apart u)
        ])
      ];
      below = f.below;
    }

pub add_dependency-IsFormed :
    {g : SimpleTaskGraph} (before after : ℕ)
    → IsFormed g
    → IsFormed (add_dependency g before after).1
unfolding add_dependency
add_dependency-IsFormed {g} before after f = elim (Bool-cases (before == after)) [
  | inl self ↦ simp (self) f
  | inr other ↦ elim (Bool-cases (has (find g.nodes before))) [
    | inr gone ↦ simp (other, gone) f
    | inl start ↦ elim (Bool-cases (has (find g.nodes after))) [
      | inr gone ↦ simp (other, start, gone) f
      | inl end ↦
          let differ : before ≢ after = λ e. absurd (ground (arith, e)) in
          simp (other, start, end)
            (edge-IsFormed before after f differ (has-key g before start) (has-key g after end))
    ]
  ]
]

pub add_each-IsFormed :
    {g : SimpleTaskGraph} (after : ℕ) (befores : List ℕ)
    → IsFormed g
    → IsFormed (add_each g after befores).1
unfolding add_each
add_each-IsFormed after [] f = f
add_each-IsFormed {g} after (b ∷ befores) f =
    let one = add_dependency-IsFormed b after f in
    elim (Bool-cases (is_ok (add_dependency g b after).0)) [
      | inl fine ↦
          simp (fine) (add_each-IsFormed {g = (add_dependency g b after).1} after befores one)
      | inr failed ↦ simp (failed) one
    ]

pub new_graph-IsFormed : IsFormed new_graph
unfolding count targets find
new_graph-IsFormed = record {
  sorted = tt;
  same = refl;
  known = λ u v h. h;
  apart = λ u. refl;
  below = λ v h. absurd (omega arith);
}
