-- ===== src/Task/Built.antt =====
-- What `BuildIndegree` gives on a well-formed graph, and the nodes that are ready at first.
use corekit.Base.{
  ℕ, ◌+◌, ◌<◌, ◌≡◌, inl, inr, refl, sym, ap, ◌∙◌, subst, true, false, some, List, [], ◌∷◌, ◌==◌,
  if◌then◌else◌, Bool-cases, arith,
}
use corekit.Base.Count.{count, hit-cases, hit_self, mem}
use corekit.Task.Table.{keys, find}
use corekit.Task.Sorted.{Sorted}
use corekit.Task.Graph.{SimpleTaskGraph, targets}
use corekit.Task.Formed.{IsFormed}
use corekit.Task.Validate.{Degrees, zeros, build_indegree, ready_nodes}
use corekit.Task.Degree.{
  degree, waiting, zeros-keys, zeros-degree, count_edges-Counted, sum_targets, sum_targets-waiting,
}

-- A node has as many incoming edges as its entry says.
pub record Built (g : SimpleTaskGraph) : Type 0 where
  pub degrees : Degrees
  pub gives : build_indegree g ≡ some degrees
  pub same : keys degrees ≡ keys g.nodes
  pub exact : (v : ℕ) → degree degrees v ≡ waiting (targets g.edges) (keys g.nodes) [] v

pub waiting_pos :
    (out : ℕ → List ℕ) (us done : List ℕ) (v : ℕ)
    → 0 < waiting out us done v
    → (u : ℕ) × (0 < count us u) × (mem done u ≡ false) × (0 < count (out u) v)
unfolding waiting count
waiting_pos out [] done v h = absurd (omega arith)
waiting_pos out (u ∷ us) done v h = elim (Bool-cases (mem done u)) [
  | inl gone ↦
      let rest = waiting_pos out us done v (ground arith) in
      (rest.0, omega (arith, rest.1), rest.2, rest.3)
  | inr there ↦ elim (Bool-cases (count (out u) v == 0)) [
    | inr edge ↦ (u, omega (arith, hit_self u), there, ground arith)
    | inl none_here ↦
        let rest = waiting_pos out us done v (ground arith) in
        (rest.0, omega (arith, rest.1), rest.2, rest.3)
  ]
]

pub build_indegree-Built : {g : SimpleTaskGraph} → IsFormed g → Built g
unfolding build_indegree find
build_indegree-Built {g} f =
    let start = zeros g.nodes [] in
    let start_keys : keys start ≡ keys g.nodes = zeros-keys g.nodes [] f.sorted in
    let edges_sorted : Sorted (keys g.edges) = subst Sorted (sym f.same) f.sorted in
    let sums : (v : ℕ) → sum_targets g.edges v ≡ waiting (targets g.edges) (keys g.nodes) [] v =
      λ v.
        sum_targets-waiting g.edges v edges_sorted
        ∙ ap (λ k. waiting (targets g.edges) k [] v) f.same in
    let known : (v : ℕ) → 0 < sum_targets g.edges v → 0 < count (keys start) v = λ v h.
      let edge =
        waiting_pos (targets g.edges) (keys g.nodes) [] v (subst (λ n. 0 < n) (sums v) h) in
      subst (λ k. 0 < count k v) (sym start_keys) (f.known edge.0 v edge.3) in
    let counted =
      count_edges-Counted g.edges start (subst Sorted (sym start_keys) f.sorted) known in
    record {
      degrees = counted.counts;
      gives = counted.gives;
      same = counted.same ∙ start_keys;
      exact = λ v.
          counted.adds v
          ∙ (let zero_start : degree start v + sum_targets g.edges v ≡ sum_targets g.edges v =
                omega (arith, zeros-degree g.nodes [] no_entry v) in
              zero_start)
          ∙ sums v;
    }
  where
    no_entry : (v : ℕ) → degree [] v ≡ 0
    no_entry v = refl

-- The nodes with no incoming edge are ready, once each.
pub ready_nodes-count :
    (deg : Degrees) (v : ℕ)
    → Sorted (keys deg)
    → count (ready_nodes deg) v ≡ (if degree deg v == 0 then count (keys deg) v else 0)
unfolding ready_nodes find count
ready_nodes-count [] v s = refl
ready_nodes-count ((k, n) ∷ deg) v s =
    let rest = ready_nodes-count deg v s.1 in
    elim (hit-cases k v) [
      | inl at ↦
          let same : (k == v) ≡ true = ground (arith, at.0) in
          let no_later : count (keys deg) v ≡ 0 = ground (arith, s.0 v, at.0) in
          let none_ready : count (ready_nodes deg) v ≡ 0 = ground arith in
          simp (same) (ground (arith, at.1))
      | inr away ↦
          let other : (k == v) ≡ false = ground arith in simp (other) (ground (arith, away))
    ]
