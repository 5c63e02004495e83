-- ===== src/Task/Kahn.antt =====
-- The state of the loops of `Validate` and `RunInternal`: finished nodes, ready nodes, and the
-- counts of the others. A finished node hands its edges back.
use corekit.Base.{
  ℕ, ◌+◌, ◌<◌, ◌≡◌, inl, inr, refl, sym, ap, ◌∙◌, subst, true, false, ◌||◌, List, [], ◌∷◌, ◌++◌,
  ◌==◌, if◌then◌else◌, arith,
}
use corekit.Base.Count.{
  count, count-append, count-nil, count-cons, count-push, hit-cases, hit_self, mem, mem-count,
  count-absent,
}
use corekit.Task.Table.{keys}
use corekit.Task.Sorted.{Sorted, Sorted-once}
use corekit.Task.Graph.{SimpleTaskGraph, targets}
use corekit.Task.Formed.{IsFormed, targets-key}
use corekit.Task.Validate.{Degrees, release, ready_nodes}
use corekit.Task.Degree.{degree, waiting}
use corekit.Task.Built.{Built, ready_nodes-count}
use corekit.Task.Release.{Released, release-Released}

-- Finished nodes, ready nodes, and the counts of the others.
pub record Kahn (g : SimpleTaskGraph) (deg : Degrees) (ready done : List ℕ) : Type 0 where
  pub same : keys deg ≡ keys g.nodes
  pub exact : (v : ℕ) → degree deg v ≡ waiting (targets g.edges) (keys g.nodes) done v
  pub once :
      (v : ℕ)
      → count done v + count ready v ≡ (if degree deg v == 0 then count (keys g.nodes) v else 0)

mem-push : (xs : List ℕ) (x v : ℕ) → mem (xs ++ x ∷ []) v ≡ (mem xs v || x == v)
unfolding mem
mem-push [] x v = ground arith
mem-push (y ∷ xs) x v = ground (arith, mem-push xs x v)

-- A node that is not among `us` changes nothing there.
waiting-other :
    (out : ℕ → List ℕ) (us done : List ℕ) (x v : ℕ)
    → count us x ≡ 0
    → waiting out us (done ++ x ∷ []) v ≡ waiting out us done v
unfolding waiting count
waiting-other out [] done x v e = refl
waiting-other out (u ∷ us) done x v e =
    ground (arith, waiting-other out us done x v, mem-push done x u)

pub waiting-done :
    (out : ℕ → List ℕ) (us done : List ℕ) (x v : ℕ)
    → count us x ≡ 1
    → mem done x ≡ false
    → waiting out us done v ≡ waiting out us (done ++ x ∷ []) v + count (out x) v
unfolding waiting count
waiting-done out [] done x v e fresh = absurd (omega arith)
waiting-done out (u ∷ us) done x v e fresh = elim (hit-cases u x) [
  | inl at ↦
      let others = waiting-other out us done x v (omega (arith, at.1)) in
      let same_out : count (out u) v ≡ count (out x) v = ap (λ w. count (out w) v) at.0 in
      let open_before : mem done u ≡ false = ap (mem done) at.0 ∙ fresh in
      let now : mem (done ++ x ∷ []) u ≡ true = ground (arith, mem-push done x u, at.0) in
      ground arith
  | inr away ↦
      let rest = waiting-done out us done x v (omega (arith, away)) fresh in
      let other : (x == u) ≡ false = ground arith in ground (arith, mem-push done x u)
]

pub waiting_zero :
    (out : ℕ → List ℕ) (us done : List ℕ) (u v : ℕ)
    → waiting out us done v ≡ 0
    → 0 < count us u
    → 0 < count (out u) v
    → mem done u ≡ true
unfolding waiting count
waiting_zero out [] done u v e k h = absurd (omega arith)
waiting_zero out (w ∷ us) done u v e k h = elim (hit-cases w u) [
  | inl at ↦
      let edge : 0 < count (out w) v = subst (λ z. 0 < count (out z) v) (sym at.0) h in
      ap (mem done) (sym at.0) ∙ (ground arith)
  | inr away ↦ waiting_zero out us done u v (omega arith) (omega (arith, away)) h
]

-- The loops start in such a state.
pub start-Kahn :
    {g : SimpleTaskGraph} (f : IsFormed g) (b : Built g)
    → Kahn g b.degrees (ready_nodes b.degrees) []
start-Kahn {g} f b = record {
  same = b.same;
  exact = b.exact;
  once = λ v.
      let all = ready_nodes-count b.degrees v (subst Sorted (sym b.same) f.sorted) in
      ground (arith, all, count-nil v, ap (λ k. count k v) b.same);
}

module _ {g : SimpleTaskGraph} (f : IsFormed g) {deg : Degrees} {ready done : List ℕ}
    (k : Kahn g deg ready done) where
  -- A ready node waits for nothing, and is a node that is not finished.
  pub ready-free : (v : ℕ) → 0 < count ready v → degree deg v ≡ 0
  ready-free v h = ground (arith, k.once v)

  pub ready-node : (v : ℕ) → 0 < count ready v → count (keys g.nodes) v ≡ 1
  ready-node v h = ground (arith, k.once v, Sorted-once (keys g.nodes) v f.sorted)

  pub ready-new : (v : ℕ) → 0 < count ready v → count done v ≡ 0
  ready-new v h = ground (arith, k.once v, ready-node v h)

  pub ready-backed :
      (u v : ℕ) → 0 < count ready v → 0 < count (targets g.edges u) v → 0 < count done u
  ready-backed u v h edge = mem-count done u (
      waiting_zero (targets g.edges) (keys g.nodes) done u v (sym (k.exact v) ∙ ready-free v h)
        (targets-key u v f edge) edge)

module _ {g : SimpleTaskGraph} (f : IsFormed g) {deg : Degrees} {x : ℕ} (level rest : List ℕ)
    {done : List ℕ} (k : Kahn g deg (x ∷ level ++ rest) done) where
  taken : 0 < count (x ∷ level ++ rest) x
  taken = omega (arith, count-cons x (level ++ rest) x, hit_self x)

  lowered :
      (v : ℕ)
      → degree deg v
        ≡ waiting (targets g.edges) (keys g.nodes) (done ++ x ∷ []) v + count (targets g.edges x) v
  lowered v =
      k.exact v
      ∙ waiting-done (targets g.edges) (keys g.nodes) done x v (ready-node f k x taken)
          (count-absent done x (ready-new f k x taken))

  pub released : Released deg rest (targets g.edges x) (release (targets g.edges x) deg rest)
  released =
      release-Released (targets g.edges x) deg rest (subst Sorted (sym k.same) f.sorted)
        (λ v. omega (arith, lowered v))

  -- One node is finished, and those that waited for it alone join the queue.
  pub step-Kahn : Kahn g released.degrees (level ++ released.queue) (done ++ x ∷ [])
  step-Kahn = record {
    same = released.same ∙ k.same;
    exact = λ v. omega (arith, released.lowers v, lowered v);
    once = λ v.
        let node : 0 < count (targets g.edges x) v → count (keys g.nodes) v ≡ 1 =
          λ h. omega (arith, f.known x v h, Sorted-once (keys g.nodes) v f.sorted) in
        ground (
          arith,
          k.once v,
          released.lowers v,
          released.news v,
          lowered v,
          node,
          count-push done x v,
          count-cons x (level ++ rest) v,
          count-append level rest v,
          count-append level released.queue v,
        );
  }
