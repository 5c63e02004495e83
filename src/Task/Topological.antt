-- ===== src/Task/Topological.antt =====
-- An order of the tasks, and the loop of `Validate`, which finds the beginning of one.
use corekit.Base.{
  ℕ, zero, suc, ◌+◌, ◌≤◌, ◌<◌, ◌≡◌, refl, sym, ap, ◌∙◌, subst, true, none, some, List, [], ◌∷◌,
  ◌++◌, length, length-append, append-nil, append_assoc, arith,
}
use corekit.Base.Count.{count, count-cons, hit_self, mem, count-mem, count-absent}
use corekit.Task.Table.{keys}
use corekit.Task.Graph.{SimpleTaskGraph, targets}
use corekit.Task.Formed.{IsFormed}
use corekit.Task.Validate.{Degrees, Drained, missing, drained, drain}
use corekit.Task.Degree.{waiting}
use corekit.Task.Kahn.{Kahn, waiting-done, ready-node, ready-new, ready-backed, released, step-Kahn}

-- Each node of the list stands behind all that it waits for: in `seen`, or before it in the list.
abbrev pub OrderedFrom : (ℕ → List ℕ) → List ℕ → List ℕ → Type 0
OrderedFrom out seen [] = Unit
OrderedFrom out seen (v ∷ vs) =
    ((u : ℕ) → 0 < count (out u) v → 0 < count seen u) × OrderedFrom out (seen ++ v ∷ []) vs

-- An order of all nodes in which each stands once, behind all that it waits for.
abbrev pub IsTopological : SimpleTaskGraph → List ℕ → Type 0
IsTopological g order =
    ((v : ℕ) → count order v ≡ count (keys g.nodes) v) × OrderedFrom (targets g.edges) [] order

-- The nodes that are not done.
abbrev pub left : List ℕ → List ℕ → ℕ
left us done = waiting (λ _. 0 ∷ []) us done 0

pub one_each : count (0 ∷ []) 0 ≡ 1
unfolding count
one_each = refl

pub left-done :
    (us done : List ℕ) (x : ℕ)
    → count us x ≡ 1
    → count done x ≡ 0
    → left us done ≡ left us (done ++ x ∷ []) + 1
left-done us done x e fresh =
    omega (arith, waiting-done (λ _. 0 ∷ []) us done x 0 e (count-absent done x fresh), one_each)

pub left-none : (us : List ℕ) → left us [] ≡ length us
unfolding waiting mem
left-none [] = refl
left-none (u ∷ us) = omega (arith, left-none us, one_each)

pub waiting-all :
    (out : ℕ → List ℕ) (us done : List ℕ) (v : ℕ)
    → ((u : ℕ) → 0 < count us u → 0 < count done u)
    → waiting out us done v ≡ 0
unfolding waiting count
waiting-all out [] done v all = refl
waiting-all out (u ∷ us) done v all =
    let there : mem done u ≡ true = count-mem done u (all u (omega (arith, hit_self u))) in
    let rest = waiting-all out us done v (λ w h. all w (omega arith)) in ground arith

pub OrderedFrom-push :
    (out : ℕ → List ℕ) (seen vs : List ℕ) (x : ℕ)
    → OrderedFrom out seen vs
    → ((u : ℕ) → 0 < count (out u) x → 0 < count (seen ++ vs) u)
    → OrderedFrom out seen (vs ++ x ∷ [])
OrderedFrom-push out seen [] x o backed =
    (λ u h. subst (λ s. 0 < count s u) (append-nil seen) (backed u h), tt)
OrderedFrom-push out seen (v ∷ vs) x o backed = (
  o.0,
  OrderedFrom-push out (seen ++ v ∷ []) vs x o.1
      (λ u h. subst (λ s. 0 < count s u) (sym (append_assoc seen (v ∷ []) vs)) (backed u h)),
)

-- How the loop ends: with the nodes that could be finished, in order.
pub record Finished (g : SimpleTaskGraph) (out : Drained) : Type 0 where
  pub order : List ℕ
  pub degrees : Degrees
  pub gives : out ≡ drained (length order)
  pub kahn : Kahn g degrees [] order
  pub ordered : OrderedFrom (targets g.edges) [] order
  pub total : length order + left (keys g.nodes) order ≡ length (keys g.nodes)

module _ {g : SimpleTaskGraph} (f : IsFormed g) where
  pub drain-Finished :
      (fuel : ℕ) (deg : Degrees) (ready done : List ℕ)
      → Kahn g deg ready done
      → OrderedFrom (targets g.edges) [] done
      → length done + left (keys g.nodes) done ≡ length (keys g.nodes)
      → left (keys g.nodes) done ≤ fuel
      → Finished g (drain fuel g.edges deg ready (length done))
  unfolding drain
  drain-Finished fuel deg [] done k o total enough = record {
    order = done;
    degrees = deg;
    gives = refl;
    kahn = k;
    ordered = o;
    total = total;
  }
  drain-Finished zero deg (x ∷ rest) done k o total enough =
      let here : 0 < count (x ∷ rest) x = omega (arith, count-cons x rest x, hit_self x) in
      absurd (
        omega
          (arith, left-done (keys g.nodes) done x (ready-node f k x here) (ready-new f k x here)))
  drain-Finished (suc fuel) deg (x ∷ rest) done k o total enough =
      let here : 0 < count (x ∷ rest) x = omega (arith, count-cons x rest x, hit_self x) in
      let fewer = left-done (keys g.nodes) done x (ready-node f k x here) (ready-new f k x here) in
      let one = released f [] rest k in
      let longer = length-append done (x ∷ []) in
      let more =
        drain-Finished fuel one.degrees one.queue (done ++ x ∷ []) (step-Kahn f [] rest k)
          (OrderedFrom-push (targets g.edges) [] done x o (λ u h. ready-backed f k u x here h))
          (omega (arith, fewer, longer)) (omega (arith, fewer)) in
      record {
        order = more.order;
        degrees = more.degrees;
        gives =
            (λ i. elim (one.gives i) [
              | none ↦ missing
              | some (deg', ready') ↦ drain fuel g.edges deg' ready' (suc (length done))
            ])
            ∙ ap (drain fuel g.edges one.degrees one.queue) (
                let size : suc (length done) ≡ length (done ++ x ∷ []) = omega (arith, longer) in
                size)
            ∙ more.gives;
        kahn = more.kahn;
        ordered = more.ordered;
        total = more.total;
      }
