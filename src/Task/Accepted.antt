-- ===== src/Task/Accepted.antt =====
-- `Validate` finds out whether the tasks can be put in an order.
use corekit.Base.{
  ℕ, suc, ◌+◌, ◌<◌, ◌≡◌, ◌↔◌, ◌⊎◌, inl, inr, refl, sym, ap, ◌∙◌, subst, true, false, none, some,
  List, [], ◌∷◌, ◌++◌, length, ◌==◌, Bool-cases, arith,
}
use corekit.Base.Count.{
  count, count-nil, count-cons, count-push, hit-cases, hit_self, mem-count, count-mem,
}
use corekit.Api.Status.{status_ok}
use corekit.Task.Table.{keys}
use corekit.Task.Sorted.{Sorted-once}
use corekit.Task.Graph.{SimpleTaskGraph, targets}
use corekit.Task.Formed.{IsFormed}
use corekit.Task.Validate.{
  Degrees, ready_nodes, Drained, drained, drain, verdict, validate, missing_node, has_cycle,
}
use corekit.Task.Degree.{waiting}
use corekit.Task.Built.{Built, build_indegree-Built, waiting_pos}
use corekit.Task.Kahn.{Kahn, waiting_zero, start-Kahn}
use corekit.Task.Topological.{
  OrderedFrom, IsTopological, left, one_each, left-none, waiting-all, Finished, drain-Finished,
}

pub length-keys {ℓ} : {A : Type ℓ} (m : List (ℕ × A)) → length (keys m) ≡ length m
length-keys [] = refl
length-keys ((k, a) ∷ m) = ap suc (length-keys m)

-- All nodes are finished, or some wait.
all_finished :
    {g : SimpleTaskGraph} {deg : Degrees} {order : List ℕ}
    → Kahn g deg [] order
    → left (keys g.nodes) order ≡ 0
    → (v : ℕ) → count order v ≡ count (keys g.nodes) v
all_finished {g} {order = order} k e v = elim (Bool-cases (count (keys g.nodes) v == 0)) [
  | inl gone ↦ ground (arith, k.once v, count-nil v)
  | inr there ↦
      let in_order = mem-count order v (
        waiting_zero (λ _. 0 ∷ []) (keys g.nodes) order v 0 e (ground arith)
          (omega (arith, one_each))) in
      ground (arith, k.once v, count-nil v)
]

-- A node of an order is finished when nothing is ready: what it waits for is.
pub OrderedFrom-finished :
    {g : SimpleTaskGraph} {deg : Degrees} {done : List ℕ} (seen vs : List ℕ)
    → Kahn g deg [] done
    → OrderedFrom (targets g.edges) seen vs
    → ((v : ℕ) → 0 < count seen v → 0 < count done v)
    → ((v : ℕ) → 0 < count vs v → 0 < count (keys g.nodes) v)
    → (v : ℕ) → 0 < count vs v
    → 0 < count done v
OrderedFrom-finished seen [] k o old nodes v h = absurd (omega (arith, count-nil v))
OrderedFrom-finished {g} {deg} {done} seen (x ∷ vs) k o old nodes v h =
    let free : waiting (targets g.edges) (keys g.nodes) done x ≡ 0 =
      elim (Bool-cases (waiting (targets g.edges) (keys g.nodes) done x == 0)) [
        | inl e ↦ ground arith
        | inr e ↦
            let edge = waiting_pos (targets g.edges) (keys g.nodes) done x (ground arith) in
            let finished = old edge.0 (o.0 edge.0 edge.3) in
            let found = count-mem done edge.0 finished in absurd (let test = edge.2 in cc)
      ] in
    let first : 0 < count done x = ground (
      arith,
      k.once x,
      k.exact x,
      count-nil x,
      nodes x (omega (arith, count-cons x vs x, hit_self x)),
    ) in
    elim (hit-cases x v) [
      | inl at ↦ subst (λ w. 0 < count done w) at.0 first
      | inr away ↦
          OrderedFrom-finished (seen ++ x ∷ []) vs k o.1
            (λ w hw. elim (hit-cases x w) [
              | inl at ↦ subst (λ z. 0 < count done z) at.0 first
              | inr far ↦ old w (omega (arith, count-push seen x w, far))
            ])
            (λ w hw. nodes w (omega (arith, count-cons x vs w))) v
            (omega (arith, count-cons x vs v, away))
    ]

pub has_cycle-ne_ok : some has_cycle ≡ some status_ok → ⊥
has_cycle-ne_ok e = cc

-- The loop of `Validate`, from the start.
abbrev pub loop_end : {g : SimpleTaskGraph} → Built g → Drained
loop_end {g} b = drain (length g.nodes) g.edges b.degrees (ready_nodes b.degrees) 0

module _ {g : SimpleTaskGraph} (f : IsFormed g) where
  finished : (b : Built g) → Finished g (loop_end b)
  finished b =
      let all : left (keys g.nodes) [] ≡ length g.nodes =
        left-none (keys g.nodes) ∙ length-keys g.nodes in
      drain-Finished f (length g.nodes) b.degrees (ready_nodes b.degrees) [] (start-Kahn f b) tt
        (omega (arith, all, length-keys g.nodes)) (omega (arith, all))

  pub the_end : Finished g (loop_end (build_indegree-Built f))
  the_end = finished (build_indegree-Built f)

  validate-verdict : validate g ≡ verdict (length g.nodes) (drained (length the_end.order))
  unfolding validate
  validate-verdict =
      (λ i. elim ((build_indegree-Built f).gives i) [
        | none ↦ some missing_node
        | some deg ↦
            verdict (length g.nodes) (drain (length g.nodes) g.edges deg (ready_nodes deg) 0)
      ])
      ∙ ap (verdict (length g.nodes)) the_end.gives

  order_total : length the_end.order + left (keys g.nodes) the_end.order ≡ length g.nodes
  order_total = the_end.total ∙ length-keys g.nodes

  accepts : ((v : ℕ) → count the_end.order v ≡ count (keys g.nodes) v) → validate g ≡ some status_ok
  unfolding verdict
  accepts all =
      let none_left : left (keys g.nodes) the_end.order ≡ 0 =
        waiting-all (λ _. 0 ∷ []) (keys g.nodes) the_end.order 0 (λ u h. omega (arith, all u)) in
      let same : (length the_end.order == length g.nodes) ≡ true = ground (arith, order_total) in
      validate-verdict ∙ (simp (same) refl)

  refuses : 0 < left (keys g.nodes) the_end.order → validate g ≡ some has_cycle
  unfolding verdict
  refuses some_left =
      let differ : (length the_end.order == length g.nodes) ≡ false = ground (arith, order_total) in
      validate-verdict ∙ (simp (differ) refl)

  -- `Validate` ends, and accepts a graph or says that it has a cycle.
  pub validate_answers :
      IsTopological g the_end.order × (validate g ≡ some status_ok) ⊎ (validate g ≡ some has_cycle)
  validate_answers = elim (Bool-cases (left (keys g.nodes) the_end.order == 0)) [
    | inl e ↦
        let all = all_finished the_end.kahn (ground arith) in
        inl ((all, the_end.ordered), accepts all)
    | inr e ↦ inr (refuses (ground arith))
  ]

  -- `Validate` accepts a graph exactly if its tasks can be put in an order in which each stands
  -- once, behind all that it waits for, and otherwise says that the graph has a cycle.
  pub validate-IsTopological :
      ((validate g ≡ some status_ok) ↔ ((order : List ℕ) × IsTopological g order))
      × ((validate g ≡ some status_ok) ⊎ (validate g ≡ some has_cycle))
  validate-IsTopological = (
    (
      λ ok. elim validate_answers [
        | inl sorted ↦ (the_end.order, sorted.0)
        | inr cycle ↦ absurd (has_cycle-ne_ok (sym cycle ∙ ok))
      ],
      λ (order, (all, ordered)).
          let reached =
            OrderedFrom-finished [] order the_end.kahn ordered
              (λ v h. absurd (omega (arith, count-nil v))) (λ v h. omega (arith, all v)) in
          accepts (λ v. ground (
            arith,
            reached v,
            all v,
            the_end.kahn.once v,
            count-nil v,
            Sorted-once (keys g.nodes) v f.sorted,
          )),
    ),
    elim validate_answers [ inl sorted ↦ inl sorted.1 | inr cycle ↦ inr cycle ],
  )

-- A walk along edges, with at least one.
pub data Walk (g : SimpleTaskGraph) (u : ℕ) : ℕ → Type 0 where
  edge : {v : ℕ} → 0 < count (targets g.edges u) v → Walk g u v
  further : {v w : ℕ} → Walk g u v → 0 < count (targets g.edges v) w → Walk g u w

edge-Walk :
    {g : SimpleTaskGraph} {u v w : ℕ} → 0 < count (targets g.edges u) v → Walk g v w → Walk g u w
edge-Walk first (edge e) = further (edge first) e
edge-Walk first (further p e) = further (edge-Walk first p) e

-- The node before the end of a cycle lies on a cycle too.
before_end :
    {g : SimpleTaskGraph} {v w : ℕ}
    → Walk g v w
    → v ≡ w
    → (u : ℕ) × (0 < count (targets g.edges u) w) × Walk g u u
before_end {g} {v} {w} (edge e) same =
    (v, e, edge (subst (λ z. 0 < count (targets g.edges v) z) (sym same) e))
before_end {g} {v} (further {v = u} {w = w} p e) same =
    (u, e, edge-Walk (subst (λ z. 0 < count (targets g.edges u) z) (sym same) e) p)

no_cycle :
    {g : SimpleTaskGraph} (seen vs : List ℕ)
    → OrderedFrom (targets g.edges) seen vs
    → ((v : ℕ) → 0 < count seen v → Walk g v v → ⊥)
    → (v : ℕ) → 0 < count vs v
    → Walk g v v
    → ⊥
no_cycle seen [] o old v h walk = absurd (omega (arith, count-nil v))
no_cycle {g} seen (x ∷ vs) o old v h walk =
    let first : Walk g x x → ⊥ =
      λ p. let back = before_end p refl in old back.0 (o.0 back.0 back.1) back.2 in
    elim (hit-cases x v) [
      | inl at ↦ first (subst (λ z. Walk g z z) (sym at.0) walk)
      | inr away ↦
          no_cycle (seen ++ x ∷ []) vs o.1
            (λ w hw p. elim (hit-cases x w) [
              | inl at ↦ first (subst (λ z. Walk g z z) (sym at.0) p)
              | inr far ↦ old w (omega (arith, count-push seen x w, far)) p
            ])
            v (omega (arith, count-cons x vs v, away)) walk
    ]

Walk-node : {g : SimpleTaskGraph} {u v : ℕ} → IsFormed g → Walk g u v → 0 < count (keys g.nodes) v
Walk-node {u = u} {v = v} f (edge e) = f.known u v e
Walk-node {v = w} f (further {v = u} p e) = f.known u w e

-- On a graph in which a walk leads from a node back to it `Validate` says that there is a cycle.
pub validate-cycle :
    {g : SimpleTaskGraph} {v : ℕ} → IsFormed g → Walk g v v → validate g ≡ some has_cycle
validate-cycle {g} {v} f walk = elim (validate_answers f) [
  | inr cycle ↦ cycle
  | inl (sorted, ok) ↦ absurd (
      no_cycle [] (the_end f).order sorted.1 (λ w h. absurd (omega (arith, count-nil w))) v
        (omega (arith, sorted.0 v, Walk-node f walk)) walk)
]
