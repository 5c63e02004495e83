-- ===== src/Task/Degree.antt =====
-- `BuildIndegree` counts the edges that lead to a node.
use corekit.Base.{
  ℕ, ◌+◌, ◌<◌, ◌≡◌, ◌≢◌, inl, inr, refl, sym, ap, ◌∙◌, subst, Bool, true, false, Option, none, some,
  List, [], ◌∷◌, ◌++◌, append-nil, append_assoc, ◌==◌, if◌then◌else◌, arith,
}
use corekit.Base.Count.{count, count-append, count-nil, count-cons, hit-cases, hit_self, mem}
use corekit.Task.Table.{keys, find, assign}
use corekit.Task.Sorted.{Sorted, find-assign, find-key, keys-assign_new, keys-assign_old}
use corekit.Task.Graph.{TaskNode, targets}
use corekit.Task.Validate.{Degrees, zeros, count_targets, count_edges}

abbrev pub number : Option ℕ → ℕ
number none = 0
number (some n) = n

-- The entry of a node, 0 if there is none.
abbrev pub degree : Degrees → ℕ → ℕ
degree deg v = number (find deg v)

-- The edges to `v` from those of the nodes `us` that are not `done`.
unfoldable pub waiting : (ℕ → List ℕ) → List ℕ → List ℕ → ℕ → ℕ
waiting out [] done v = 0
waiting out (u ∷ us) done v = (if mem done u then 0 else count (out u) v) + waiting out us done v

pub degree-assign :
    (deg : Degrees) (k n v : ℕ) → degree (assign deg k n) v ≡ (if k == v then n else degree deg v)
degree-assign deg k n v = ap number (find-assign deg k n v) ∙ by_test (k == v)
  where
    by_test :
        (b : Bool)
        → number (if b then some n else find deg v) ≡ (if b then n else number (find deg v))
    by_test true = refl
    by_test false = refl

-- A table holds its entry.
pub degree-key : (deg : Degrees) (v : ℕ) → 0 < count (keys deg) v → find deg v ≡ some (degree deg v)
degree-key deg v h = let found = find-key deg v h in found.1 ∙ ap some (sym (ap number found.1))

Sorted-above :
    (xs : List ℕ) (k : ℕ) (ys : List ℕ) → Sorted (xs ++ k ∷ ys) → (y : ℕ) → 0 < count xs y → y < k
unfolding count
Sorted-above [] k ys s y h = absurd (omega arith)
Sorted-above (x ∷ xs) k ys s y h = elim (hit-cases x y) [
  | inl at ↦ omega (arith, at.0, s.0 k (omega (arith, count-append xs (k ∷ ys) k, hit_self k)))
  | inr away ↦ Sorted-above xs k ys s.1 y (omega arith)
]

pub zeros-keys :
    (nodes : List (ℕ × TaskNode)) (deg : Degrees)
    → Sorted (keys deg ++ keys nodes)
    → keys (zeros nodes deg) ≡ keys deg ++ keys nodes
unfolding zeros
zeros-keys [] deg s = sym (append-nil (keys deg))
zeros-keys ((id, node) ∷ nodes) deg s =
    let pushed : keys (assign deg id 0) ≡ keys deg ++ id ∷ [] =
      keys-assign_new deg id 0 (Sorted-above (keys deg) id (keys nodes) s) in
    let together : keys (assign deg id 0) ++ keys nodes ≡ keys deg ++ id ∷ keys nodes =
      ap (λ k. k ++ keys nodes) pushed ∙ append_assoc (keys deg) (id ∷ []) (keys nodes) in
    zeros-keys nodes (assign deg id 0) (subst Sorted (sym together) s) ∙ together

pub zeros-degree :
    (nodes : List (ℕ × TaskNode)) (deg : Degrees)
    → ((v : ℕ) → degree deg v ≡ 0)
    → (v : ℕ) → degree (zeros nodes deg) v ≡ 0
unfolding zeros
zeros-degree [] deg z v = z v
zeros-degree ((id, node) ∷ nodes) deg z v =
    zeros-degree nodes (assign deg id 0) (λ w. ground (arith, degree-assign deg id 0 w, z w)) v

-- What a count gives: the same keys, and this much more.
pub record Counted (deg : Degrees) (more : ℕ → ℕ) (out : Option Degrees) : Type 0 where
  pub counts : Degrees
  pub gives : out ≡ some counts
  pub same : keys counts ≡ keys deg
  pub adds : (v : ℕ) → degree counts v ≡ degree deg v + more v

count_targets-Counted :
    (ds : List ℕ) (deg : Degrees)
    → Sorted (keys deg)
    → ((v : ℕ) → 0 < count ds v → 0 < count (keys deg) v)
    → Counted deg (count ds) (count_targets ds deg)
unfolding count_targets
count_targets-Counted [] deg s known = record {
  counts = deg;
  gives = refl;
  same = refl;
  adds = λ v. omega (arith, count-nil v);
}
count_targets-Counted (d ∷ ds) deg s known =
    let here = known d (omega (arith, count-cons d ds d, hit_self d)) in
    let found = degree-key deg d here in
    let deg' = assign deg d (degree deg d + 1) in
    let kept : keys deg' ≡ keys deg = keys-assign_old deg d (degree deg d + 1) s here in
    let rest =
      count_targets-Counted ds deg' (subst Sorted (sym kept) s) (λ v h.
        subst (λ k. 0 < count k v) (sym kept) (known v (omega (arith, count-cons d ds v)))) in
    record {
      counts = rest.counts;
      gives =
          (λ i. elim (found i) [ none ↦ none | some n ↦ count_targets ds (assign deg d (n + 1)) ])
          ∙ rest.gives;
      same = rest.same ∙ kept;
      adds = λ v. elim (hit-cases d v) [
        | inl at ↦ ground (
          arith,
          rest.adds v,
          degree-assign deg d (degree deg d + 1) v,
          count-cons d ds v,
          at.1,
          ap (degree deg) at.0,
        )
        | inr away ↦
            ground (
              arith,
              rest.adds v,
              degree-assign deg d (degree deg d + 1) v,
              count-cons d ds v,
              away,
            )
      ];
    }

-- The edges to `v` in a table of edges.
pub sum_targets : List (ℕ × List ℕ) → ℕ → ℕ
sum_targets [] v = 0
sum_targets ((u, ds) ∷ es) v = count ds v + sum_targets es v

pub count_edges-Counted :
    (es : List (ℕ × List ℕ)) (deg : Degrees)
    → Sorted (keys deg)
    → ((v : ℕ) → 0 < sum_targets es v → 0 < count (keys deg) v)
    → Counted deg (sum_targets es) (count_edges es deg)
unfolding count_edges sum_targets
count_edges-Counted [] deg s known = record {
  counts = deg;
  gives = refl;
  same = refl;
  adds = λ v. omega arith;
}
count_edges-Counted ((u, ds) ∷ es) deg s known =
    let one = count_targets-Counted ds deg s (λ v h. known v (omega arith)) in
    let rest =
      count_edges-Counted es one.counts (subst Sorted (sym one.same) s)
        (λ v h. subst (λ k. 0 < count k v) (sym one.same) (known v (omega arith))) in
    record {
      counts = rest.counts;
      gives =
          (λ i. elim (one.gives i) [ none ↦ none | some deg' ↦ count_edges es deg' ]) ∙ rest.gives;
      same = rest.same ∙ one.same;
      adds = λ v. omega (arith, rest.adds v, one.adds v);
    }

waiting-ext :
    (out out' : ℕ → List ℕ) (us done : List ℕ) (v : ℕ)
    → ((u : ℕ) → 0 < count us u → out u ≡ out' u)
    → waiting out us done v ≡ waiting out' us done v
unfolding waiting count
waiting-ext out out' [] done v e = refl
waiting-ext out out' (u ∷ us) done v e =
    let here : count (out u) v ≡ count (out' u) v =
      ap (λ s. count s v) (e u (omega (arith, hit_self u))) in
    let rest = waiting-ext out out' us done v (λ w h. e w (omega arith)) in ground arith

targets-head : (u : ℕ) (ds : List ℕ) (es : List (ℕ × List ℕ)) → targets ((u, ds) ∷ es) u ≡ ds
unfolding targets find
targets-head u ds es = let same : (u == u) ≡ true = ground arith in simp (same) refl

targets-tail :
    (u : ℕ) (ds : List ℕ) (es : List (ℕ × List ℕ)) (w : ℕ)
    → u ≢ w
    → targets ((u, ds) ∷ es) w ≡ targets es w
unfolding targets find
targets-tail u ds es w other = let differ : (u == w) ≡ false = ground arith in simp (differ) refl

pub sum_targets-waiting :
    (es : List (ℕ × List ℕ)) (v : ℕ)
    → Sorted (keys es)
    → sum_targets es v ≡ waiting (targets es) (keys es) [] v
unfolding sum_targets waiting mem
sum_targets-waiting [] v s = refl
sum_targets-waiting ((u, ds) ∷ es) v s =
    let others =
      waiting-ext (targets ((u, ds) ∷ es)) (targets es) (keys es) [] v
        (λ w h. targets-tail u ds es w (λ e. absurd (omega (arith, s.0 w h, e)))) in
    omega (arith, sum_targets-waiting es v s.1, others, ap (λ d. count d v) (targets-head u ds es))
