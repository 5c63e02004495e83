-- ===== src/Task/Release.antt =====
-- A finished node hands its edges back: the loop over its targets.
use corekit.Base.{
  ℕ, ◌+◌, ◌-◌, ◌≤◌, ◌<◌, ◌≡◌, inl, inr, refl, sym, ap, ◌∙◌, subst, Option, none, some, List, [],
  ◌∷◌, ◌++◌, ◌==◌, if◌then◌else◌, Bool-cases, arith,
}
use corekit.Base.Count.{hit, count, count-nil, count-cons, count-push, hit-cases, hit_self}
use corekit.Task.Table.{keys, assign}
use corekit.Task.Sorted.{Sorted, find-no_key, keys-assign_old}
use corekit.Task.Validate.{Degrees, release}
use corekit.Task.Degree.{number, degree, degree-key, degree-assign}

-- A node gets ready when its last edge goes.
abbrev pub newly : ℕ → ℕ → ℕ
newly d c = if c == 0 then 0 else if d == c then 1 else 0

degree_pos-key : (deg : Degrees) (v : ℕ) → 0 < degree deg v → 0 < count (keys deg) v
degree_pos-key deg v h = elim (Bool-cases (count (keys deg) v == 0)) [
  | inr there ↦ ground arith
  | inl gone ↦
      let no_entry : degree deg v ≡ 0 = ap number (find-no_key deg v (ground arith)) in
      absurd (omega arith)
]

pub record Released (deg : Degrees) (ready : List ℕ) (ds : List ℕ) (out : Option (Degrees × List ℕ))
    : Type 0 where
  pub degrees : Degrees
  pub queue : List ℕ
  pub gives : out ≡ some (degrees, queue)
  pub same : keys degrees ≡ keys deg
  pub lowers : (v : ℕ) → degree degrees v ≡ degree deg v - count ds v
  pub news : (v : ℕ) → count queue v ≡ count ready v + newly (degree deg v) (count ds v)

after_one : List ℕ → ℕ → ℕ → List ℕ
after_one ready d n = if n - 1 == 0 then ready ++ d ∷ [] else ready

after_one-count :
    (ready : List ℕ) (d n v : ℕ)
    → count (after_one ready d n) v ≡ count ready v + (if n - 1 == 0 then hit d v else 0)
unfolding after_one
after_one-count ready d n v = ground (arith, count-push ready d v)

-- The two sides of `news` at the node itself.
newly_self :
    (n c : ℕ) → 0 < c → c ≤ n → (if n - 1 == 0 then 1 else 0) + newly (n - 1) (c - 1) ≡ newly n c
newly_self n c h k = ground arith

pub release-Released :
    (ds : List ℕ) (deg : Degrees) (ready : List ℕ)
    → Sorted (keys deg)
    → ((v : ℕ) → count ds v ≤ degree deg v)
    → Released deg ready ds (release ds deg ready)
unfolding release after_one
release-Released [] deg ready s enough = record {
  degrees = deg;
  queue = ready;
  gives = refl;
  same = refl;
  lowers = λ v. omega (arith, count-nil v);
  news = λ v. ground (arith, count-nil v);
}
release-Released (d ∷ ds) deg ready s enough =
    let n = degree deg d in
    let pos : 0 < n = omega (arith, enough d, count-cons d ds d, hit_self d) in
    let here = degree_pos-key deg d pos in
    let found = degree-key deg d here in
    let deg' = assign deg d (n - 1) in
    let kept : keys deg' ≡ keys deg = keys-assign_old deg d (n - 1) s here in
    let entry = λ (v : ℕ). degree-assign deg d (n - 1) v in
    let rest = release-Released ds deg' (after_one ready d n) (subst Sorted (sym kept) s) (λ v.
      elim (hit-cases d v) [
        | inl at ↦ ground (arith, entry v, enough v, count-cons d ds v, at.1, ap (degree deg) at.0)
        | inr away ↦ ground (arith, entry v, enough v, count-cons d ds v, away)
      ]) in
    record {
      degrees = rest.degrees;
      queue = rest.queue;
      gives =
          (λ i. elim (found i) [
            | none ↦ none
            | some m ↦ release ds (assign deg d (m - 1)) (after_one ready d m)
          ])
          ∙ rest.gives;
      same = rest.same ∙ kept;
      lowers = λ v. elim (hit-cases d v) [
        | inl at ↦
            ground (arith, rest.lowers v, entry v, count-cons d ds v, at.1, ap (degree deg) at.0)
        | inr away ↦ ground (arith, rest.lowers v, entry v, count-cons d ds v, away)
      ];
      news = λ v. elim (hit-cases d v) [
        | inl at ↦
            let here_now : degree deg' v ≡ n - 1 = ground (arith, entry v, at.0) in
            let was : degree deg v ≡ n = ap (degree deg) (sym at.0) in
            let many : count (d ∷ ds) v ≡ count ds v + 1 = omega (arith, count-cons d ds v, at.1) in
            ground (
              arith,
              rest.news v,
              after_one-count ready d n v,
              newly_self n (count ds v + 1),
              enough v,
              at.1,
            )
        | inr away ↦
            ground
              (arith, rest.news v, after_one-count ready d n v, entry v, count-cons d ds v, away)
      ];
    }
