-- ===== src/Memory/Count.antt =====
-- How often an object stands in a list of objects.
use corekit.Base.{
  ℕ, ◌+◌, ◌-◌, ◌<◌, ◌≡◌, ◌⊎◌, inl, inr, refl, ap, true, false, none, some, [], ◌∷◌, ◌++◌, length,
  ◌==◌, Bool-cases, arith,
}
use corekit.Base.Count.{hit, count, hit-cases, count-absent}
use corekit.Memory.ObjectPool.{Objects, remove, insert, split_back}

pub count-remove : (xs : Objects) (q p : ℕ) → count (remove xs q) p ≡ count xs p - hit q p
unfolding count remove
count-remove [] q p = omega arith
count-remove (x ∷ xs) q p = elim (Bool-cases (x == q)) [
  | inl same ↦
      let equal : x ≡ q = ground arith in simp (same) (omega (arith, ap (λ y. hit y p) equal))
  | inr other ↦
      let rest = count-remove xs q p in
      elim (hit-cases q p) [
        | inl at ↦
            let far : hit x p ≡ 0 = ground (arith, at.0) in
            simp (other) (omega (arith, rest, at.1, far))
        | inr away ↦ simp (other) (omega (arith, rest, away))
      ]
]

pub insert-new : (xs : Objects) (p : ℕ) → count xs p ≡ 0 → insert xs p ≡ xs ++ p ∷ []
unfolding insert
insert-new xs p e = simp (count-absent xs p e) refl

pub remove-absent : (xs : Objects) (p : ℕ) → count xs p ≡ 0 → remove xs p ≡ xs
unfolding count remove
remove-absent [] p e = refl
remove-absent (x ∷ xs) p e =
    let other : (x == p) ≡ false = ground arith in
    let rest = remove-absent xs p (omega arith) in simp (other) (ap (◌∷◌ x) rest)

pub remove-push : (xs : Objects) (p : ℕ) → count xs p ≡ 0 → remove (xs ++ p ∷ []) p ≡ xs
unfolding count remove
remove-push [] p e = let same : (p == p) ≡ true = ground arith in simp (same) refl
remove-push (x ∷ xs) p e =
    let other : (x == p) ≡ false = ground arith in
    let rest = remove-push xs p (omega arith) in simp (other) (ap (◌∷◌ x) rest)

pub remove-head : (x : ℕ) (xs : Objects) → remove (x ∷ xs) x ≡ xs
unfolding remove
remove-head x xs = let same : (x == x) ≡ true = ground arith in simp (same) refl

pub length-remove : (xs : Objects) (p : ℕ) → 0 < count xs p → length (remove xs p) + 1 ≡ length xs
unfolding count remove
length-remove [] p h = absurd (omega arith)
length-remove (x ∷ xs) p h = elim (Bool-cases (x == p)) [
  | inl same ↦ simp (same) (omega arith)
  | inr other ↦
      let far : hit x p ≡ 0 = ground arith in
      let rest = length-remove xs p (omega arith) in simp (other) (omega (arith, rest))
]

-- A list is empty or has a last element.
pub split_back-cases :
    (xs : Objects)
    → ((xs ≡ []) × (split_back xs ≡ none))
      ⊎ ((ys : Objects) × (y : ℕ) × (xs ≡ ys ++ y ∷ []) × (split_back xs ≡ some (ys, y)))
unfolding split_back
split_back-cases [] = inl (refl, refl)
split_back-cases (x ∷ xs) = elim (split_back-cases xs) [
  | inl e ↦ inr ([], x, ap (◌∷◌ x) e.0, simp (e.1) refl)
  | inr (ys, y, e, e') ↦ inr (x ∷ ys, y, ap (◌∷◌ x) e, simp (e') refl)
]
