-- ===== src/Base/Count.antt =====
-- How often a number stands in a list of numbers.
use corekit.Base.{
  ℕ, ◌+◌, ◌<◌, ◌≡◌, ◌⊎◌, inl, inr, refl, sym, ◌∙◌, Bool, true, false, List, [], ◌∷◌, ◌++◌, ◌==◌,
  if◌then◌else◌, Bool-cases, arith,
}

-- Whether a list holds a number.
unfoldable pub mem : List ℕ → ℕ → Bool
mem [] p = false
mem (x ∷ xs) p = let rest = mem xs p in if x == p then true else rest

abbrev pub hit : ℕ → ℕ → ℕ
hit q p = if q == p then 1 else 0

unfoldable pub count : List ℕ → ℕ → ℕ
count [] p = 0
count (x ∷ xs) p = hit x p + count xs p

pub hit-cases : (q p : ℕ) → ((q ≡ p) × (hit q p ≡ 1)) ⊎ (hit q p ≡ 0)
hit-cases q p = elim (Bool-cases (q == p)) [
  | inl same ↦ inl (ground arith, ground arith)
  | inr other ↦ inr (ground arith)
]

pub hit_self : (q : ℕ) → hit q q ≡ 1
hit_self q = ground arith

pub count-push : (xs : List ℕ) (q p : ℕ) → count (xs ++ q ∷ []) p ≡ count xs p + hit q p
unfolding count
count-push [] q p = omega arith
count-push (x ∷ xs) q p = omega (arith, count-push xs q p)

-- Membership is a count above 0.
pub mem-count : (xs : List ℕ) (p : ℕ) → mem xs p ≡ true → 0 < count xs p
unfolding count mem
mem-count [] p e = absurd (cc)
mem-count (x ∷ xs) p e = elim (Bool-cases (x == p)) [
  | inl same ↦ let one : hit x p ≡ 1 = ground arith in omega arith
  | inr other ↦
      let later : (if x == p then true else mem xs p) ≡ mem xs p = simp (other) refl in
      omega (arith, mem-count xs p (sym later ∙ e))
]

pub absent-count : (xs : List ℕ) (p : ℕ) → mem xs p ≡ false → count xs p ≡ 0
unfolding count mem
absent-count [] p e = refl
absent-count (x ∷ xs) p e = elim (Bool-cases (x == p)) [
  | inl same ↦
      absurd (let found : (if x == p then true else mem xs p) ≡ true = simp (same) refl in cc)
  | inr other ↦
      let later : (if x == p then true else mem xs p) ≡ mem xs p = simp (other) refl in
      let far : hit x p ≡ 0 = ground arith in omega (arith, far, absent-count xs p (sym later ∙ e))
]

pub count-absent : (xs : List ℕ) (p : ℕ) → count xs p ≡ 0 → mem xs p ≡ false
count-absent xs p e = elim (Bool-cases (mem xs p)) [
  | inl there ↦ absurd (omega (arith, mem-count xs p there))
  | inr gone ↦ gone
]

pub count-append : (xs ys : List ℕ) (p : ℕ) → count (xs ++ ys) p ≡ count xs p + count ys p
unfolding count
count-append [] ys p = omega arith
count-append (x ∷ xs) ys p = omega (arith, count-append xs ys p)

pub count-cons : (x : ℕ) (xs : List ℕ) (p : ℕ) → count (x ∷ xs) p ≡ hit x p + count xs p
unfolding count
count-cons x xs p = refl

pub count-nil : (p : ℕ) → count [] p ≡ 0
unfolding count
count-nil p = refl

-- The other direction of `mem-count`.
pub count-mem : (xs : List ℕ) (p : ℕ) → 0 < count xs p → mem xs p ≡ true
count-mem xs p h = elim (Bool-cases (mem xs p)) [
  | inl there ↦ there
  | inr gone ↦ absurd (omega (arith, absent-count xs p gone))
]
