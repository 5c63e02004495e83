-- ===== src/Task/Sorted.antt =====
-- Laws of the tables and sets that stand for `std::map` and `std::set`.
use corekit.Base.{
  ℕ, ◌≤◌, ◌<◌, ◌≡◌, ◌⊎◌, inl, inr, refl, ap, false, none, some, List, [], ◌∷◌, ◌++◌, ltb, ◌==◌,
  if◌then◌else◌, Bool-cases, arith,
}
use corekit.Base.Count.{count, count-push, hit-cases, hit_self}
use corekit.Task.Table.{keys, find, assign, insert}

-- In the order of the numbers, each once.
abbrev pub Sorted : List ℕ → Type 0
Sorted [] = Unit
Sorted (x ∷ xs) = ((y : ℕ) → 0 < count xs y → x < y) × Sorted xs

pub Sorted-once : (xs : List ℕ) (y : ℕ) → Sorted xs → count xs y ≤ 1
unfolding count
Sorted-once [] y s = omega arith
Sorted-once (x ∷ xs) y s = elim (hit-cases x y) [
  | inl at ↦ let none_later : count xs y ≡ 0 = ground (arith, s.0 y, at.0) in omega (arith, at.1)
  | inr away ↦ omega (arith, away, Sorted-once xs y s.1)
]

pub Sorted-push :
    (xs : List ℕ) (k : ℕ) → Sorted xs → ((y : ℕ) → 0 < count xs y → y < k) → Sorted (xs ++ k ∷ [])
unfolding count
Sorted-push [] k s below = (λ y h. absurd (omega arith), tt)
Sorted-push (x ∷ xs) k s below = (
  λ y h. elim (hit-cases k y) [
    | inl at ↦ omega (arith, at.0, below x (omega (arith, hit_self x)))
    | inr away ↦ s.0 y (omega (arith, count-push xs k y, away))
  ],
  Sorted-push xs k s.1 (λ y h. below y (omega arith)),
)

module _ {ℓ} {A : Type ℓ} where
  pub find-assign :
      (m : List (ℕ × A)) (k : ℕ) (a : A) (j : ℕ)
      → find (assign m k a) j ≡ (if k == j then some a else find m j)
  unfolding find assign
  find-assign [] k a j = refl
  find-assign ((i, b) ∷ m) k a j = ground (arith, find-assign m k a j)

  pub find-key : (m : List (ℕ × A)) (k : ℕ) → 0 < count (keys m) k → (a : A) × (find m k ≡ some a)
  unfolding find count
  find-key [] k h = absurd (omega arith)
  find-key ((j, a) ∷ m) k h = elim (Bool-cases (j == k)) [
    | inl at ↦ (a, simp (at) refl)
    | inr away ↦ let later = find-key m k (ground arith) in (later.0, simp (away) later.1)
  ]

  pub find-no_key : (m : List (ℕ × A)) (k : ℕ) → count (keys m) k ≡ 0 → find m k ≡ none
  unfolding find count
  find-no_key [] k h = refl
  find-no_key ((j, a) ∷ m) k h =
      let away : (j == k) ≡ false = ground arith in simp (away) (find-no_key m k (omega arith))

  pub keys-assign_new :
      (m : List (ℕ × A)) (k : ℕ) (a : A)
      → ((y : ℕ) → 0 < count (keys m) y → y < k)
      → keys (assign m k a) ≡ keys m ++ k ∷ []
  unfolding assign count
  keys-assign_new [] k a below = refl
  keys-assign_new ((j, b) ∷ m) k a below =
      let first : j < k = below j (omega (arith, hit_self j)) in
      let other : (j == k) ≡ false = ground arith in
      let later : ltb k j ≡ false = ground arith in
      simp (other, later) (ap (◌∷◌ j) (keys-assign_new m k a (λ y h. below y (omega arith))))

  pub keys-assign_old :
      (m : List (ℕ × A)) (k : ℕ) (a : A)
      → Sorted (keys m)
      → 0 < count (keys m) k
      → keys (assign m k a) ≡ keys m
  unfolding assign count
  keys-assign_old [] k a s h = absurd (omega arith)
  keys-assign_old ((j, b) ∷ m) k a s h = elim (Bool-cases (j == k)) [
    | inl at ↦ let same : k ≡ j = ground arith in simp (at) (ap (λ i. i ∷ keys m) same)
    | inr away ↦
        let inside : 0 < count (keys m) k = ground arith in
        let above : j < k = s.0 k inside in
        let later : ltb k j ≡ false = ground arith in
        simp (away, later) (ap (◌∷◌ j) (keys-assign_old m k a s.1 inside))
  ]

-- An insertion adds its number, and nothing else.
pub count-insert : (s : List ℕ) (k v : ℕ) → 0 < count (insert s k) v → (k ≡ v) ⊎ (0 < count s v)
unfolding insert count
count-insert [] k v h = ground arith
count-insert (j ∷ s) k v h = ground (arith, count-insert s k v)

pub insert_keeps : (s : List ℕ) (k v : ℕ) → count s v ≤ count (insert s k) v
unfolding insert count
insert_keeps [] k v = omega arith
insert_keeps (j ∷ s) k v = ground (arith, insert_keeps s k v)

pub insert_adds : (s : List ℕ) (k : ℕ) → 0 < count (insert s k) k
unfolding insert count
insert_adds [] k = ground arith
insert_adds (j ∷ s) k = ground (arith, insert_adds s k)
