-- ===== src/Pool/Places.antt =====
-- Lists by place: what an update or an erasure at a place keeps.
use corekit.Base.{
  ℕ, zero, suc, ◌+◌, ◌≡◌, refl, ap, subst, none, some, List, [], ◌∷◌, ◌++◌, length, arith, ◌≤◌,
}
use corekit.Pool.Work.{entry_at, set_at, erase_at}

module _ {ℓ} {A : Type ℓ} where
  -- A predicate of every element.
  abbrev pub Each : (A → Type 0) → List A → Type 0
  Each P [] = Unit
  Each P (x ∷ xs) = P x × Each P xs

  pub Each-map : {P Q : A → Type 0} (xs : List A) → ((x : A) → P x → Q x) → Each P xs → Each Q xs
  Each-map [] f all = tt
  Each-map (x ∷ xs) f all = (f x all.0, Each-map xs f all.1)

  pub Each-both :
      (P Q : A → Type 0) (xs : List A) → Each P xs → Each Q xs → Each (λ x. P x × Q x) xs
  Each-both P Q [] all more = tt
  Each-both P Q (x ∷ xs) all more = ((all.0, more.0), Each-both P Q xs all.1 more.1)

  pub Each-push : (P : A → Type 0) (xs : List A) {y : A} → Each P xs → P y → Each P (xs ++ y ∷ [])
  Each-push P [] all one = (one, tt)
  Each-push P (x ∷ xs) all one = (all.0, Each-push P xs all.1 one)

  pub Each-append : (P : A → Type 0) (xs ys : List A) → Each P xs → Each P ys → Each P (xs ++ ys)
  Each-append P [] ys all more = more
  Each-append P (x ∷ xs) ys all more = (all.0, Each-append P xs ys all.1 more)

  none-ne_some : {x : A} → none ≡ some x → ⊥
  none-ne_some e = cc

  some-same : {x y : A} → some x ≡ some y → x ≡ y
  some-same e = cc

  pub entry_at-Each :
      (P : A → Type 0) (xs : List A) (i : ℕ) {x : A} → Each P xs → entry_at xs i ≡ some x → P x
  unfolding entry_at
  entry_at-Each P [] i all e = absurd (none-ne_some e)
  entry_at-Each P (y ∷ ys) zero all e = subst P (some-same e) all.0
  entry_at-Each P (y ∷ ys) (suc i) all e = entry_at-Each P ys i all.1 e

  pub set_at-Each :
      (P : A → Type 0) (xs : List A) (i : ℕ) {y : A} → Each P xs → P y → Each P (set_at xs i y)
  unfolding set_at
  set_at-Each P [] i all one = tt
  set_at-Each P (x ∷ xs) zero all one = (one, all.1)
  set_at-Each P (x ∷ xs) (suc i) all one = (all.0, set_at-Each P xs i all.1 one)

  pub erase_at-Each : (P : A → Type 0) (xs : List A) (i : ℕ) → Each P xs → Each P (erase_at xs i)
  unfolding erase_at
  erase_at-Each P [] i all = tt
  erase_at-Each P (x ∷ xs) zero all = all.1
  erase_at-Each P (x ∷ xs) (suc i) all = (all.0, erase_at-Each P xs i all.1)

  pub length-set_at : (xs : List A) (i : ℕ) (y : A) → length (set_at xs i y) ≡ length xs
  unfolding set_at
  length-set_at [] i y = refl
  length-set_at (x ∷ xs) zero y = refl
  length-set_at (x ∷ xs) (suc i) y = omega (arith, length-set_at xs i y)

  pub length-erase_at :
      (xs : List A) (i : ℕ) {x : A}
      → entry_at xs i ≡ some x
      → length (erase_at xs i) + 1 ≡ length xs
  unfolding entry_at erase_at
  length-erase_at [] i e = absurd (none-ne_some e)
  length-erase_at (x ∷ xs) zero e = omega arith
  length-erase_at (x ∷ xs) (suc i) e = omega (arith, length-erase_at xs i e)

  -- The sum of a weight over the list.
  unfoldable pub total : (A → ℕ) → List A → ℕ
  total f [] = 0
  total f (x ∷ xs) = f x + total f xs

  pub total-nil : (f : A → ℕ) → total f [] ≡ 0
  unfolding total
  total-nil f = refl

  pub total-cons : (f : A → ℕ) (x : A) (xs : List A) → total f (x ∷ xs) ≡ f x + total f xs
  unfolding total
  total-cons f x xs = refl

  pub total-le : (f g : A → ℕ) (xs : List A) → Each (λ x. f x ≤ g x) xs → total f xs ≤ total g xs
  unfolding total
  total-le f g [] all = omega arith
  total-le f g (x ∷ xs) all = omega (arith, all.0, total-le f g xs all.1)

  pub total-zero : (xs : List A) → total (λ x. 0) xs ≡ 0
  unfolding total
  total-zero [] = refl
  total-zero (x ∷ xs) = omega (arith, total-zero xs)

  pub total-set_at :
      (f : A → ℕ) (xs : List A) (i : ℕ) {x : A} (y : A)
      → entry_at xs i ≡ some x
      → total f (set_at xs i y) + f x ≡ total f xs + f y
  unfolding total entry_at set_at
  total-set_at f [] i y e = absurd (none-ne_some e)
  total-set_at f (x ∷ xs) zero y e = omega (arith, ap f (some-same e))
  total-set_at f (x ∷ xs) (suc i) y e = omega (arith, total-set_at f xs i y e)

  pub total-erase_at :
      (f : A → ℕ) (xs : List A) (i : ℕ) {x : A}
      → entry_at xs i ≡ some x
      → total f (erase_at xs i) + f x ≡ total f xs
  unfolding total entry_at erase_at
  total-erase_at f [] i e = absurd (none-ne_some e)
  total-erase_at f (x ∷ xs) zero e = omega (arith, ap f (some-same e))
  total-erase_at f (x ∷ xs) (suc i) e = omega (arith, total-erase_at f xs i e)
