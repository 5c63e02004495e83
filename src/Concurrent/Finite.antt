-- ===== src/Concurrent/Finite.antt =====
-- `BasicConcurrentMapImpl` is a finite map: a function from keys to values, where there is one.
use corekit.Base.{
  ◌≡◌, refl, sym, ap, ◌∙◌, subst, inl, inr, Bool, true, false, none, some, List, [], ◌∷◌,
  Bool-cases, if◌then◌else◌,
}
use corekit.Concurrent.Map.{lookup, put, delete}

-- An equality of keys, such as `std::equal_to`.
pub record IsEquality {ℓ} {K : Type ℓ} (eq : K → K → Bool) : Type ℓ where
  pub same : (x : K) → eq x x ≡ true
  pub sound : (x y : K) → eq x y ≡ true → x ≡ y

-- Equal keys are told from another alike.
same_test {ℓ} :
    {K : Type ℓ} {eq : K → K → Bool} {x y : K}
    → IsEquality eq
    → eq x y ≡ true
    → (k : K) → eq x k ≡ eq y k
same_test {eq = eq} {x} {y} law e k = ap (λ z. eq z k) (law.sound x y e)

module _ {ℓ κ} {K : Type ℓ} {V : Type κ} {eq : K → K → Bool} (law : IsEquality eq) where
  pub lookup-put :
      (m : List (K × V)) (key : K) (v : V) (k : K)
      → lookup eq (put eq m key v) k ≡ (if eq key k then some v else lookup eq m k)
  unfolding lookup put
  lookup-put [] key v k = refl
  lookup-put ((x, w) ∷ m) key v k = elim (Bool-cases (eq x key)) [
    | inl hit ↦
        simp (hit, same_test law hit k)
          (elim (Bool-cases (eq key k)) [ inl at ↦ simp (at) refl | inr off ↦ simp (off) refl ])
    | inr miss ↦
        let rest = lookup-put m key v k in
        elim (Bool-cases (eq x k)) [
          | inr off ↦ simp (miss, off) rest
          | inl at ↦ elim (Bool-cases (eq key k)) [
            | inr far ↦ simp (miss, at, far) refl
            | inl near ↦
                let x_is_key : x ≡ key = law.sound x k at ∙ sym (law.sound key k near) in
                absurd
                  (let test : eq x key ≡ true = ap (λ z. eq z key) x_is_key ∙ law.same key in cc)
          ]
        ]
  ]

  -- No key has two entries.
  unfoldable pub Distinct : List (K × V) → Type κ
  Distinct [] = Unit
  Distinct ((k, v) ∷ xs) = (lookup eq xs k ≡ none) × Distinct xs

  pub lookup-delete :
      (m : List (K × V)) (key k : K)
      → Distinct m
      → lookup eq (delete eq m key) k ≡ (if eq key k then none else lookup eq m k)
  unfolding lookup delete Distinct
  lookup-delete [] key k d = elim (Bool-cases (eq key k)) [
    | inl at ↦ simp (at) refl
    | inr off ↦ simp (off) refl
  ]
  lookup-delete ((x, w) ∷ m) key k d = elim (Bool-cases (eq x key)) [
    | inl hit ↦ elim (Bool-cases (eq key k)) [
      | inl at ↦
          simp (hit, at)
            (subst (λ z. lookup eq m z ≡ none) (law.sound x key hit ∙ law.sound key k at) d.0)
      | inr off ↦ simp (hit, same_test law hit k, off) refl
    ]
    | inr miss ↦
        let rest = lookup-delete m key k d.1 in
        elim (Bool-cases (eq x k)) [
          | inr off ↦ simp (miss, off) rest
          | inl at ↦ elim (Bool-cases (eq key k)) [
            | inr far ↦ simp (miss, at, far) refl
            | inl near ↦
                let x_is_key : x ≡ key = law.sound x k at ∙ sym (law.sound key k near) in
                absurd
                  (let test : eq x key ≡ true = ap (λ z. eq z key) x_is_key ∙ law.same key in cc)
          ]
        ]
  ]

  pub Distinct-put : (m : List (K × V)) (key : K) (v : V) → Distinct m → Distinct (put eq m key v)
  unfolding lookup put Distinct
  Distinct-put [] key v d = (refl, tt)
  Distinct-put ((x, w) ∷ m) key v d = elim (Bool-cases (eq x key)) [
    | inl hit ↦ simp (hit) d
    | inr miss ↦
        let rest = Distinct-put m key v d.1 in
        let other : eq key x ≡ false = elim (Bool-cases (eq key x)) [
          | inr off ↦ off
          | inl at ↦ absurd (
              let test : eq x key ≡ true =
                ap (λ z. eq z key) (sym (law.sound key x at)) ∙ law.same key in
              cc)
        ] in
        simp (miss) (simp (lookup-put m key v x, other) d.0, rest)
  ]

  pub Distinct-delete : (m : List (K × V)) (key : K) → Distinct m → Distinct (delete eq m key)
  unfolding lookup delete Distinct
  Distinct-delete [] key d = tt
  Distinct-delete ((x, w) ∷ m) key d = elim (Bool-cases (eq x key)) [
    | inl hit ↦ simp (hit) d.1
    | inr miss ↦
        let rest = Distinct-delete m key d.1 in
        simp (miss) (
          elim (Bool-cases (eq key x)) [
            | inr off ↦ simp (lookup-delete m key x d.1, off) d.0
            | inl at ↦ simp (lookup-delete m key x d.1, at) refl
          ],
          rest,
        )
  ]
