-- ===== src/Task/Table.antt =====
-- `std::map` and `std::set` with numbers as keys: lists in the order of the keys.
use corekit.Base.{ℕ, Option, none, some, List, [], ◌∷◌, ltb, ◌==◌, if◌then◌else◌}

module _ {ℓ} {A : Type ℓ} where
  abbrev pub keys : List (ℕ × A) → List ℕ
  keys [] = []
  keys ((k, a) ∷ m) = k ∷ keys m

  unfoldable pub find : List (ℕ × A) → ℕ → Option A
  find [] k = none
  find ((j, a) ∷ m) k = let rest = find m k in if j == k then some a else rest

  -- `m[k] = a`.
  unfoldable pub assign : List (ℕ × A) → ℕ → A → List (ℕ × A)
  assign [] k a = (k, a) ∷ []
  assign ((j, b) ∷ m) k a =
      let rest = assign m k a in
      if j == k then (k, a) ∷ m else if ltb k j then (k, a) ∷ (j, b) ∷ m else (j, b) ∷ rest

-- Insertion into a set.
unfoldable pub insert : List ℕ → ℕ → List ℕ
insert [] k = k ∷ []
insert (j ∷ s) k =
    let rest = insert s k in if j == k then j ∷ s else if ltb k j then k ∷ j ∷ s else j ∷ rest
