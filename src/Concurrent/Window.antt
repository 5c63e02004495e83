-- ===== src/Concurrent/Window.antt =====
-- The elements that a ring holds: `size` of them from `head` on, around the end of the vector.
use corekit.Base.{
  ℕ, zero, suc, ◌+◌, ◌-◌, ◌%◌, ◌^◌, ◌≤◌, ◌<◌, ◌≡◌, ◌≢◌, ◌⊎◌, inl, inr, refl, sym, ap, ◌∙◌, some,
  List, [], ◌∷◌, ◌++◌, length, get_elem?, set, length-set, get_elem?-set_self, get_elem?-set_ne,
  length-append, arith,
}
use native.Mathlib.Nat.{mod-lt, mod-eq_of_lt, mod-add-mod, add-mod_right}
use native.Mathlib.Decide.{dec_lt}
use corekit.Concurrent.Ring.{Ring, store, next_index}

-- A sum of two numbers below `c`, modulo `c`.
mod-sum :
    (c h k : ℕ)
    → h < c
    → k ≤ c
    → ((h + k < c) × ((h + k) % c ≡ h + k)) ⊎ ((c ≤ h + k) × ((h + k) % c + c ≡ h + k))
mod-sum c h k lh lk = elim (dec_lt (h + k) c) [
  | yes below ↦ inl (below, mod-eq_of_lt below)
  | no above ↦
      let back : h + k - c + c ≡ h + k = omega arith in
      let less : (h + k) % c ≡ h + k - c =
        ap (λ n. n % c) (sym back) ∙ add-mod_right (h + k - c) c ∙ mod-eq_of_lt (omega arith) in
      inr (omega arith, omega arith)
]

-- Two places of one ring differ.
apart : (c h k n : ℕ) → h < c → k < n → n < c → (h + k) % c ≢ (h + n) % c
apart c h k n lh lk ln e = elim (mod-sum c h k lh (omega arith)) [
  | inl a ↦ elim (mod-sum c h n lh (omega arith)) [
    | inl b ↦ absurd (omega arith)
    | inr b ↦ absurd (omega arith)
  ]
  | inr a ↦ elim (mod-sum c h n lh (omega arith)) [
    | inl b ↦ absurd (omega arith)
    | inr b ↦ absurd (omega arith)
  ]
]

module _ {ℓ} {A : Type ℓ} where
  get_elem?-append_left :
      (xs ys : List A) (k : ℕ) → k < length xs → get_elem? (xs ++ ys) k ≡ get_elem? xs k
  get_elem?-append_left [] ys k h = absurd (omega arith)
  get_elem?-append_left (x ∷ xs) ys zero h = refl
  get_elem?-append_left (x ∷ xs) ys (suc k) h = get_elem?-append_left xs ys k (omega arith)

  get_elem?-append_last : (xs : List A) (y : A) → get_elem? (xs ++ y ∷ []) (length xs) ≡ some y
  get_elem?-append_last [] y = refl
  get_elem?-append_last (x ∷ xs) y = get_elem?-append_last xs y

  get_elem?-in : (xs : List A) (k : ℕ) → k < length xs → (x : A) × (get_elem? xs k ≡ some x)
  get_elem?-in [] k h = absurd (omega arith)
  get_elem?-in (x ∷ xs) zero h = (x, refl)
  get_elem?-in (x ∷ xs) (suc k) h = get_elem?-in xs k (omega arith)

-- The ring is in order, and its elements are `q`, oldest first.
pub record Holds {ℓ} {A : Type ℓ} (r : Ring A) (q : List A) : Type ℓ where
  pub small : r.capacity < 2 ^ 63
  pub bounded : r.size ≤ r.capacity
  pub count : length q ≡ r.size
  pub slots : 0 < r.capacity → length r.elements ≡ r.capacity
  pub head_in : 0 < r.capacity → r.head < r.capacity
  pub tail_at : 0 < r.capacity → r.tail ≡ (r.head + r.size) % r.capacity
  pub places :
      (k : ℕ) → k < r.size → get_elem? r.elements ((r.head + k) % r.capacity) ≡ get_elem? q k

module _ {ℓ} {A : Type ℓ} {r : Ring A} {q : List A} (v : Holds r q) (open_ : 0 < r.capacity) where
  pub next_index_lem : (i : ℕ) → i < r.capacity → next_index r i ≡ (i + 1) % r.capacity
  next_index_lem i h =
      let small : (i + 1) % 2 ^ 64 ≡ i + 1 = omega (arith, v.small) in
      ap (λ n. n % r.capacity) small

  tail_in : r.tail < r.capacity
  tail_in = rw (v.tail_at open_) (mod-lt (r.head + r.size) open_)

  pub stores-tail : (a : A) → r.size < r.capacity → Holds (store r r.tail a) q
  stores-tail a room = record {
    small = v.small;
    bounded = v.bounded;
    count = v.count;
    slots = λ _. length-set r.elements r.tail a ∙ v.slots open_;
    head_in = v.head_in;
    tail_at = v.tail_at;
    places = λ k h.
        get_elem?-set_ne r.elements a
          (λ e. apart r.capacity r.head k r.size (v.head_in open_) h room (sym e ∙ v.tail_at open_))
        ∙ v.places k h;
  }

  pub tail_element : (a : A) × (get_elem? r.elements r.tail ≡ some a)
  tail_element = get_elem?-in r.elements r.tail (omega (arith, v.slots open_, tail_in))

  full_size : r.size < r.capacity → (r.size + 1) % 2 ^ 64 ≡ r.size + 1
  full_size room = omega (arith, v.small)

  -- The new tail element is the last of the queue.
  pub adds-tail :
      (a : A)
      → r.size < r.capacity
      → Holds
          (record (store r r.tail a) { tail = next_index r r.tail; size = (r.size + 1) % 2 ^ 64 })
          (q ++ a ∷ [])
  adds-tail a room =
      let kept = stores-tail a room in
      record {
        small = v.small;
        bounded = omega (arith, full_size room);
        count = omega (arith, full_size room, length-append q (a ∷ []), v.count);
        slots = kept.slots;
        head_in = v.head_in;
        tail_at = λ _.
            next_index_lem r.tail tail_in
            ∙ ap (λ t. (t + 1) % r.capacity) (v.tail_at open_)
            ∙ mod-add-mod (r.head + r.size) r.capacity 1
            ∙ ap (λ n. n % r.capacity)
                (let sum : r.head + r.size + 1 ≡ r.head + (r.size + 1) % 2 ^ 64 =
                    omega (arith, full_size room) in
                  sum);
        places = λ k h. elim (dec_lt k r.size) [
          | yes old ↦
              kept.places k old ∙ sym (get_elem?-append_left q (a ∷ []) k (omega (arith, v.count)))
          | no new ↦
              let last : k ≡ r.size = omega (arith, full_size room) in
              let last' : k ≡ length q = omega (arith, v.count) in
              ap (λ n. get_elem? (set r.elements r.tail a) ((r.head + n) % r.capacity)) last
              ∙ ap (get_elem? (set r.elements r.tail a)) (sym (v.tail_at open_))
              ∙ get_elem?-set_self r.elements r.tail a (omega (arith, v.slots open_, tail_in))
              ∙ sym (ap (get_elem? (q ++ a ∷ [])) last' ∙ get_elem?-append_last q a)
        ];
      }

  head_place : (r.head + 0) % r.capacity ≡ r.head
  head_place =
      let sum : r.head + 0 ≡ r.head = omega arith in
      ap (λ n. n % r.capacity) sum ∙ mod-eq_of_lt (v.head_in open_)

  pub head_element : 0 < r.size → get_elem? r.elements r.head ≡ get_elem? q 0
  head_element some_ = ap (get_elem? r.elements) (sym head_place) ∙ v.places 0 some_

  -- Past the head a write there is not seen.
  behind_head :
      (a : A) (k : ℕ)
      → suc k < r.size
      → get_elem? (set r.elements r.head a) ((r.head + suc k) % r.capacity) ≡ get_elem? q (suc k)
  behind_head a k h =
      get_elem?-set_ne r.elements a (λ e.
        apart r.capacity r.head 0 (suc k) (v.head_in open_) (omega arith) (omega (arith, v.bounded))
          (head_place ∙ e))
      ∙ v.places (suc k) h

module _ {ℓ} {A : Type ℓ} {r : Ring A} {x : A} {q : List A} (v : Holds r (x ∷ q)) where
  pub has_one : 0 < r.size
  has_one = omega (arith, v.count)

  opened : 0 < r.capacity
  opened = omega (arith, has_one, v.bounded)

  pub first_element : get_elem? r.elements r.head ≡ some x
  first_element = head_element v opened has_one

  spoiled :
      (a : A) (k : ℕ)
      → k < r.size
      → get_elem? (set r.elements r.head a) ((r.head + k) % r.capacity) ≡ get_elem? (a ∷ q) k
  spoiled a zero h =
      ap (get_elem? (set r.elements r.head a)) (head_place v opened)
      ∙ get_elem?-set_self r.elements r.head a (omega (arith, v.slots opened, v.head_in opened))
  spoiled a (suc k) h = behind_head v opened a k h

  -- The head is spoiled, and stays.
  pub spoils-head : (a : A) → Holds (store r r.head a) (a ∷ q)
  spoils-head a = record {
    small = v.small;
    bounded = v.bounded;
    count = v.count;
    slots = λ _. length-set r.elements r.head a ∙ v.slots opened;
    head_in = v.head_in;
    tail_at = v.tail_at;
    places = spoiled a;
  }

  -- The head moves on.
  pub drops-head :
      (a : A)
      → Holds (record (store r r.head a) { head = next_index r r.head; size = r.size - 1 }) q
  drops-head a =
      let step = next_index_lem v opened r.head (v.head_in opened) in
      let along : (k n : ℕ)
          → k + 1 ≡ n
          → (next_index r r.head + k) % r.capacity ≡ (r.head + n) % r.capacity =
        λ k n e.
          ap (λ i. (i + k) % r.capacity) step
          ∙ mod-add-mod (r.head + 1) r.capacity k
          ∙ ap (λ i. i % r.capacity) (let sum : r.head + 1 + k ≡ r.head + n = omega arith in sum) in
      record {
        small = v.small;
        bounded = omega (arith, v.bounded);
        count = omega (arith, v.count);
        slots = λ _. length-set r.elements r.head a ∙ v.slots opened;
        head_in = λ _. rw step (mod-lt (r.head + 1) opened);
        tail_at = λ _. v.tail_at opened ∙ sym (along (r.size - 1) r.size (omega (arith, has_one)));
        places = λ k h.
            ap (get_elem? (set r.elements r.head a)) (along k (suc k) (omega arith))
            ∙ behind_head v opened a k (omega (arith, h));
      }
