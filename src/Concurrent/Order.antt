-- ===== src/Concurrent/Order.antt =====
-- A `BasicMutexQueueImpl` hands out what it accepted, in order, and stays within its capacity.
use corekit.Base.{
  ℕ, zero, suc, ◌+◌, ◌≤◌, ◌<◌, ◌≡◌, refl, sym, ap, ◌∙◌, subst, inl, inr, false, Option, none, some,
  List, [], ◌∷◌, ◌++◌, length, length-append, append-nil, append_assoc, ◌==◌, if◌then◌else◌,
  Bool-cases, arith,
}
use corekit.Api.Status.{Result, value, error, is_ok}
use corekit.Concurrent.Ring.{removed}
use corekit.Concurrent.Queue.{
  Insertion, added, out_of_memory, thrown, MutexQueue, at_capacity, push_back, queue_push,
  push_each, pop_front, push_batch, queue_pop, pop_each, pop_batch,
}

module _ {ℓ} where
  -- Calls that move elements in and out; `Clear` throws them away.
  pub data Call (A : Type ℓ) : Type ℓ where
    pushes : A → Insertion → Call A
    pushes_batch : List (A × Insertion) → Call A
    pops : A → Call A
    pops_batch : List A → Call A

  -- What a history of calls leaves, what it put into the queue, and what it handed out.
  pub record History (A : Type ℓ) : Type ℓ where
    pub state : MutexQueue A
    pub accepted : List A
    pub delivered : List A

module _ {ℓ} {A : Type ℓ} where
  abbrev pub first_of : ℕ → List (A × Insertion) → List A
  first_of zero xs = []
  first_of (suc n) [] = []
  first_of (suc n) ((a, e) ∷ xs) = a ∷ first_of n xs

  abbrev pub handed : Option (Result A) → List A
  handed none = []
  handed (some (value a)) = a ∷ []
  handed (some (error st)) = []

  abbrev pub moves : List A → List (Option A)
  moves [] = []
  moves (left ∷ xs) = none ∷ moves xs

  -- A removal whose moves succeed, with what they leave behind.
  unfoldable pub call : MutexQueue A → Call A → History A
  call s (pushes a ending) =
      let out = queue_push s a ending in
      record { state = out.1; accepted = if is_ok out.0 then a ∷ [] else []; delivered = [] }
  call s (pushes_batch values) =
      let out = push_batch s (some values) (length values) in
      record { state = out.2; accepted = first_of out.1 values; delivered = [] }
  call s (pops left) =
      let out = queue_pop s (removed left) in
      record { state = out.1; accepted = []; delivered = handed out.0 }
  call s (pops_batch lefts) =
      let out = pop_batch s false (moves lefts) in
      record { state = out.2; accepted = []; delivered = out.1 }

  unfoldable pub run : MutexQueue A → List (Call A) → History A
  run s [] = record { state = s; accepted = []; delivered = [] }
  run s (c ∷ cs) =
      let first = call s c in
      let rest = run first.state cs in
      record {
        state = rest.state;
        accepted = first.accepted ++ rest.accepted;
        delivered = first.delivered ++ rest.delivered;
      }

-- A call, or a history, keeps the order, the capacity, and the bound, if there is one.
pub record Orders {ℓ} {A : Type ℓ} (s : MutexQueue A) (h : History A) : Type ℓ where
  pub fifo : s.queue ++ h.accepted ≡ h.delivered ++ h.state.queue
  pub capacity : h.state.capacity ≡ s.capacity
  pub bounded :
      (0 < s.capacity → length s.queue ≤ s.capacity)
      → 0 < s.capacity
      → length h.state.queue ≤ s.capacity

module _ {ℓ} {A : Type ℓ} where
  grown :
      (s : MutexQueue A)
      → at_capacity s ≡ false
      → 0 < s.capacity
      → (a : A) → length (s.queue ++ a ∷ []) ≤ s.capacity
  grown s room h a =
      let below : length s.queue < s.capacity = ground arith in
      omega (arith, length-append s.queue (a ∷ []))

module _ {ℓ} {A : Type ℓ} {s : MutexQueue A} where
  nothing-Orders : Orders s (record { state = s; accepted = []; delivered = [] })
  nothing-Orders = record { fifo = append-nil s.queue; capacity = refl; bounded = λ b h. b h }

  added-Orders :
      (a : A)
      → at_capacity s ≡ false
      → Orders s (record {
        state = record s { queue = s.queue ++ a ∷ [] };
        accepted = a ∷ [];
        delivered = [];
      })
  added-Orders a room = record { fifo = refl; capacity = refl; bounded = λ b h. grown s room h a }

  push-Orders : (a : A) (e : Insertion) → Orders s (call s (pushes a e))
  unfolding call queue_push push_back
  push-Orders a e = elim (Bool-cases (at_capacity s)) [
    | inl full ↦ simp (full) nothing-Orders
    | inr room ↦ simp (room) (by_ending e room)
  ]
    where
      by_ending :
          (e : Insertion)
          → at_capacity s ≡ false
          → Orders s (record {
            state = (push_back s a e).1;
            accepted = if is_ok (push_back s a e).0 then a ∷ [] else [];
            delivered = [];
          })
      by_ending added room = added-Orders a room
      by_ending out_of_memory room = nothing-Orders
      by_ending thrown room = nothing-Orders

  pop-Orders : (left : A) → Orders s (call s (pops left))
  unfolding call pop_front
  pop-Orders left = by_elements s.queue refl
    where
      by_elements :
          (q : List A)
          → s.queue ≡ q
          → let out = pop_front q s (removed left) in
            Orders s (record { state = out.1; accepted = []; delivered = handed out.0 })
      by_elements [] e = nothing-Orders
      by_elements (a ∷ q) e = record {
        fifo = append-nil s.queue ∙ e;
        capacity = refl;
        bounded = λ b h. omega (arith, b h, ap length e);
      }

-- The elements that a batch takes out are the first ones.
pop_each-lem {ℓ} :
    {A : Type ℓ} (lefts q : List A)
    → let out = pop_each (moves lefts) q in (q ≡ out.1 ++ out.2) × (length out.2 ≤ length q)
unfolding pop_each
pop_each-lem [] q = (refl, omega arith)
pop_each-lem (l ∷ lefts) [] = (refl, omega arith)
pop_each-lem (l ∷ lefts) (a ∷ q) =
    let rest = pop_each-lem lefts q in (ap (◌∷◌ a) rest.0, omega (arith, rest.1))

-- One history after another.
abbrev joined {ℓ} : {A : Type ℓ} → History A → History A → History A
joined first rest = record {
  state = rest.state;
  accepted = first.accepted ++ rest.accepted;
  delivered = first.delivered ++ rest.delivered;
}

joined-Orders {ℓ} :
    {A : Type ℓ} {s : MutexQueue A} {first rest : History A}
    → Orders s first
    → Orders first.state rest
    → Orders s (joined first rest)
joined-Orders {s = s} {first = first} {rest = rest} o p = record {
  fifo =
      sym (append_assoc s.queue first.accepted rest.accepted)
      ∙ ap (λ q. q ++ rest.accepted) o.fifo
      ∙ append_assoc first.delivered first.state.queue rest.accepted
      ∙ ap (◌++◌ first.delivered) p.fifo
      ∙ sym (append_assoc first.delivered rest.delivered rest.state.queue);
  capacity = p.capacity ∙ o.capacity;
  bounded = λ b h. omega (
    arith,
    o.capacity,
    p.bounded (λ h'. omega (arith, o.capacity, o.bounded b h)) (omega (arith, o.capacity)),
  );
}

-- A batch that comes to `done + k` has added its first `k` elements.
push_each-Orders {ℓ} :
    {A : Type ℓ} (s : MutexQueue A) (done : ℕ) (values : List (A × Insertion))
    → let out = push_each s done values in
      (k : ℕ) × (out.1 ≡ done + k)
      × Orders s (record { state = out.2; accepted = first_of k values; delivered = [] })
unfolding push_each push_back
push_each-Orders s done [] = (0, omega arith, nothing-Orders)
push_each-Orders s done ((a, added) ∷ rest) = elim (Bool-cases (at_capacity s)) [
  | inl full ↦ simp (full) (0, omega arith, nothing-Orders)
  | inr room ↦
      let more = push_each-Orders (record s { queue = s.queue ++ a ∷ [] }) (done + 1) rest in
      simp (room) (suc more.0, omega (arith, more.1), joined-Orders (added-Orders a room) more.2)
]
push_each-Orders s done ((a, out_of_memory) ∷ rest) = elim (Bool-cases (at_capacity s)) [
  | inl full ↦ simp (full) (0, omega arith, nothing-Orders)
  | inr room ↦ simp (room) (0, omega arith, nothing-Orders)
]
push_each-Orders s done ((a, thrown) ∷ rest) = elim (Bool-cases (at_capacity s)) [
  | inl full ↦ simp (full) (0, omega arith, nothing-Orders)
  | inr room ↦ simp (room) (0, omega arith, nothing-Orders)
]

module _ {ℓ} {A : Type ℓ} (s : MutexQueue A) where
  push_batch-Orders : (values : List (A × Insertion)) → Orders s (call s (pushes_batch values))
  unfolding call push_batch
  push_batch-Orders values =
      let out = push_each-Orders s 0 values in
      let same : (push_each s 0 values).1 ≡ out.0 = omega (arith, out.1) in
      subst
        (λ n. Orders s (record {
          state = (push_each s 0 values).2;
          accepted = first_of n values;
          delivered = [];
        }))
        (sym same) out.2

  pop_batch-Orders : (lefts : List A) → Orders s (call s (pops_batch lefts))
  unfolding call pop_batch
  pop_batch-Orders lefts = elim (Bool-cases (length s.queue == 0)) [
    | inl empty ↦ simp (empty) nothing-Orders
    | inr full ↦
        let out = pop_each-lem lefts s.queue in
        simp (full) (record {
          fifo = append-nil s.queue ∙ out.0;
          capacity = refl;
          bounded = λ b h. omega (arith, b h, out.1);
        })
  ]

  call-Orders : (c : Call A) → Orders s (call s c)
  call-Orders (pushes a e) = push-Orders a e
  call-Orders (pushes_batch values) = push_batch-Orders values
  call-Orders (pops left) = pop-Orders left
  call-Orders (pops_batch lefts) = pop_batch-Orders lefts

-- After any history of single and batch calls, in which pushes may throw and removals do not, what
-- was in the queue followed by what was accepted is what was delivered followed by what is in it
-- now, and a queue with a capacity above 0 that was within it still is.
pub run-Orders {ℓ} :
    {A : Type ℓ} (calls : List (Call A)) (s : MutexQueue A) → Orders s (run s calls)
unfolding run
run-Orders [] s = nothing-Orders
run-Orders (c ∷ cs) s = joined-Orders (call-Orders s c) (run-Orders cs (call s c).state)
