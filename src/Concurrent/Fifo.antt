-- ===== src/Concurrent/Fifo.antt =====
-- `BasicRingBufferImpl` is a bounded queue, also where copies of elements throw.
use corekit.Base.{
  ℕ, ◌^◌, ◌<◌, ◌≡◌, inl, inr, refl, sym, ap, ◌∙◌, Bool, true, false, ◌||◌, ◌&&◌, Option, none, some,
  List, [], ◌∷◌, length, length-replicate, ltb, leb, ◌==◌, if◌then◌else◌, Bool-cases, arith,
}
use native.Mathlib.Nat.{mod-eq_of_lt}
use corekit.Concurrent.Ring.{
  Ring, Assignment, assigned, out_of_memory, thrown, Removal, removed, not_moved, not_returned,
  new_ring, assign_tail, try_push, remove_head, try_pop, try_peek, clear,
}
use corekit.Concurrent.Bounded.{
  Call, push, pop, peek, clearing, sizes, tests_empty, tests_full, Reply, returned, popped, counted,
  answered, push_reply, pushed, pop_queue, queue_call, queue_run, ring_call, ring_run, before,
}
use corekit.Concurrent.Window.{
  Holds, stores-tail, adds-tail, first_element, has_one, spoils-head, drops-head, tail_element,
}

-- What a ring answers, and what it then holds, is what the queue answers and holds.
record Follows {ℓ} {A : Type ℓ} (capacity : ℕ) (out : Option (Reply A × Ring A))
    (spec : Reply A × List A) : Type ℓ where
  ring : Ring A
  kept : ring.capacity ≡ capacity
  reply : out ≡ some (spec.0, ring)
  holds : Holds ring spec.1

module _ {ℓ} {A : Type ℓ} {r : Ring A} where
  put-Follows :
      {q : List A} (a : A) (e : Assignment A)
      → Holds r q
      → r.size < r.capacity
      → Follows r.capacity
          (some (returned (assign_tail r a e).0, (assign_tail r a e).1))
          (push_reply e, pushed q a e)
  unfolding assign_tail push_reply
  put-Follows a assigned v room = record {
    ring = _;
    kept = refl;
    reply = refl;
    holds = adds-tail v (omega arith) a room;
  }
  put-Follows a (out_of_memory left) v room = record {
    ring = _;
    kept = refl;
    reply = refl;
    holds = stores-tail v (omega arith) left room;
  }
  put-Follows a (thrown left) v room = record {
    ring = _;
    kept = refl;
    reply = refl;
    holds = stores-tail v (omega arith) left room;
  }

  push-Follows :
      {q : List A} (a : A) (e : Assignment A)
      → Holds r q
      → Follows r.capacity (ring_call r (push a e)) (queue_call r.capacity q (push a e))
  unfolding ring_call queue_call try_push
  push-Follows {q = q} a e v = elim (Bool-cases (leb r.capacity r.size)) [
    | inl full ↦
        let test : (r.capacity == 0 || leb r.capacity r.size) ≡ true = ground arith in
        let test' : leb r.capacity (length q) ≡ true = ap (leb r.capacity) v.count ∙ full in
        simp (test, test') (record { ring = r; kept = refl; reply = refl; holds = v })
    | inr room ↦
        let test : (r.capacity == 0 || leb r.capacity r.size) ≡ false = ground arith in
        let test' : leb r.capacity (length q) ≡ false = ap (leb r.capacity) v.count ∙ room in
        let below : r.size < r.capacity = ground arith in
        let there = tail_element v (omega arith) in
        simp (test, test', there.1) (put-Follows a e v below)
  ]

  take-Follows :
      {x : A} {q : List A} (e : Removal A)
      → Holds r (x ∷ q)
      → Follows r.capacity
          (some (popped (remove_head r x e).0, (remove_head r x e).1))
          (pop_queue (x ∷ q) e)
  unfolding remove_head
  take-Follows (removed left) v = record {
    ring = _;
    kept = refl;
    reply = refl;
    holds = drops-head v left;
  }
  take-Follows (not_moved left) v = record {
    ring = _;
    kept = refl;
    reply = refl;
    holds = spoils-head v left;
  }
  take-Follows (not_returned left) v = record {
    ring = _;
    kept = refl;
    reply = refl;
    holds = drops-head v left;
  }

  empty_size : Holds r [] → (r.size == 0) ≡ true
  empty_size v = ground (arith, v.count)

  some_size : {x : A} {q : List A} → Holds r (x ∷ q) → (r.size == 0) ≡ false
  some_size v = let one = has_one v in ground arith

  pop-Follows :
      {q : List A} (e : Removal A)
      → Holds r q
      → Follows r.capacity (ring_call r (pop e)) (queue_call r.capacity q (pop e))
  unfolding ring_call queue_call try_pop
  pop-Follows {q = []} e v =
      simp (empty_size v) (record { ring = r; kept = refl; reply = refl; holds = v })
  pop-Follows {q = x ∷ q} e v = simp (some_size v, first_element v) (take-Follows e v)

  peek-Follows :
      {q : List A} (out_is_null throws : Bool)
      → Holds r q
      → Follows r.capacity
          (ring_call r (peek out_is_null throws))
          (queue_call r.capacity q (peek out_is_null throws))
  unfolding ring_call queue_call try_peek
  peek-Follows true throws v = record { ring = r; kept = refl; reply = refl; holds = v }
  peek-Follows {q = []} false throws v =
      simp (empty_size v) (record { ring = r; kept = refl; reply = refl; holds = v })
  peek-Follows {q = x ∷ q} false true v =
      simp (some_size v, first_element v)
        (record { ring = r; kept = refl; reply = refl; holds = v })
  peek-Follows {q = x ∷ q} false false v =
      simp (some_size v, first_element v)
        (record { ring = r; kept = refl; reply = refl; holds = v })

  clear-Holds : {q : List A} → Holds r q → Holds (clear r).1 []
  unfolding clear
  clear-Holds v = record {
    small = v.small;
    bounded = omega arith;
    count = refl;
    slots = v.slots;
    head_in = λ h. h;
    tail_at = λ h. sym (mod-eq_of_lt h);
    places = λ k h. absurd (omega arith);
  }

  call-Follows :
      {q : List A} (c : Call A)
      → Holds r q
      → Follows r.capacity (ring_call r c) (queue_call r.capacity q c)
  unfolding ring_call queue_call clear
  call-Follows (push a e) v = push-Follows a e v
  call-Follows (pop e) v = pop-Follows e v
  call-Follows (peek out_is_null throws) v = peek-Follows out_is_null throws v
  call-Follows clearing v = record { ring = _; kept = refl; reply = refl; holds = clear-Holds v }
  call-Follows sizes v = record {
    ring = r;
    kept = refl;
    reply = ap (λ n. some (counted n, r)) (sym v.count);
    holds = v;
  }
  call-Follows tests_empty v = record {
    ring = r;
    kept = refl;
    reply = ap (λ n. some (answered (n == 0), r)) (sym v.count);
    holds = v;
  }
  call-Follows tests_full v = record {
    ring = r;
    kept = refl;
    reply = ap (λ n. some (answered (ltb 0 r.capacity && leb r.capacity n), r)) (sym v.count);
    holds = v;
  }

run-follows {ℓ} :
    {A : Type ℓ} {r : Ring A} {q : List A} (calls : List (Call A))
    → Holds r q
    → ring_run r calls ≡ some (queue_run r.capacity q calls)
unfolding ring_run queue_run
run-follows [] v = refl
run-follows {r = r} {q = q} (c ∷ cs) v =
    let f = call-Follows c v in
    let rest = run-follows {r = f.ring} {q = (queue_call r.capacity q c).1} cs f.holds in
    let first : ring_run r (c ∷ cs) ≡ before (queue_call r.capacity q c).0 (ring_run f.ring cs) =
      λ i. elim (f.reply i) [ none ↦ none | some (reply, r') ↦ before reply (ring_run r' cs) ] in
    first
    ∙ ap (before (queue_call r.capacity q c).0) rest
    ∙ ap (λ n. some ((queue_call r.capacity q c).0 ∷ queue_run n (queue_call r.capacity q c).1 cs))
        f.kept

-- An empty ring of any capacity below 2^63 answers every history of calls, also one in which
-- copies of elements throw, as the bounded queue does, and never reads or writes outside its vector.
pub ring_run-queue {ℓ} :
    {A : Type ℓ} (blank : A) (capacity : ℕ) (calls : List (Call A))
    → capacity < 2 ^ 63
    → ring_run (new_ring blank capacity) calls ≡ some (queue_run capacity [] calls)
unfolding new_ring
ring_run-queue blank capacity calls small = run-follows calls (record {
  small = small;
  bounded = omega arith;
  count = refl;
  slots = λ h.
      length-replicate (if capacity == 0 then 1 else capacity) blank
      ∙ (let positive : (if capacity == 0 then 1 else capacity) ≡ capacity = ground arith in
          positive);
  head_in = λ h. h;
  tail_at = λ h. sym (mod-eq_of_lt h);
  places = λ k h. absurd (omega arith);
})
