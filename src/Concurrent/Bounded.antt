-- ===== src/Concurrent/Bounded.antt =====
-- What include/corekit/concurrent/i_ring_buffer.hpp promises: a queue of at most `capacity`
-- elements, oldest first, and the calls on it.
use corekit.Base.{
  ℕ, Bool, true, false, Option, none, some, List, [], ◌∷◌, ◌++◌, length, ltb, leb, ◌==◌, ◌&&◌,
  if◌then◌else◌,
}
use corekit.Api.Status.{Status, Result, value, error, status_ok, internal_error, invalid_argument}
use corekit.Concurrent.Ring.{
  Ring, Assignment, assigned, out_of_memory, thrown, Removal, removed, not_moved, not_returned,
  ck_status, ring_full, ring_empty, try_push, try_pop, try_peek, clear, is_empty, is_full,
}

module _ {ℓ} where
  pub data Call (A : Type ℓ) : Type ℓ where
    push : A → Assignment A → Call A
    pop : Removal A → Call A
    peek : (out_is_null throws : Bool) → Call A
    clearing sizes tests_empty tests_full : Call A

  pub data Reply (A : Type ℓ) : Type ℓ where
    returned : Status → Reply A
    popped : Result A → Reply A
    peeked : Status → Option A → Reply A
    counted : ℕ → Reply A
    answered : Bool → Reply A

module _ {ℓ} {A : Type ℓ} where
  unfoldable pub push_reply : Assignment A → Reply A
  push_reply assigned = returned status_ok
  push_reply (out_of_memory left) =
      returned (ck_status internal_error "ring buffer allocation failed")
  push_reply (thrown left) = returned (ck_status internal_error "ring buffer push failed")

  -- A push that throws adds nothing.
  abbrev pub pushed : List A → A → Assignment A → List A
  pushed q a assigned = q ++ a ∷ []
  pushed q a (out_of_memory left) = q
  pushed q a (thrown left) = q

  -- A move that throws spoils the oldest element; a copy to the result that throws loses it.
  abbrev pub pop_queue : List A → Removal A → Reply A × List A
  pop_queue [] ending = (popped (error ring_empty), [])
  pop_queue (a ∷ q) (removed left) = (popped (value a), q)
  pop_queue (a ∷ q) (not_moved left) =
      (popped (error (ck_status internal_error "ring buffer pop failed")), left ∷ q)
  pop_queue (a ∷ q) (not_returned left) =
      (popped (error (ck_status internal_error "ring buffer pop failed")), q)

  abbrev pub peek_queue : List A → Bool → Bool → Reply A
  peek_queue q true throws = peeked (ck_status invalid_argument "out is null") none
  peek_queue [] false throws = peeked ring_empty none
  peek_queue (a ∷ q) false true = peeked (ck_status internal_error "ring buffer peek failed") none
  peek_queue (a ∷ q) false false = peeked status_ok (some a)

  -- One call on a queue.
  unfoldable pub queue_call : ℕ → List A → Call A → Reply A × List A
  unfolding push_reply
  queue_call capacity q (push a ending) =
      if leb capacity (length q)
      then (returned ring_full, q)
      else (push_reply ending, pushed q a ending)
  queue_call capacity q (pop ending) = pop_queue q ending
  queue_call capacity q (peek out_is_null throws) = (peek_queue q out_is_null throws, q)
  queue_call capacity q clearing = (returned status_ok, [])
  queue_call capacity q sizes = (counted (length q), q)
  queue_call capacity q tests_empty = (answered (length q == 0), q)
  queue_call capacity q tests_full = (answered (ltb 0 capacity && leb capacity (length q)), q)

  unfoldable pub queue_run : ℕ → List A → List (Call A) → List (Reply A)
  queue_run capacity q [] = []
  queue_run capacity q (c ∷ cs) =
      let (reply, q') = queue_call capacity q c in reply ∷ queue_run capacity q' cs

  abbrev pub after {κ} :
      {B : Type κ} → (B → Reply A) → Option (B × Ring A) → Option (Reply A × Ring A)
  after reply none = none
  after reply (some (b, r)) = some (reply b, r)

  abbrev pub keeping : Ring A → Option (Status × Option A) → Option (Reply A × Ring A)
  keeping r none = none
  keeping r (some (st, out)) = some (peeked st out, r)

  -- One call on a ring.
  unfoldable pub ring_call : Ring A → Call A → Option (Reply A × Ring A)
  ring_call r (push a ending) = after returned (try_push r a ending)
  ring_call r (pop ending) = after popped (try_pop r ending)
  ring_call r (peek out_is_null throws) = keeping r (try_peek r out_is_null throws)
  ring_call r clearing = after returned (some (clear r))
  ring_call r sizes = some (counted r.size, r)
  ring_call r tests_empty = some (answered (is_empty r), r)
  ring_call r tests_full = some (answered (is_full r), r)

  abbrev pub before : Reply A → Option (List (Reply A)) → Option (List (Reply A))
  before reply none = none
  before reply (some rest) = some (reply ∷ rest)

  unfoldable pub ring_run : Ring A → List (Call A) → Option (List (Reply A))
  ring_run r [] = some []
  ring_run r (c ∷ cs) = elim (ring_call r c) [
    | none ↦ none
    | some (reply, r') ↦ before reply (ring_run r' cs)
  ]
