-- ===== src/Concurrent/Ring.antt =====
-- `BasicRingBufferImpl` of src/concurrent/basic_ring_buffer_impl.hpp. Copying or moving an element
-- (of `data_`, here `elements`) may throw, which is an argument of the call; `none` is an access outside the vector.
use corekit.Base.{
  ℕ, ◌+◌, ◌-◌, ◌%◌, ◌^◌, Bool, ◌&&◌, ◌||◌, Option, none, some, List, set, get_elem?, replicate, ltb,
  leb, ◌==◌, if◌then◌else◌,
}
use corekit.Api.Status.{
  Status, Result, value, error, status_ok, from_module, concurrent, would_block, internal_error,
  invalid_argument, StatusCode,
}
use corekit.Base.{String}

pub record Ring {ℓ} (A : Type ℓ) : Type ℓ where
  pub capacity : ℕ
  pub elements : List A
  pub head : ℕ
  pub tail : ℕ
  pub size : ℕ

-- How `data_[tail_] = value` ends; an assignment that throws leaves something in the element.
pub data Assignment {ℓ} (A : Type ℓ) : Type ℓ where
  assigned : Assignment A
  out_of_memory thrown : A → Assignment A

-- How the two moves and copies of `TryPop` end, with what they leave in the element: both succeed,
-- the first throws, or the second, into the result, throws.
pub data Removal {ℓ} (A : Type ℓ) : Type ℓ where
  removed not_moved not_returned : A → Removal A

abbrev pub ck_status : StatusCode → String → Status
ck_status code message = from_module code message concurrent 0

abbrev pub ring_full : Status
ring_full = ck_status would_block "ring buffer is full"

abbrev pub ring_empty : Status
ring_empty = ck_status would_block "ring buffer is empty"

module _ {ℓ} {A : Type ℓ} where
  -- `blank` is the value that default construction gives.
  unfoldable pub new_ring : A → ℕ → Ring A
  new_ring blank capacity = record {
    capacity = capacity;
    elements = replicate (if capacity == 0 then 1 else capacity) blank;
    head = 0;
    tail = 0;
    size = 0;
  }

  -- The index after `i`, in `std::size_t`.
  abbrev pub next_index : Ring A → ℕ → ℕ
  next_index r i = (i + 1) % 2 ^ 64 % r.capacity

  abbrev pub store : Ring A → ℕ → A → Ring A
  store r i a = record r { elements = set r.elements i a }

  unfoldable pub assign_tail : Ring A → A → Assignment A → Status × Ring A
  assign_tail r a assigned = (
    status_ok,
    record (store r r.tail a) { tail = next_index r r.tail; size = (r.size + 1) % 2 ^ 64 },
  )
  assign_tail r a (out_of_memory left) =
      (ck_status internal_error "ring buffer allocation failed", store r r.tail left)
  assign_tail r a (thrown left) =
      (ck_status internal_error "ring buffer push failed", store r r.tail left)

  unfoldable pub try_push : Ring A → A → Assignment A → Option (Status × Ring A)
  try_push r a ending =
      if r.capacity == 0 || leb r.capacity r.size
      then some (ring_full, r)
      else elim (get_elem? r.elements r.tail) [
        | none ↦ none
        | some _ ↦ some (assign_tail r a ending)
      ]

  unfoldable pub remove_head : Ring A → A → Removal A → Result A × Ring A
  remove_head r a (removed left) =
      (value a, record (store r r.head left) { head = next_index r r.head; size = r.size - 1 })
  remove_head r a (not_moved left) =
      (error (ck_status internal_error "ring buffer pop failed"), store r r.head left)
  remove_head r a (not_returned left) = (
    error (ck_status internal_error "ring buffer pop failed"),
    record (store r r.head left) { head = next_index r r.head; size = r.size - 1 },
  )

  unfoldable pub try_pop : Ring A → Removal A → Option (Result A × Ring A)
  try_pop r ending =
      if r.size == 0 then some (error ring_empty, r) else elim (get_elem? r.elements r.head) [
        | none ↦ none
        | some a ↦ some (remove_head r a ending)
      ]

  -- What is written to `*out`, if it is.
  unfoldable pub try_peek : Ring A → Bool → Bool → Option (Status × Option A)
  try_peek r out_is_null throws =
      if out_is_null
      then some (ck_status invalid_argument "out is null", none)
      else if r.size == 0
      then some (ring_empty, none)
      else elim (get_elem? r.elements r.head) [
        | none ↦ none
        | some a ↦
            if throws
            then some (ck_status internal_error "ring buffer peek failed", none)
            else some (status_ok, some a)
      ]

  unfoldable pub clear : Ring A → Status × Ring A
  clear r = (status_ok, record r { head = 0; tail = 0; size = 0 })

  abbrev pub is_empty : Ring A → Bool
  is_empty r = r.size == 0

  abbrev pub is_full : Ring A → Bool
  is_full r = ltb 0 r.capacity && leb r.capacity r.size
