-- ===== src/Concurrent/Calls.antt =====
-- Histories of calls on a `BasicConcurrentMapImpl`, and what a finite map, a function from keys to
-- values, answers to them.
use corekit.Base.{Bool, true, false, Option, none, some, List, [], ◌∷◌, String, if◌then◌else◌}
use corekit.Api.Status.{
  Status, Result, value, error, status_ok, from_module, concurrent, internal_error,
  invalid_argument, not_found, would_block,
}
use corekit.Concurrent.Map.{
  Cause, bad_alloc, other, Writing, written, not_inserted, not_assigned, lookup, upsert,
  insert_or_assign, insert_if_absent, found, try_get, contains, erase_key,
}

module _ {ℓ κ} where
  pub data Call (K : Type ℓ) (V : Type κ) : Type (ℓ ⊔ κ) where
    upserts inserts_or_assigns inserts_if_absent : K → V → Writing V → Call K V
    finds contains_asked erases : K → Call K V
    gets : K → (out_is_null : Bool) → Call K V
    clears : Call K V

pub data Reply {κ} (V : Type κ) : Type κ where
  returned : Status → Reply V
  told_inserted : Option Bool → Status → Reply V
  got : Result V → Reply V
  wrote : Status → Option V → Reply V
  answered : Bool → Reply V

-- What a finite map that runs out of memory replies, and where something else is thrown.
abbrev pub refusal : Cause → String → Status
refusal bad_alloc message = from_module internal_error "map allocation failed" concurrent 0
refusal other message = from_module internal_error message concurrent 0

abbrev pub unknown_key : Status
unknown_key = from_module not_found "key not found" concurrent 0

module _ {ℓ κ} {K : Type ℓ} {V : Type κ} (eq : K → K → Bool) where
  unfoldable pub map_call : List (K × V) → Call K V → Reply V × List (K × V)
  map_call m (upserts key v e) = let out = upsert eq m key v e in (returned out.0, out.1)
  map_call m (inserts_or_assigns key v e) =
      let out = insert_or_assign eq (lookup eq m key) m key v e in
      (told_inserted out.0 out.1, out.2)
  map_call m (inserts_if_absent key v e) =
      let out = insert_if_absent eq (lookup eq m key) m key v e in (returned out.0, out.1)
  map_call m (finds key) = (got (found (lookup eq m key)), m)
  map_call m (contains_asked key) = (answered (contains (lookup eq m key)), m)
  map_call m (erases key) =
      let out = erase_key eq (lookup eq m key) m key in (returned out.0, out.1)
  map_call m (gets key out_is_null) =
      let out = try_get (lookup eq m key) out_is_null in (wrote out.0 out.1, m)
  map_call m clears = (returned status_ok, [])

  unfoldable pub map_run : List (K × V) → List (Call K V) → List (Reply V)
  map_run m [] = []
  map_run m (c ∷ cs) = let (reply, m') = map_call m c in reply ∷ map_run m' cs

  -- The finite map after a write of `key`.
  unfoldable pub at_key : (K → Option V) → K → Option V → K → Option V
  at_key f key o k = if eq key k then o else f k

  -- A write that throws leaves no entry, or the one that the assignment left.
  abbrev pub after_write : (K → Option V) → K → V → Writing V → K → Option V
  after_write f key v written = at_key f key (some v)
  after_write f key v (not_inserted cause) = f
  after_write f key v (not_assigned cause left) = at_key f key (some left)

  abbrev pub write_status : Writing V → String → Status
  write_status written message = status_ok
  write_status (not_inserted cause) message = refusal cause message
  write_status (not_assigned cause left) message = refusal cause message

  abbrev pub write_reply : Writing V → (inserted : Bool) → String → Reply V
  write_reply written inserted message = told_inserted (some inserted) status_ok
  write_reply (not_inserted cause) inserted message = told_inserted none (refusal cause message)
  write_reply (not_assigned cause left) inserted message =
      told_inserted none (refusal cause message)

  -- What a call answers and leaves, by the value of its key, if there is one.
  unfoldable pub finite_at : Option V → (K → Option V) → Call K V → Reply V × (K → Option V)
  finite_at old f (upserts key v e) =
      (returned (write_status e "map upsert failed"), after_write f key v e)
  finite_at none f (inserts_or_assigns key v e) =
      (write_reply e true "map insert-or-assign failed", after_write f key v e)
  finite_at (some w) f (inserts_or_assigns key v e) =
      (write_reply e false "map insert-or-assign failed", after_write f key v e)
  finite_at none f (inserts_if_absent key v e) =
      (returned (write_status e "map insert failed"), after_write f key v e)
  finite_at (some w) f (inserts_if_absent key v e) =
      (returned (from_module would_block "key already exists" concurrent 0), f)
  finite_at none f (finds key) = (got (error unknown_key), f)
  finite_at (some w) f (finds key) = (got (value w), f)
  finite_at none f (contains_asked key) = (answered false, f)
  finite_at (some w) f (contains_asked key) = (answered true, f)
  finite_at none f (erases key) = (returned unknown_key, f)
  finite_at (some w) f (erases key) = (returned status_ok, at_key f key none)
  finite_at none f (gets key true) =
      (wrote (from_module invalid_argument "out is null" concurrent 0) none, f)
  finite_at (some w) f (gets key true) =
      (wrote (from_module invalid_argument "out is null" concurrent 0) none, f)
  finite_at none f (gets key false) = (wrote unknown_key none, f)
  finite_at (some w) f (gets key false) = (wrote status_ok (some w), f)
  finite_at old f clears = (returned status_ok, λ k. none)

  abbrev pub key_value : (K → Option V) → Call K V → Option V
  key_value f (upserts key v e) = f key
  key_value f (inserts_or_assigns key v e) = f key
  key_value f (inserts_if_absent key v e) = f key
  key_value f (finds key) = f key
  key_value f (contains_asked key) = f key
  key_value f (erases key) = f key
  key_value f (gets key out_is_null) = f key
  key_value f clears = none

  unfoldable pub finite_run : (K → Option V) → List (Call K V) → List (Reply V)
  finite_run f [] = []
  finite_run f (c ∷ cs) =
      let (reply, f') = finite_at (key_value f c) f c in reply ∷ finite_run f' cs
