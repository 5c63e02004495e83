-- ===== src/Concurrent/Map.antt =====
-- `BasicConcurrentMapImpl` of src/concurrent/basic_map_impl.hpp, with the equality of keys as a
-- parameter and the table as a list of entries. How `map_[key] = value` ends is an argument.
use corekit.Base.{Bool, true, false, Option, none, some, List, [], ◌∷◌, String, if◌then◌else◌}
use corekit.Api.Status.{
  Status, Result, value, error, status_ok, would_block, internal_error, invalid_argument, not_found,
}
use corekit.Concurrent.Ring.{ck_status}

pub data Cause : Type 0 where
  bad_alloc other : Cause

-- A write succeeds, or throws before there is an entry, or when there is one, which then holds what
-- the assignment left, or a default value.
pub data Writing {ℓ} (V : Type ℓ) : Type ℓ where
  written : Writing V
  not_inserted : Cause → Writing V
  not_assigned : Cause → V → Writing V

-- The status of a handler: the second message is that of the operation.
abbrev pub thrown : Cause → String → Status
thrown bad_alloc message = ck_status internal_error "map allocation failed"
thrown other message = ck_status internal_error message

abbrev pub exists : Status
exists = ck_status would_block "key already exists"

abbrev pub missing : Status
missing = ck_status not_found "key not found"

module _ {κ} {V : Type κ} where
  -- What is written to `*inserted`, if it is.
  abbrev pub told : Writing V → Bool → Option Bool
  told written inserted = some inserted
  told _ inserted = none

  unfoldable pub found : Option V → Result V
  found none = error missing
  found (some v) = value v

  -- What `TryGet` returns and writes to `*out`.
  unfoldable pub try_get : Option V → Bool → Status × Option V
  try_get old true = (ck_status invalid_argument "out is null", none)
  try_get none false = (missing, none)
  try_get (some v) false = (status_ok, some v)

  abbrev pub contains : Option V → Bool
  contains none = false
  contains (some v) = true

module _ {ℓ κ} {K : Type ℓ} {V : Type κ} (eq : K → K → Bool) where
  unfoldable pub lookup : List (K × V) → K → Option V
  lookup [] key = none
  lookup ((k, v) ∷ xs) key = let rest = lookup xs key in if eq k key then some v else rest

  -- `map_[key] = value`, where it succeeds.
  unfoldable pub put : List (K × V) → K → V → List (K × V)
  put [] key v = (key, v) ∷ []
  put ((k, old) ∷ xs) key v =
      let rest = put xs key v in if eq k key then (k, v) ∷ xs else (k, old) ∷ rest

  unfoldable pub delete : List (K × V) → K → List (K × V)
  delete [] key = []
  delete ((k, v) ∷ xs) key = let rest = delete xs key in if eq k key then xs else (k, v) ∷ rest

  unfoldable pub write : List (K × V) → K → V → Writing V → String → Status × List (K × V)
  write m key v written message = (status_ok, put m key v)
  write m key v (not_inserted cause) message = (thrown cause message, m)
  write m key v (not_assigned cause left) message = (thrown cause message, put m key left)

  abbrev pub upsert : List (K × V) → K → V → Writing V → Status × List (K × V)
  upsert m key v ending = write m key v ending "map upsert failed"

  -- `InsertOrAssign`, by what `find` gives. An assignment to an entry inserts none.
  unfoldable pub insert_or_assign :
      Option V → List (K × V) → K → V → Writing V → Option Bool × Status × List (K × V)
  insert_or_assign none m key v ending =
      let out = write m key v ending "map insert-or-assign failed" in
      (told ending true, out.0, out.1)
  insert_or_assign (some old) m key v ending =
      let out = write m key v ending "map insert-or-assign failed" in
      (told ending false, out.0, out.1)

  unfoldable pub insert_if_absent :
      Option V → List (K × V) → K → V → Writing V → Status × List (K × V)
  insert_if_absent none m key v ending = write m key v ending "map insert failed"
  insert_if_absent (some old) m key v ending = (exists, m)

  unfoldable pub erase_key : Option V → List (K × V) → K → Status × List (K × V)
  erase_key none m key = (missing, m)
  erase_key (some v) m key = (status_ok, delete m key)
