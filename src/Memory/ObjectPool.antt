-- ===== src/Memory/ObjectPool.antt =====
-- `BasicObjectPoolImpl` of src/memory/basic_object_pool_impl.hpp. An object is its address, a vector a
-- list, and an unordered set a list without repetition. What `GlobalAllocator` and the constructor
-- of an object answer, and which of the insertions throws, are arguments of a call.
use corekit.Base.{
  ℕ, zero, suc, Option, none, some, List, [], ◌∷◌, ◌++◌, length, ltb, leb, ◌==◌, if◌then◌else◌,
}
use corekit.Base.Count.{mem}
use corekit.Api.Status.{
  Status, Result, value, error, is_ok, status_ok, invalid_argument, internal_error, would_block,
}
use corekit.Memory.System.{ck_memory}

abbrev pub Objects : Type 0
Objects = List ℕ

-- Without the first occurrence.
unfoldable pub remove : Objects → ℕ → Objects
remove [] p = []
remove (x ∷ xs) p = let rest = remove xs p in if x == p then xs else x ∷ rest

unfoldable pub insert : Objects → ℕ → Objects
insert xs p = if mem xs p then xs else xs ++ p ∷ []

-- `pop_back` and `back`.
unfoldable pub split_back : Objects → Option (Objects × ℕ)
split_back [] = none
split_back (x ∷ xs) = elim (split_back xs) [ none ↦ some ([], x) | some (ys, y) ↦ some (x ∷ ys, y) ]

-- `heap` holds the objects that are constructed and not destroyed.
pub record ObjectPool : Type 0 where
  pub max_cached : ℕ
  pub all : Objects
  pub free : Objects
  pub all_set : Objects
  pub free_set : Objects
  pub heap : Objects

abbrev pub new_pool : ℕ → ObjectPool
new_pool max_cached = record {
  max_cached = max_cached;
  all = [];
  free = [];
  all_set = [];
  free_set = [];
  heap = [];
}

-- How `CreateOne` ends: no memory, a constructor that throws, or a new object.
pub data Creation : Type 0 where
  no_memory constructor_throws : Creation
  created : ℕ → Creation

unfoldable pub create_one : ObjectPool → Creation → Result ℕ × ObjectPool
create_one pool no_memory = (error (ck_memory internal_error "pool allocate failed"), pool)
create_one pool constructor_throws =
    (error (ck_memory internal_error "pool object construction failed"), pool)
create_one pool (created ptr) = (value ptr, record pool { heap = pool.heap ++ ptr ∷ [] })

unfoldable pub destroy_one : ObjectPool → ℕ → ObjectPool
destroy_one pool obj = record pool { heap = remove pool.heap obj }

unfoldable pub erase_from_all : ObjectPool → ℕ → ObjectPool
erase_from_all pool ptr = record pool {
  all_set = remove pool.all_set ptr;
  all = remove pool.all ptr;
}

-- The insertions of a call up to the one that throws: none of them, the first, and so on.
pub data Done : Type 0 where
  none_done in_all in_all_set in_free all_done : Done

unfoldable pub inserted : Done → ObjectPool → ℕ → ObjectPool
inserted none_done pool ptr = pool
inserted in_all pool ptr = record pool { all = pool.all ++ ptr ∷ [] }
inserted in_all_set pool ptr = record pool {
  all = pool.all ++ ptr ∷ [];
  all_set = insert pool.all_set ptr;
}
inserted in_free pool ptr = record pool {
  all = pool.all ++ ptr ∷ [];
  all_set = insert pool.all_set ptr;
  free = pool.free ++ ptr ∷ [];
}
inserted all_done pool ptr = record pool {
  all = pool.all ++ ptr ∷ [];
  all_set = insert pool.all_set ptr;
  free = pool.free ++ ptr ∷ [];
  free_set = insert pool.free_set ptr;
}

-- The handler of `Reserve`.
unfoldable pub undo_reserve : ObjectPool → ℕ → ObjectPool
undo_reserve pool ptr =
    let erased = erase_from_all pool ptr in
    destroy_one
      (record erased { free_set = remove erased.free_set ptr; free = remove erased.free ptr }) ptr

-- One round of `Reserve`.
unfoldable pub reserve_one : ObjectPool → Creation → Done → Status × ObjectPool
reserve_one pool no_memory done =
    (ck_memory internal_error "pool allocate failed", (create_one pool no_memory).1)
reserve_one pool constructor_throws done = (
  ck_memory internal_error "pool object construction failed",
  (create_one pool constructor_throws).1,
)
reserve_one pool (created ptr) all_done =
    (status_ok, inserted all_done (create_one pool (created ptr)).1 ptr)
reserve_one pool (created ptr) done = (
  ck_memory internal_error "pool bookkeeping failed in Reserve",
  undo_reserve (inserted done (create_one pool (created ptr)).1 ptr) ptr,
)

-- `Reserve`, with the answers of its rounds.
unfoldable pub reserve : ObjectPool → List (Creation × Done) → Status × ObjectPool
reserve pool [] = (status_ok, pool)
reserve pool ((creation, done) ∷ rounds) =
    let round = reserve_one pool creation done in
    let rest = reserve round.1 rounds in if is_ok round.0 then rest else round

-- An acquire that finds no free object, and how far its two insertions come.
unfoldable pub acquire_new : ObjectPool → Creation → Done → Result ℕ × ObjectPool
acquire_new pool (created ptr) none_done = (
  error (ck_memory internal_error "pool bookkeeping failed in Acquire"),
  destroy_one (erase_from_all (inserted none_done (create_one pool (created ptr)).1 ptr) ptr) ptr,
)
acquire_new pool (created ptr) in_all = (
  error (ck_memory internal_error "pool bookkeeping failed in Acquire"),
  destroy_one (erase_from_all (inserted in_all (create_one pool (created ptr)).1 ptr) ptr) ptr,
)
acquire_new pool (created ptr) _ =
    (value ptr, inserted in_all_set (create_one pool (created ptr)).1 ptr)
acquire_new pool no_memory done = create_one pool no_memory
acquire_new pool constructor_throws done = create_one pool constructor_throws

-- `Acquire`, by what `free_` has at its end.
unfoldable pub acquire_from :
    Option (Objects × ℕ) → ObjectPool → Creation → Done → Result ℕ × ObjectPool
acquire_from none pool creation done = acquire_new pool creation done
acquire_from (some (rest, obj)) pool creation done =
    (value obj, record pool { free = rest; free_set = remove pool.free_set obj })

abbrev pub acquire : ObjectPool → Creation → Done → Result ℕ × ObjectPool
acquire pool creation done = acquire_from (split_back pool.free) pool creation done

-- How the two insertions of `ReleaseObject` end.
pub data Filing : Type 0 where
  filed vector_throws set_throws : Filing

unfoldable pub file_object : ObjectPool → ℕ → Filing → Status × ObjectPool
file_object pool obj filed =
    (status_ok, record pool { free = pool.free ++ obj ∷ []; free_set = insert pool.free_set obj })
file_object pool obj vector_throws =
    (ck_memory internal_error "pool bookkeeping failed in ReleaseObject", pool)
file_object pool obj set_throws = (
  ck_memory internal_error "pool bookkeeping failed in ReleaseObject",
  record pool { free = pool.free ++ obj ∷ [] },
)

-- 0 is the null pointer.
unfoldable pub release_object : ObjectPool → ℕ → Filing → Status × ObjectPool
release_object pool obj filing =
    if obj == 0
    then (ck_memory invalid_argument "obj is null", pool)
    else if mem pool.all_set obj
    then (if mem pool.free_set obj
        then (ck_memory invalid_argument "object already released", pool)
        else if leb pool.max_cached (length pool.free)
        then (status_ok, destroy_one (erase_from_all pool obj) obj)
        else file_object pool obj filing)
    else (ck_memory invalid_argument "object does not belong to this pool", pool)

-- One round of `Trim`.
unfoldable pub trim_last : Option (Objects × ℕ) → ObjectPool → ObjectPool
trim_last none pool = pool
trim_last (some (rest, ptr)) pool =
    destroy_one
      (erase_from_all (record pool { free = rest; free_set = remove pool.free_set ptr }) ptr) ptr

-- The loop of `Trim`: a round takes one object, so that `free_.size()` rounds are enough.
unfoldable pub trim_loop : ℕ → ℕ → ObjectPool → ObjectPool
trim_loop zero keep_free pool = pool
trim_loop (suc fuel) keep_free pool =
    let rest = trim_loop fuel keep_free (trim_last (split_back pool.free) pool) in
    if ltb keep_free (length pool.free) then rest else pool

abbrev pub trim : ℕ → ObjectPool → Status × ObjectPool
trim keep_free pool = (status_ok, trim_loop (length pool.free) keep_free pool)

unfoldable pub destroy_each : Objects → ObjectPool → ObjectPool
destroy_each [] pool = pool
destroy_each (x ∷ xs) pool = destroy_each xs (destroy_one pool x)

unfoldable pub clear_pool : ObjectPool → Status × ObjectPool
clear_pool pool =
    if length pool.free == length pool.all
    then (
      status_ok,
      record (destroy_each pool.all pool) { all = []; free = []; all_set = []; free_set = [] },
    )
    else (ck_memory would_block "cannot clear pool while objects are still acquired", pool)
