-- ===== src/Memory/System.antt =====
-- `SystemAllocator` of src/memory/system_allocator.cpp: a table of block sizes, and counters. What
-- `posix_memalign` answers is an argument: an address, or `none` for a failure. Freeing the block
-- itself is left to the C library.
use Prim.Native.Nat.{bit_and}
use corekit.Base.{
  ℕ, ◌+◌, ◌-◌, ◌%◌, ◌^◌, Bool, not, ◌&&◌, ◌||◌, Option, none, some, List, [], ◌∷◌, String, ltb,
  ◌==◌, if◌then◌else◌,
}
use corekit.Api.Status.{
  Status, StatusCode, Result, value, error, status_ok, from_module, memory, invalid_argument,
  internal_error, unsupported,
}

-- `unnamed` is a value of the C++ type that has no name.
pub data AllocBackend : Type 0 where
  system tbb_scalable mimalloc : AllocBackend
  unnamed : ℕ → AllocBackend

abbrev pub ck_memory : StatusCode → String → Status
ck_memory code message = from_module code message memory 0

-- `alloc_sizes_`: addresses and sizes.
abbrev pub Sizes : Type 0
Sizes = List (ℕ × ℕ)

unfoldable pub find : Sizes → ℕ → Option ℕ
find [] ptr = none
find ((p, n) ∷ xs) ptr = if p == ptr then some n else find xs ptr

-- `alloc_sizes_[ptr] = size`.
unfoldable pub assign : Sizes → ℕ → ℕ → Sizes
assign [] ptr size = (ptr, size) ∷ []
assign ((p, n) ∷ xs) ptr size =
    let rest = assign xs ptr size in if p == ptr then (p, size) ∷ xs else (p, n) ∷ rest

unfoldable pub erase : Sizes → ℕ → Sizes
erase [] ptr = []
erase ((p, n) ∷ xs) ptr = let rest = erase xs ptr in if p == ptr then xs else (p, n) ∷ rest

-- The bytes of all blocks of the table.
unfoldable pub total : Sizes → ℕ
total [] = 0
total ((p, n) ∷ xs) = n + total xs

pub record SystemAllocator : Type 0 where
  pub backend : AllocBackend
  pub alloc_count : ℕ
  pub free_count : ℕ
  pub alloc_fail_count : ℕ
  pub bytes_in_use : ℕ
  pub bytes_peak : ℕ
  pub alloc_sizes : Sizes

abbrev pub add_count : ℕ → ℕ → ℕ
add_count a b = (a + b) % 2 ^ 64

abbrev pub new_system_allocator : SystemAllocator
new_system_allocator = record {
  backend = system;
  alloc_count = 0;
  free_count = 0;
  alloc_fail_count = 0;
  bytes_in_use = 0;
  bytes_peak = 0;
  alloc_sizes = [];
}

unfoldable pub reset_stats : SystemAllocator → SystemAllocator
unfolding total
reset_stats s = record s {
  alloc_count = 0;
  free_count = 0;
  alloc_fail_count = 0;
  bytes_in_use = total s.alloc_sizes % 2 ^ 64;
  bytes_peak = total s.alloc_sizes % 2 ^ 64;
}

abbrev pub record_alloc_failure : SystemAllocator → SystemAllocator
record_alloc_failure s = record s { alloc_fail_count = add_count s.alloc_fail_count 1 }

unfoldable pub record_alloc_success : SystemAllocator → ℕ → ℕ → SystemAllocator
record_alloc_success s ptr size =
    let in_use_now = add_count s.bytes_in_use size in
    record s {
      alloc_count = add_count s.alloc_count 1;
      alloc_sizes = assign s.alloc_sizes ptr size;
      bytes_in_use = in_use_now;
      bytes_peak = if ltb s.bytes_peak in_use_now then in_use_now else s.bytes_peak;
    }

abbrev pub released : Option ℕ → ℕ
released none = 0
released (some n) = n

-- A subtraction that would go below 0 gives 0, and so does `◌-◌`.
unfoldable pub record_deallocate : SystemAllocator → ℕ → SystemAllocator
record_deallocate s ptr = record s {
  alloc_sizes = erase s.alloc_sizes ptr;
  free_count = add_count s.free_count 1;
  bytes_in_use = s.bytes_in_use - released (find s.alloc_sizes ptr);
}

unfoldable pub is_power_of_two : ℕ → Bool
is_power_of_two x = not (x == 0) && bit_and x (x - 1) == 0

unfoldable pub set_backend : SystemAllocator → AllocBackend → Status × SystemAllocator
set_backend s system = (status_ok, record s { backend = system })
set_backend s _ = (ck_memory unsupported "Only kSystem backend is implemented in current stage", s)

abbrev pub pointer_bytes : ℕ
pointer_bytes = 8

-- `failed` is what the class says of a failed call of the C function.
unfoldable pub allocated :
    (failed : String) → SystemAllocator → ℕ → Option ℕ → Result ℕ × SystemAllocator
allocated failed s size none = (error (ck_memory internal_error failed), record_alloc_failure s)
allocated failed s size (some ptr) = (value ptr, record_alloc_success s ptr size)

unfoldable pub allocate_checked :
    (failed : String) → SystemAllocator → ℕ → ℕ → Option ℕ → Result ℕ × SystemAllocator
unfolding is_power_of_two
allocate_checked failed s size alignment answer =
    if size == 0
    then (error (ck_memory invalid_argument "size must be > 0"), record_alloc_failure s)
    else if ltb alignment pointer_bytes || not (is_power_of_two alignment)
    then (
      error (ck_memory invalid_argument "alignment must be power-of-two and >= sizeof(void*)"),
      record_alloc_failure s,
    )
    else allocated failed s size answer

-- The first test of `Allocate`, by the backend.
unfoldable pub allocate_on :
    AllocBackend → SystemAllocator → ℕ → ℕ → Option ℕ → Result ℕ × SystemAllocator
allocate_on system s size alignment answer =
    allocate_checked "posix_memalign failed" s size alignment answer
allocate_on _ s size alignment answer =
    (error (ck_memory unsupported "Selected backend is not implemented"), record_alloc_failure s)

abbrev pub allocate : SystemAllocator → ℕ → ℕ → Option ℕ → Result ℕ × SystemAllocator
allocate s size alignment answer = allocate_on s.backend s size alignment answer

-- 0 is the null pointer.
unfoldable pub deallocate : SystemAllocator → ℕ → Status × SystemAllocator
deallocate s ptr = if ptr == 0 then (status_ok, s) else (status_ok, record_deallocate s ptr)
