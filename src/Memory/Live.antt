-- ===== src/Memory/Live.antt =====
-- The counters of `SystemAllocator` tell what is live.
use corekit.Base.{
  ℕ, ◌+◌, ◌%◌, ◌^◌, ◌≤◌, ◌<◌, ◌≡◌, inl, inr, refl, sym, ◌∙◌, not, ◌||◌, Option, none, some, List,
  [], ◌∷◌, String, ltb, ◌==◌, if◌then◌else◌, Bool-cases, arith,
}
use corekit.Memory.System.{
  AllocBackend, system, tbb_scalable, mimalloc, unnamed, Sizes, find, assign, erase, total,
  SystemAllocator, record_alloc_failure, record_alloc_success, record_deallocate, released,
  reset_stats, set_backend, is_power_of_two, allocated, allocate_checked, allocate_on, allocate,
  deallocate, add_count,
}

-- A new block adds its size.
total-assign :
    (xs : Sizes) (ptr size : ℕ) → find xs ptr ≡ none → total (assign xs ptr size) ≡ size + total xs
unfolding total assign find
total-assign [] ptr size e = refl
total-assign ((p, n) ∷ xs) ptr size e = elim (Bool-cases (p == ptr)) [
  | inl same ↦
      absurd
        (let found : (if p == ptr then some n else find xs ptr) ≡ some n = simp (same) refl in cc)
  | inr other ↦
      let later : (if p == ptr then some n else find xs ptr) ≡ find xs ptr = simp (other) refl in
      let rest = total-assign xs ptr size (sym later ∙ e) in simp (other) (omega (arith, rest))
]

-- An erased block takes its size away.
total-erase : (xs : Sizes) (ptr : ℕ) → total (erase xs ptr) + released (find xs ptr) ≡ total xs
unfolding total erase find
total-erase [] ptr = refl
total-erase ((p, n) ∷ xs) ptr = elim (Bool-cases (p == ptr)) [
  | inl same ↦ simp (same) (omega arith)
  | inr other ↦ let rest = total-erase xs ptr in simp (other) (omega (arith, rest))
]

-- The counter of live bytes is exact, and the peak is at least that.
pub record IsAccurate (s : SystemAllocator) : Type 0 where
  pub in_use : s.bytes_in_use ≡ total s.alloc_sizes
  pub fits : s.bytes_in_use < 2 ^ 64
  pub peak : s.bytes_in_use ≤ s.bytes_peak

record_alloc_success-IsAccurate :
    {s : SystemAllocator} (ptr size : ℕ)
    → IsAccurate s
    → find s.alloc_sizes ptr ≡ none
    → total s.alloc_sizes + size < 2 ^ 64
    → IsAccurate (record_alloc_success s ptr size)
unfolding record_alloc_success
record_alloc_success-IsAccurate {s} ptr size v new fits =
    let sum : add_count s.bytes_in_use size ≡ s.bytes_in_use + size = omega (arith, v.in_use) in
    record {
      in_use = omega (arith, sum, v.in_use, total-assign s.alloc_sizes ptr size new);
      fits = omega (arith, sum, v.in_use);
      peak = ground arith;
    }

record_deallocate-IsAccurate :
    {s : SystemAllocator} (ptr : ℕ) → IsAccurate s → IsAccurate (record_deallocate s ptr)
unfolding record_deallocate
record_deallocate-IsAccurate {s} ptr v = record {
  in_use = omega (arith, v.in_use, total-erase s.alloc_sizes ptr);
  fits = omega (arith, v.fits);
  peak = omega (arith, v.peak);
}

-- A refused allocation touches neither table nor bytes.
failure-IsAccurate : {s : SystemAllocator} → IsAccurate s → IsAccurate (record_alloc_failure s)
failure-IsAccurate v = record { in_use = v.in_use; fits = v.fits; peak = v.peak }

pub data Call : Type 0 where
  allocates : (size alignment : ℕ) → Option ℕ → Call
  frees : ℕ → Call
  resets : Call
  switches : AllocBackend → Call

unfoldable pub call : SystemAllocator → Call → SystemAllocator
call s (allocates size alignment answer) = (allocate s size alignment answer).1
call s (frees ptr) = (deallocate s ptr).1
call s resets = reset_stats s
call s (switches b) = (set_backend s b).1

unfoldable pub run : SystemAllocator → List Call → SystemAllocator
run s [] = s
run s (c ∷ cs) = run (call s c) cs

-- `posix_memalign` returns no block that is in use, and the blocks fit a 64-bit address space.
unfoldable pub IsHonest : SystemAllocator → Call → Type 0
IsHonest s (allocates size alignment (some ptr)) =
    (find s.alloc_sizes ptr ≡ none) × (total s.alloc_sizes + size < 2 ^ 64)
IsHonest s _ = Unit

unfoldable pub AreHonest : SystemAllocator → List Call → Type 0
AreHonest s [] = Unit
AreHonest s (c ∷ cs) = IsHonest s c × AreHonest (call s c) cs

allocated-IsAccurate :
    (failed : String) {s : SystemAllocator} (size alignment : ℕ) (answer : Option ℕ)
    → IsAccurate s
    → IsHonest s (allocates size alignment answer)
    → IsAccurate (allocated failed s size answer).1
unfolding allocated IsHonest
allocated-IsAccurate failed size alignment none v h = failure-IsAccurate v
allocated-IsAccurate failed size alignment (some ptr) v h =
    record_alloc_success-IsAccurate ptr size v h.0 h.1

pub allocate_checked-IsAccurate :
    (failed : String) {s : SystemAllocator} (size alignment : ℕ) (answer : Option ℕ)
    → IsAccurate s
    → IsHonest s (allocates size alignment answer)
    → IsAccurate (allocate_checked failed s size alignment answer).1
unfolding allocate_checked
allocate_checked-IsAccurate failed size alignment answer v h = elim (Bool-cases (size == 0)) [
  | inl zero_size ↦ simp (zero_size) (failure-IsAccurate v)
  | inr positive ↦ elim (Bool-cases (ltb alignment 8 || not (is_power_of_two alignment))) [
    | inl odd ↦ simp (positive, odd) (failure-IsAccurate v)
    | inr fine ↦ simp (positive, fine) (allocated-IsAccurate failed size alignment answer v h)
  ]
]

allocate_on-IsAccurate :
    (b : AllocBackend) {s : SystemAllocator} (size alignment : ℕ) (answer : Option ℕ)
    → IsAccurate s
    → IsHonest s (allocates size alignment answer)
    → IsAccurate (allocate_on b s size alignment answer).1
unfolding allocate_on
allocate_on-IsAccurate system size alignment answer v h =
    allocate_checked-IsAccurate "posix_memalign failed" size alignment answer v h
allocate_on-IsAccurate tbb_scalable size alignment answer v h = failure-IsAccurate v
allocate_on-IsAccurate mimalloc size alignment answer v h = failure-IsAccurate v
allocate_on-IsAccurate (unnamed n) size alignment answer v h = failure-IsAccurate v

pub deallocate-IsAccurate :
    {s : SystemAllocator} (ptr : ℕ) → IsAccurate s → IsAccurate (deallocate s ptr).1
unfolding deallocate
deallocate-IsAccurate ptr v = elim (Bool-cases (ptr == 0)) [
  | inl null ↦ simp (null) v
  | inr block ↦ simp (block) (record_deallocate-IsAccurate ptr v)
]

pub call-IsAccurate :
    {s : SystemAllocator} (c : Call) → IsAccurate s → IsHonest s c → IsAccurate (call s c)
unfolding call reset_stats set_backend
call-IsAccurate {s} (allocates size alignment answer) v h =
    allocate_on-IsAccurate s.backend size alignment answer v h
call-IsAccurate (frees ptr) v h = deallocate-IsAccurate ptr v
call-IsAccurate {s} resets v h =
    let whole : total s.alloc_sizes % 2 ^ 64 ≡ total s.alloc_sizes =
      omega (arith, v.in_use, v.fits) in
    record { in_use = whole; fits = omega (arith, whole, v.in_use, v.fits); peak = omega arith }
call-IsAccurate (switches system) v h = record { in_use = v.in_use; fits = v.fits; peak = v.peak }
call-IsAccurate (switches tbb_scalable) v h = v
call-IsAccurate (switches mimalloc) v h = v
call-IsAccurate (switches (unnamed n)) v h = v

-- After any history of allocations, deallocations, statistics resets and backend switches the byte
-- counter is the sum of the sizes of the blocks in the table, and the peak is at least that, if
-- the counters were so before and `posix_memalign` answers as documented.
pub run-IsAccurate :
    {s : SystemAllocator} (calls : List Call)
    → IsAccurate s
    → AreHonest s calls
    → IsAccurate (run s calls)
unfolding run AreHonest
run-IsAccurate [] v h = v
run-IsAccurate {s} (c ∷ cs) v h = run-IsAccurate {s = call s c} cs (call-IsAccurate c v h.0) h.1
