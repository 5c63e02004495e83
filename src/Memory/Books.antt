-- ===== src/Memory/Books.antt =====
-- What the calls of an allocator, of whichever class, do to its books.
use corekit.Base.{
  ℕ, ◌<◌, ◌≡◌, refl, sym, ◌∙◌, subst, not, ◌||◌, Option, none, some, [], ◌∷◌, String, ltb, ◌==◌,
  if◌then◌else◌, Bool-cases, inl, inr, arith,
}
use corekit.Base.Branch.{if-both}
use corekit.Api.Status.{Result}
use corekit.Memory.System.{
  AllocBackend, system, tbb_scalable, mimalloc, unnamed, Sizes, assign, erase, SystemAllocator,
  is_power_of_two, allocated, allocate_checked, allocate_on, deallocate, record_alloc_success,
  record_deallocate, reset_stats,
}
use corekit.Memory.Live.{
  allocates, resets, IsHonest, allocate_checked-IsAccurate, deallocate-IsAccurate, call-IsAccurate,
  call,
}
use corekit.Memory.Backends.{books_allocate}
use corekit.Memory.Held.{HasBytes, IsKept}

HasBytes-assign :
    (xs : Sizes) (ptr size : ℕ) → 0 < size → HasBytes xs → HasBytes (assign xs ptr size)
unfolding assign
HasBytes-assign [] ptr size h all = (h, tt)
HasBytes-assign ((p, n) ∷ xs) ptr size h all =
    if-both HasBytes (p == ptr) (λ _. (h, all.1))
      (λ _. (all.0, HasBytes-assign xs ptr size h all.1))

HasBytes-erase : (xs : Sizes) (ptr : ℕ) → HasBytes xs → HasBytes (erase xs ptr)
unfolding erase
HasBytes-erase [] ptr all = tt
HasBytes-erase ((p, n) ∷ xs) ptr all =
    if-both HasBytes (p == ptr) (λ _. all.1) (λ _. (all.0, HasBytes-erase xs ptr all.1))

-- The table behind an allocation.
abbrev pub put_answer : Sizes → ℕ → Option ℕ → Sizes
put_answer xs size none = xs
put_answer xs size (some ptr) = assign xs ptr size

unfoldable pub table_after : Sizes → ℕ → ℕ → Option ℕ → Sizes
table_after xs size alignment answer =
    if size == 0
    then xs
    else if ltb alignment 8 || not (is_power_of_two alignment)
    then xs
    else put_answer xs size answer

-- The books behind an allocation from those.
record Booked (s : SystemAllocator) (size alignment : ℕ) (answer : Option ℕ)
    (out : Result ℕ × SystemAllocator) : Type 0 where
  own : out.1.backend ≡ s.backend
  table : out.1.alloc_sizes ≡ table_after s.alloc_sizes size alignment answer

allocated-table :
    (failed : String) (s : SystemAllocator) (size : ℕ) (answer : Option ℕ)
    → (allocated failed s size answer).1.alloc_sizes ≡ put_answer s.alloc_sizes size answer
unfolding allocated record_alloc_success
allocated-table failed s size none = refl
allocated-table failed s size (some ptr) = refl

allocated-own :
    (failed : String) (s : SystemAllocator) (size : ℕ) (answer : Option ℕ)
    → (allocated failed s size answer).1.backend ≡ s.backend
unfolding allocated record_alloc_success
allocated-own failed s size none = refl
allocated-own failed s size (some ptr) = refl

allocate_checked-Booked :
    (failed : String) (s : SystemAllocator) (size alignment : ℕ) (answer : Option ℕ)
    → Booked s size alignment answer (allocate_checked failed s size alignment answer)
unfolding allocate_checked table_after
allocate_checked-Booked failed s size alignment answer = elim (Bool-cases (size == 0)) [
  | inl zero_size ↦ record { own = simp (zero_size) refl; table = simp (zero_size) refl }
  | inr positive ↦ elim (Bool-cases (ltb alignment 8 || not (is_power_of_two alignment))) [
    | inl odd ↦ record { own = simp (positive, odd) refl; table = simp (positive, odd) refl }
    | inr fine ↦ record {
      own = simp (positive, fine) (allocated-own failed s size answer);
      table = simp (positive, fine) (allocated-table failed s size answer);
    }
  ]
]

table_after-HasBytes :
    (xs : Sizes) (size alignment : ℕ) (answer : Option ℕ)
    → HasBytes xs
    → HasBytes (table_after xs size alignment answer)
unfolding table_after
table_after-HasBytes xs size alignment answer all =
    if-both HasBytes (size == 0) (λ _. all)
      (λ positive.
        if-both HasBytes (ltb alignment 8 || not (is_power_of_two alignment)) (λ _. all)
          (λ _. put_answer-HasBytes answer (ground arith)))
  where
    put_answer-HasBytes : (answer : Option ℕ) → 0 < size → HasBytes (put_answer xs size answer)
    put_answer-HasBytes none h = all
    put_answer-HasBytes (some ptr) h = HasBytes-assign xs ptr size h all

-- The books are kept, and the table is the one behind the call.
abbrev pub Stands : Sizes → SystemAllocator → Type 0
Stands xs s = IsKept s × (s.alloc_sizes ≡ xs)

allocate_checked-Stands :
    (failed : String) {s : SystemAllocator} (size alignment : ℕ) (answer : Option ℕ)
    → IsKept s
    → IsHonest s (allocates size alignment answer)
    → Stands
        (table_after s.alloc_sizes size alignment answer)
        (allocate_checked failed s size alignment answer).1
allocate_checked-Stands failed {s} size alignment answer k honest =
    let b = allocate_checked-Booked failed s size alignment answer in
    (
      record {
        own = b.own ∙ k.own;
        accurate = allocate_checked-IsAccurate failed size alignment answer k.accurate honest;
        sizes =
            subst HasBytes (sym b.table)
              (table_after-HasBytes s.alloc_sizes size alignment answer k.sizes);
      },
      b.table,
    )

pub books_allocate-Stands :
    (kind : AllocBackend) {s : SystemAllocator} (size alignment : ℕ) (answer : Option ℕ)
    → IsKept s
    → IsHonest s (allocates size alignment answer)
    → Stands
        (table_after s.alloc_sizes size alignment answer)
        (books_allocate kind s size alignment answer).1
unfolding allocate_on
books_allocate-Stands system {s} size alignment answer k honest =
    subst
      (λ b.
        Stands (table_after s.alloc_sizes size alignment answer)
          (allocate_on b s size alignment answer).1)
      (sym k.own) (allocate_checked-Stands "posix_memalign failed" size alignment answer k honest)
books_allocate-Stands (unnamed n) {s} size alignment answer k honest =
    subst
      (λ b.
        Stands (table_after s.alloc_sizes size alignment answer)
          (allocate_on b s size alignment answer).1)
      (sym k.own) (allocate_checked-Stands "posix_memalign failed" size alignment answer k honest)
books_allocate-Stands mimalloc size alignment answer k honest =
    allocate_checked-Stands "mi_malloc_aligned failed" size alignment answer k honest
books_allocate-Stands tbb_scalable size alignment answer k honest =
    allocate_checked-Stands "scalable_aligned_malloc failed" size alignment answer k honest

-- The table behind a deallocation; 0 is the null pointer.
unfoldable pub table_without : Sizes → ℕ → Sizes
table_without xs ptr = if ptr == 0 then xs else erase xs ptr

pub deallocate-Stands :
    {s : SystemAllocator} (ptr : ℕ)
    → IsKept s
    → Stands (table_without s.alloc_sizes ptr) (deallocate s ptr).1
unfolding deallocate record_deallocate table_without
deallocate-Stands {s} ptr k = elim (Bool-cases (ptr == 0)) [
  | inl null ↦ simp (null) (k, refl)
  | inr block ↦
      let accurate = deallocate-IsAccurate ptr k.accurate in
      (
        record {
          own = simp (block) (k.own);
          accurate = accurate;
          sizes = simp (block) (HasBytes-erase s.alloc_sizes ptr k.sizes);
        },
        simp (block) refl,
      )
]

pub reset_stats-Stands : {s : SystemAllocator} → IsKept s → Stands s.alloc_sizes (reset_stats s)
unfolding reset_stats call IsHonest
reset_stats-Stands k =
    (record { own = k.own; accurate = call-IsAccurate resets k.accurate tt; sizes = k.sizes }, refl)
