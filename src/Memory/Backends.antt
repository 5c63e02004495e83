-- ===== src/Memory/Backends.antt =====
-- The classes behind IAllocator: SystemAllocator, and those of src/memory/mimalloc_allocator.cpp and
-- src/memory/tbb_allocator.cpp, which keep the same books over another C library.
use corekit.Base.{ℕ, Option}
use corekit.Api.Status.{Status, Result, status_ok, unsupported}
use corekit.Memory.System.{
  AllocBackend, system, tbb_scalable, mimalloc, unnamed, ck_memory, SystemAllocator,
  new_system_allocator, allocate_checked, allocate,
}

-- An allocator: its class, and its books.
pub record Allocator : Type 0 where
  pub kind : AllocBackend
  pub books : SystemAllocator

abbrev pub mimalloc_allocate : SystemAllocator → ℕ → ℕ → Option ℕ → Result ℕ × SystemAllocator
mimalloc_allocate s size alignment answer =
    allocate_checked "mi_malloc_aligned failed" s size alignment answer

abbrev pub tbb_allocate : SystemAllocator → ℕ → ℕ → Option ℕ → Result ℕ × SystemAllocator
tbb_allocate s size alignment answer =
    allocate_checked "scalable_aligned_malloc failed" s size alignment answer

abbrev pub mimalloc_set_backend : AllocBackend → Status
mimalloc_set_backend mimalloc = status_ok
mimalloc_set_backend _ = ck_memory unsupported "MimallocAllocator only supports kMimalloc backend"

abbrev pub tbb_set_backend : AllocBackend → Status
tbb_set_backend tbb_scalable = status_ok
tbb_set_backend _ = ck_memory unsupported "TbbAllocator only supports kTbbScalable backend"

-- No allocator is of another class than the three.
abbrev pub books_allocate :
    AllocBackend → SystemAllocator → ℕ → ℕ → Option ℕ → Result ℕ × SystemAllocator
books_allocate system s size alignment answer = allocate s size alignment answer
books_allocate mimalloc s size alignment answer = mimalloc_allocate s size alignment answer
books_allocate (unnamed n) s size alignment answer = allocate s size alignment answer
books_allocate tbb_scalable s size alignment answer = tbb_allocate s size alignment answer

abbrev pub new_allocator : AllocBackend → Allocator
new_allocator kind = record { kind = kind; books = new_system_allocator }
