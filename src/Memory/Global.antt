-- ===== src/Memory/Global.antt =====
-- src/memory/global_allocator.cpp. Which backends a build has is an argument, and so are the answers of
-- the C libraries and of the JSON library.
use text.Mathlib.Text.{◌==◌}
use corekit.Base.{
  ℕ, Bool, true, false, ◌||◌, ltb, leb, ◌&&◌, Option, none, some, String, if◌then◌else◌,
}
use corekit.Api.Status.{
  Status, Result, value, error, status_ok, invalid_argument, would_block, unsupported,
}
use corekit.Memory.System.{
  AllocBackend, system, tbb_scalable, mimalloc, unnamed, ck_memory, SystemAllocator, reset_stats,
  deallocate,
}
use corekit.Memory.Backends.{Allocator, new_allocator, books_allocate}

pub record GlobalAllocatorOptions : Type 0 where
  pub backend : AllocBackend
  pub strict_backend : Bool

pub record GlobalState : Type 0 where
  pub allocator : Option Allocator
  pub options : GlobalAllocatorOptions

abbrev pub initial_state : GlobalState
initial_state = record {
  allocator = some (new_allocator system);
  options = record { backend = system; strict_backend = true };
}

abbrev pub same_backend : AllocBackend → AllocBackend → Bool
same_backend system system = true
same_backend tbb_scalable tbb_scalable = true
same_backend mimalloc mimalloc = true
same_backend (unnamed m) (unnamed n) = leb m n && leb n m
same_backend _ _ = false

abbrev pub ensured : GlobalState → Option Allocator → Allocator × GlobalState
ensured g (some a) = (a, g)
ensured g none = (
  new_allocator system,
  record g {
    allocator = some (new_allocator system);
    options = record (g.options) { backend = system };
  },
)

unfoldable pub ensure_allocator_locked : GlobalState → Allocator × GlobalState
ensure_allocator_locked g = ensured g g.allocator

unfoldable pub parse_backend : String → Result AllocBackend
parse_backend v =
    if v == "system"
    then value system
    else if (v == "tbb") || (v == "tbb_scalable") || (v == "tbbscalable")
    then value tbb_scalable
    else if (v == "mimalloc") || (v == "mi")
    then value mimalloc
    else error (ck_memory invalid_argument "memory.backend is invalid")

abbrev pub backend_display_name : AllocBackend → String
backend_display_name system = "system"
backend_display_name mimalloc = "mimalloc"
backend_display_name tbb_scalable = "tbb"
backend_display_name (unnamed n) = "unknown"

abbrev pub no_backend : Status
no_backend = ck_memory unsupported "Requested backend is not enabled in this build"

-- `built` says which of the optional backends are compiled in.
module _ (built : AllocBackend → Bool) where
  abbrev pub is_backend_enabled : AllocBackend → Bool
  is_backend_enabled system = true
  is_backend_enabled mimalloc = built mimalloc
  is_backend_enabled tbb_scalable = built tbb_scalable
  is_backend_enabled (unnamed n) = false

  unfoldable pub create_allocator : AllocBackend → Result Allocator
  create_allocator system = value (new_allocator system)
  create_allocator mimalloc =
      if built mimalloc then value (new_allocator mimalloc) else error no_backend
  create_allocator tbb_scalable =
      if built tbb_scalable then value (new_allocator tbb_scalable) else error no_backend
  create_allocator (unnamed n) = error no_backend

  -- What follows a failed creation without `strict_backend`.
  abbrev pub fall_back :
      GlobalState → GlobalAllocatorOptions → Result Allocator → Status × GlobalState
  fall_back g o (error st) = (st, g)
  fall_back g o (value a) =
      (status_ok, record { allocator = some a; options = record o { backend = system } })

  unfoldable pub switch_to :
      GlobalState → GlobalAllocatorOptions → Result Allocator → Status × GlobalState
  unfolding create_allocator
  switch_to g o (value a) = (status_ok, record { allocator = some a; options = o })
  switch_to g o (error st) =
      if o.strict_backend then (st, g) else fall_back g o (create_allocator system)

  unfoldable pub configure_current :
      Allocator × GlobalState → GlobalAllocatorOptions → Status × GlobalState
  unfolding switch_to
  configure_current (current, g) o =
      if same_backend o.backend g.options.backend
      then (status_ok, record g { options = o })
      else if ltb 0 current.books.bytes_in_use
      then (ck_memory would_block "cannot switch allocator backend while memory is still in use", g)
      else switch_to g o (create_allocator o.backend)

  unfoldable pub configure : GlobalState → GlobalAllocatorOptions → Status × GlobalState
  unfolding ensure_allocator_locked configure_current
  configure g o = configure_current (ensure_allocator_locked g) o

abbrev pub with_books : GlobalState → Allocator → SystemAllocator → GlobalState
with_books g a s = record g { allocator = some (record a { books = s }) }

unfoldable pub global_allocate : GlobalState → ℕ → ℕ → Option ℕ → Result ℕ × GlobalState
unfolding ensure_allocator_locked
global_allocate g size alignment answer =
    let current = ensure_allocator_locked g in
    let out = books_allocate current.0.kind current.0.books size alignment answer in
    (out.0, with_books current.1 current.0 out.1)

unfoldable pub global_deallocate : GlobalState → ℕ → Status × GlobalState
unfolding ensure_allocator_locked
global_deallocate g ptr =
    let current = ensure_allocator_locked g in
    let out = deallocate current.0.books ptr in (out.0, with_books current.1 current.0 out.1)

unfoldable pub reset_current_stats : GlobalState → GlobalState
unfolding ensure_allocator_locked
reset_current_stats g =
    let current = ensure_allocator_locked g in
    with_books current.1 current.0 (reset_stats current.0.books)

abbrev pub current_backend : GlobalState → AllocBackend
current_backend g = g.options.backend

unfoldable pub current_backend_name : GlobalState → String × GlobalState
unfolding ensure_allocator_locked
current_backend_name g =
    let current = ensure_allocator_locked g in (backend_display_name current.0.kind, current.1)

unfoldable pub current_stats : GlobalState → SystemAllocator × GlobalState
unfolding ensure_allocator_locked
current_stats g = let current = ensure_allocator_locked g in (current.0.books, current.1)
