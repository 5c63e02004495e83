-- ===== src/Memory/GlobalTests.antt =====
-- Histories of src/memory/global_allocator.cpp, and the theorems at them.
use text.Mathlib.Text.{◌==◌}
use corekit.Base.{◌≡◌, refl, Bool, true, false, some, List, [], ◌∷◌, String, arith}
use corekit.Api.Status.{value, error, invalid_argument}
use corekit.Memory.System.{
  ck_memory, AllocBackend, system, tbb_scalable, mimalloc, unnamed, find, assign, erase, total,
  record_alloc_success, allocated, allocate_checked, allocate_on, record_deallocate, deallocate,
  reset_stats, is_power_of_two,
}
use corekit.Memory.Global.{
  GlobalState, initial_state, no_backend, ensure_allocator_locked, parse_backend,
  backend_display_name, create_allocator, switch_to, configure_current, configure, global_allocate,
  global_deallocate, reset_current_stats,
}
use corekit.Memory.Config.{
  JsonOps, memory_section, read_backend, read_strict, read_options, configure_from_file,
}
use corekit.Memory.Held.{IsConsistent, live, initial-IsConsistent}
use corekit.Memory.Books.{table_after, table_without}
use corekit.Memory.Reconfigured.{
  GlobalCall, wants, gives_back, configures, loads, ledger, ledgers, AreNew, global_call,
  global_run, global_run-ledgers,
}

-- A file that is no object, one that is an object with a text as its backend, or that text.
data Doc : Type 0 where
  bare : Doc
  naming : String → Doc
  words : String → Doc

abbrev backend_text : Doc → String
backend_text (words s) = s
backend_text (naming s) = s
backend_text bare = ""

abbrev is_naming : Doc → Bool
is_naming (naming s) = true
is_naming d = false

abbrev is_text : Doc → Bool
is_text (words s) = true
is_text d = false

abbrev asks_backend : String → Bool
asks_backend s = s == "backend"

abbrev doc_ops : JsonOps Doc
doc_ops = record {
  is_object = is_naming;
  contains = λ d s. asks_backend s;
  member = λ d s. words (backend_text d);
  is_string = is_text;
  get_string = backend_text;
  is_boolean = λ d. false;
  get_bool = λ d. false;
}

-- A build with mimalloc only.
abbrev with_mimalloc : AllocBackend → Bool
with_mimalloc mimalloc = true
with_mimalloc b = false

every_step : Unit {0}
unfolding find assign erase total record_alloc_success allocated allocate_checked allocate_on
    record_deallocate deallocate reset_stats is_power_of_two ensure_allocator_locked parse_backend
    create_allocator switch_to configure_current configure memory_section read_backend read_strict
    read_options configure_from_file global_allocate global_deallocate reset_current_stats
    table_after table_without ledger ledgers AreNew global_call global_run
every_step = tt

abbrev history : List (GlobalCall Doc)
history =
    loads (value (naming "mi"))
    ∷ wants 24 8 (some 4096)
    ∷ configures (record { backend = system; strict_backend = true })
    ∷ wants 16 8 (some 8192)
    ∷ gives_back 4096
    ∷ []

abbrev behind : GlobalState
behind = global_run doc_ops with_mimalloc initial_state history

behind_backend : behind.options.backend ≡ mimalloc
unfolding every_step
behind_backend = refl

behind_blocks : live behind ≡ (8192, 16) ∷ []
unfolding every_step
behind_blocks = refl

-- TBB is not in this build.
tbb_is_missing :
    (configure with_mimalloc initial_state
      (record { backend = tbb_scalable; strict_backend = true })).0
    ≡ no_backend
unfolding every_step
tbb_is_missing = refl

history-AreNew : AreNew [] history
unfolding every_step
history-AreNew = (tt, ((refl, omega arith), (tt, ((refl, omega arith), (tt, tt)))))

global_run-ledgers_example : IsConsistent with_mimalloc behind × (live behind ≡ ledgers [] history)
global_run-ledgers_example =
    global_run-ledgers doc_ops with_mimalloc history (initial-IsConsistent with_mimalloc)
      history-AreNew

-- A backend that has no name is displayed as one that the configuration does not accept.
unknown_backend :
    parse_backend (backend_display_name (unnamed 9999))
    ≡ error (ck_memory invalid_argument "memory.backend is invalid")
unfolding every_step
unknown_backend = refl
