-- ===== src/Memory/Tests.antt =====
-- The allocator and the object pool on concrete histories.
use corekit.Base.{◌<◌, ◌≡◌, refl, min, false, none, some, List, [], ◌∷◌, length, arith}
use corekit.Api.Status.{value, is_ok, make_error_code}
use corekit.Base.Count.{count, mem}
use corekit.Memory.System.{
  new_system_allocator, tbb_scalable, find, assign, erase, total, allocate_on, allocate_checked,
  allocated, record_alloc_success, record_deallocate, deallocate, reset_stats, set_backend,
  is_power_of_two,
}
use corekit.Memory.Live as Live
use corekit.Memory.Live.{IsAccurate, run-IsAccurate}
use corekit.Memory.ObjectPool.{
  ObjectPool, new_pool, remove, insert, split_back, created, constructor_throws, create_one,
  destroy_one, erase_from_all, all_done, in_all, in_all_set, inserted, undo_reserve, reserve_one,
  reserve, acquire_new, acquire_from, acquire, filed, vector_throws, set_throws, file_object,
  release_object, trim_last, trim_loop, trim, destroy_each, clear_pool,
}
use corekit.Memory.Pooled.{Shares}
use corekit.Memory.Clients as Clients
use corekit.Memory.Clients.{
  Call, reserves, acquires, releases, trims, clears, run, call, IsFresh, AreFresh, IsRegular,
  AreRegular,
}
use corekit.Memory.Owned.{run-Shares}
use corekit.Memory.Slips.{trim-length, release_object-shared}

-- Two blocks, a bad size, a bad alignment, a foreign address, and a reset.
abbrev blocks : List Live.Call
blocks =
    Live.allocates 24 8 (some 4096)
    ∷ Live.allocates 0 8 none
    ∷ Live.allocates 100 24 none
    ∷ Live.allocates 100 64 (some 8192)
    ∷ Live.frees 4096
    ∷ Live.resets
    ∷ Live.switches tbb_scalable
    ∷ Live.frees 77
    ∷ []

fresh-IsAccurate : IsAccurate new_system_allocator
unfolding total
fresh-IsAccurate = record { in_use = refl; fits = omega arith; peak = omega arith }

blocks-AreHonest : Live.AreHonest new_system_allocator blocks
unfolding Live.AreHonest Live.IsHonest Live.call find assign erase total allocate_on
    allocate_checked allocated record_alloc_success record_deallocate deallocate reset_stats
    set_backend is_power_of_two
blocks-AreHonest =
    ((refl, omega arith), (tt, (tt, ((refl, omega arith), (tt, (tt, (tt, (tt, tt))))))))

run-IsAccurate_example : IsAccurate (Live.run new_system_allocator blocks)
run-IsAccurate_example = run-IsAccurate blocks fresh-IsAccurate blocks-AreHonest

-- A pool that keeps one object: two are reserved, the third fails half way, and three are used.
abbrev uses : List Call
uses =
    reserves ((created 16, all_done) ∷ (created 32, all_done) ∷ (created 48, in_all) ∷ [])
    ∷ acquires (created 48) all_done
    ∷ acquires constructor_throws all_done
    ∷ acquires (created 48) in_all_set
    ∷ releases 32 vector_throws
    ∷ releases 16 filed
    ∷ releases 16 filed
    ∷ releases 99 filed
    ∷ releases 48 filed
    ∷ clears
    ∷ trims 0
    ∷ []

abbrev start : Clients.Clients
start = record { pool = new_pool 1; held = [] }

start-Shares : Shares start.pool start.held
unfolding count
start-Shares = record {
  all_set = refl;
  free_set = refl;
  heap = refl;
  shared = λ x. refl;
  once = λ x. omega arith;
  lengths = refl;
}

pool_steps : Unit {0}
unfolding AreRegular IsRegular AreFresh IsFresh run call count mem remove insert split_back
    create_one destroy_one erase_from_all inserted undo_reserve reserve_one reserve acquire_new
    acquire_from file_object release_object trim_last trim_loop destroy_each clear_pool
    make_error_code
pool_steps = tt

uses-AreRegular : AreRegular start uses
unfolding pool_steps
uses-AreRegular = (
  (refl, (refl, (refl, tt))),
  (refl, (tt, (refl, (refl, (refl, (refl, (refl, (refl, (tt, (tt, tt)))))))))),
)

uses-leave : ((run start uses).pool.heap ≡ 32 ∷ []) × ((run start uses).held ≡ 32 ∷ [])
unfolding pool_steps
uses-leave = (refl, refl)

run-Shares_example : Shares (run start uses).pool (run start uses).held
run-Shares_example = run-Shares {s = start} uses start-Shares uses-AreRegular

abbrev three_free : ObjectPool
three_free = record {
  max_cached = 8;
  all = 16 ∷ 32 ∷ 48 ∷ [];
  free = 16 ∷ 32 ∷ 48 ∷ [];
  all_set = 16 ∷ 32 ∷ 48 ∷ [];
  free_set = 16 ∷ 32 ∷ 48 ∷ [];
  heap = 16 ∷ 32 ∷ 48 ∷ [];
}

trim-length_example : length (trim 1 three_free).1.free ≡ min 1 3
trim-length_example = trim-length three_free 1

-- One object, held.
abbrev one_held : ObjectPool
one_held = record {
  max_cached = 8;
  all = 16 ∷ [];
  free = [];
  all_set = 16 ∷ [];
  free_set = [];
  heap = 16 ∷ [];
}

one_held-Shares : Shares one_held (16 ∷ [])
unfolding count
one_held-Shares = record {
  all_set = refl;
  free_set = refl;
  heap = refl;
  shared = λ x. omega arith;
  once = λ x. ground arith;
  lengths = refl;
}

held_once : 0 < count (16 ∷ []) 16
unfolding count
held_once = omega arith

release_object-shared_example :
    (is_ok (release_object one_held 16 set_throws).0 ≡ false)
    × ((acquire (release_object one_held 16 set_throws).1 (created 32) all_done).0 ≡ value 16)
release_object-shared_example =
    release_object-shared 16 (created 32) all_done one_held-Shares held_once (omega arith)
      (omega arith)
