-- ===== src/Memory/Clients.antt =====
-- A pool and its clients: histories of calls on `BasicObjectPoolImpl`.
use corekit.Base.{ℕ, ◌≡◌, Bool, true, false, List, [], ◌∷◌, ◌++◌, if◌then◌else◌}
use corekit.Api.Status.{Result, value, error, is_ok}
use corekit.Base.Count.{count}
use corekit.Memory.ObjectPool.{
  Objects, remove, ObjectPool, Creation, created, Done, reserve_one, reserve, acquire, Filing,
  set_throws, release_object, trim, clear_pool,
}

pub data Call : Type 0 where
  reserves : List (Creation × Done) → Call
  acquires : Creation → Done → Call
  releases : ℕ → Filing → Call
  trims : ℕ → Call
  clears : Call

-- The pool, and the objects that the clients hold.
pub record Clients : Type 0 where
  pub pool : ObjectPool
  pub held : Objects

abbrev pub handed : Result ℕ → Objects → Objects
handed (value q) held = held ++ q ∷ []
handed (error st) held = held

unfoldable pub call : Clients → Call → Clients
call s (reserves rounds) = record s { pool = (reserve s.pool rounds).1 }
call s (acquires creation done) =
    let out = acquire s.pool creation done in record { pool = out.1; held = handed out.0 s.held }
call s (releases q filing) =
    let out = release_object s.pool q filing in
    record { pool = out.1; held = if is_ok out.0 then remove s.held q else s.held }
call s (trims keep_free) = record s { pool = (trim keep_free s.pool).1 }
call s clears = record s { pool = (clear_pool s.pool).1 }

unfoldable pub run : Clients → List Call → Clients
run s [] = s
run s (c ∷ cs) = run (call s c) cs

-- The allocator gives no address of an object that lives.
unfoldable pub IsFresh : ObjectPool → Creation → Type 0
IsFresh pool (created q) = count pool.heap q ≡ 0
IsFresh pool _ = Unit

unfoldable pub AreFresh : ObjectPool → List (Creation × Done) → Type 0
AreFresh pool [] = Unit
AreFresh pool ((creation, done) ∷ rounds) =
    IsFresh pool creation × AreFresh (reserve_one pool creation done).1 rounds

abbrev pub set_keeps : Filing → Bool
set_keeps set_throws = false
set_keeps _ = true

-- New objects are fresh, and no insertion into `free_set_` throws in `ReleaseObject`.
unfoldable pub IsRegular : Clients → Call → Type 0
IsRegular s (reserves rounds) = AreFresh s.pool rounds
IsRegular s (acquires creation done) = IsFresh s.pool creation
IsRegular s (releases q filing) = set_keeps filing ≡ true
IsRegular s _ = Unit

unfoldable pub AreRegular : Clients → List Call → Type 0
AreRegular s [] = Unit
AreRegular s (c ∷ cs) = IsRegular s c × AreRegular (call s c) cs
