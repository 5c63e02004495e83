-- ===== src/Pool/Parallel.antt =====
-- ParallelFor of src/task/thread_pool_executor.cpp up to its wait, where no worker moves in between.
use corekit.Base.{ℕ, Bool, false, Option, none, some, List, [], ◌∷◌, ◌++◌, ltb, ◌==◌, if◌then◌else◌}
use corekit.Api.Status.{Status, value, error, status_ok, invalid_argument}
use corekit.Task.Graph.{ck_task}
use corekit.Pool.State.{default_submit, ThreadPool}
use corekit.Pool.Submit.{submit_ex}
use corekit.Pool.Chunks.{grain_of, chunks}

-- The submissions: the tasks to wait for, and the status of the one that fails, if one does.
unfoldable pub submit_ranges :
    ThreadPool → List (ℕ × ℕ) → List ℕ → (Option Status × List ℕ) × ThreadPool
submit_ranges p [] ids = ((none, ids), p)
submit_ranges p (range ∷ ranges) ids =
    let out = submit_ex p false default_submit in
    elim (out.0) [
      | error st ↦ ((some st, ids), out.1)
      | value id ↦ submit_ranges out.1 ranges (ids ++ id ∷ [])
    ]

-- What ParallelFor goes on to: it returns, it waits for tasks and then returns a status of its own,
-- if there is one, or it never comes out of its loop.
pub data Continues : Type 0 where
  returns : Status → Continues
  waits : List ℕ → Option Status → Continues
  spins : Continues

unfoldable pub parallel_for :
    (fuel : ℕ) → ThreadPool → (fn_is_empty : Bool) → (first last grain : ℕ) → Continues × ThreadPool
unfolding chunks submit_ranges
parallel_for fuel p fn_is_empty first last grain =
    if fn_is_empty
    then (returns (ck_task invalid_argument "fn is empty"), p)
    else if ltb last first
    then (returns (ck_task invalid_argument "end must be >= begin"), p)
    else if first == last
    then (returns status_ok, p)
    else elim (chunks fuel (grain_of grain) first last) [
      | none ↦ (spins, p)
      | some ranges ↦ let out = submit_ranges p ranges [] in (waits out.0.1 out.0.0, out.1)
    ]
