-- ===== src/Pool/Canceled.antt =====
-- TryCancel, called twice.
use corekit.Base.{ℕ, ◌+◌, ◌%◌, ◌^◌, ◌≡◌, refl, true, false, ◌==◌, arith}
use corekit.Base.Count.{mem}
use corekit.Api.Status.{status_ok}
use corekit.Pool.State.{ThreadPool}
use corekit.Pool.Submit.{try_cancel}

-- Two calls of TryCancel in a row for a task that has not started both succeed, and the statistics
-- count two canceled tasks.
pub try_cancel-twice :
    (p : ThreadPool) (id : ℕ)
    → mem p.states id ≡ true
    → (p.objects id).started ≡ false
    → (p.objects id).done ≡ false
    → ((try_cancel p id).0 ≡ status_ok)
      × ((try_cancel (try_cancel p id).1 id).0 ≡ status_ok)
      × ((try_cancel (try_cancel p id).1 id).1.stats.canceled ≡ (p.stats.canceled + 2) % 2 ^ 64)
unfolding try_cancel
try_cancel-twice p id known idle open_still =
    let here : (id == id) ≡ true = ground arith in
    (
      simp (known, idle, open_still) refl,
      simp (known, idle, open_still, here) refl,
      simp (known, idle, open_still, here) (omega arith),
    )
