-- ===== src/Task/Log.antt =====
-- What the log of a run says: each node is called once, behind all that it waits for.
use corekit.Base.{
  ℕ, ◌+◌, ◌≤◌, ◌<◌, ◌≡◌, ◌⊎◌, sym, ap, ◌∙◌, subst, Bool, false, some, List, [], ◌∷◌, ◌++◌, length,
  append-nil, append_assoc,
}
use corekit.Base.Count.{count}
use corekit.Api.Status.{value}
use corekit.Task.Table.{keys}
use corekit.Task.Graph.{SimpleTaskGraph, targets}
use corekit.Task.Levels.{failures}
use corekit.Task.Run.{GraphRunOptions, GraphRunStats, Ran}

-- The nodes of a log, in order.
abbrev pub flatten : List (List ℕ) → List ℕ
flatten [] = []
flatten (l ∷ ls) = l ++ flatten ls

-- Each node of a level stands behind all that it waits for: in `seen`, or in an earlier level.
abbrev pub Layered : (ℕ → List ℕ) → List ℕ → List (List ℕ) → Type 0
Layered out seen [] = Unit
Layered out seen (l ∷ ls) =
    ((u v : ℕ) → 0 < count l v → 0 < count (out u) v → 0 < count seen u)
    × Layered out (seen ++ l) ls

pub flatten-push : (ls : List (List ℕ)) (l : List ℕ) → flatten (ls ++ l ∷ []) ≡ flatten ls ++ l
flatten-push [] l = append-nil l
flatten-push (k ∷ ls) l = ap (◌++◌ k) (flatten-push ls l) ∙ sym (append_assoc k (flatten ls) l)

pub Layered-push :
    (out : ℕ → List ℕ) (seen : List ℕ) (ls : List (List ℕ)) (l : List ℕ)
    → Layered out seen ls
    → ((u v : ℕ) → 0 < count l v → 0 < count (out u) v → 0 < count (seen ++ flatten ls) u)
    → Layered out seen (ls ++ l ∷ [])
Layered-push out seen [] l o backed =
    (λ u v h e. subst (λ s. 0 < count s u) (append-nil seen) (backed u v h e), tt)
Layered-push out seen (k ∷ ls) l o backed = (
  o.0,
  Layered-push out (seen ++ k) ls l o.1 (λ u v h e.
      subst (λ s. 0 < count s u) (sym (append_assoc seen k (flatten ls))) (backed u v h e)),
)

-- What a run did, by its log.
pub record Executes (g : SimpleTaskGraph) (throws : ℕ → Bool) (options : GraphRunOptions)
    (out : Ran) : Type 0 where
  pub stats : GraphRunStats
  pub result : out.result ≡ some (value stats)
  pub layered : Layered (targets g.edges) [] out.log
  pub nodes : (v : ℕ) → count (flatten out.log) v ≤ count (keys g.nodes) v
  pub failed : stats.failed ≡ failures throws (flatten out.log)
  pub called : stats.succeeded + stats.failed ≡ length (flatten out.log)
  pub total : stats.total ≡ length g.nodes
  pub canceled : stats.canceled + length (flatten out.log) ≡ length g.nodes
  pub whole :
      (stats.failed ≡ 0) ⊎ (options.fail_fast ≡ false)
      → (v : ℕ) → count (flatten out.log) v ≡ count (keys g.nodes) v
