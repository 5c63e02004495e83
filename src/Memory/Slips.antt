-- ===== src/Memory/Slips.antt =====
-- What single calls on a `BasicObjectPoolImpl` do: how much `Trim` leaves, and what a release leaves
-- when the insertion into `free_set_` throws.
use corekit.Base.{
  ℕ, zero, suc, ◌+◌, ◌≤◌, ◌<◌, min, ◌≡◌, inl, inr, refl, ap, ◌∙◌, true, false, some, [], ◌∷◌, ◌++◌,
  length, length-append, ltb, leb, ◌==◌, Bool-cases, arith,
}
use mathlib.Core.Logic.{◌≢◌}
use corekit.Api.Status.{value, is_ok}
use corekit.Base.Count.{absent-count, count, count-absent, mem}
use corekit.Memory.ObjectPool.{
  Objects, split_back, ObjectPool, Creation, destroy_one, erase_from_all, Done, acquire_from,
  acquire, set_throws, file_object, release_object, trim_last, trim_loop, trim,
}
use corekit.Memory.Count.{split_back-cases}
use corekit.Memory.Pooled.{Shares}

trim_last-length :
    (pool : ObjectPool)
    → 0 < length pool.free
    → length (trim_last (split_back pool.free) pool).free + 1 ≡ length pool.free
unfolding trim_last destroy_one erase_from_all
trim_last-length pool h = elim (split_back-cases pool.free) [
  | inl (e, none_left) ↦ absurd (omega (arith, ap length e))
  | inr (ys, y, e, last) ↦ simp (last) (omega (arith, ap length e, length-append ys (y ∷ [])))
]

trim_loop-length :
    (fuel keep_free : ℕ) (pool : ObjectPool)
    → length pool.free ≤ fuel + keep_free
    → length (trim_loop fuel keep_free pool).free ≡ min keep_free (length pool.free)
unfolding trim_loop
trim_loop-length zero keep_free pool h = omega arith
trim_loop-length (suc fuel) keep_free pool h =
    elim (Bool-cases (ltb keep_free (length pool.free))) [
      | inr enough ↦
          let small : length pool.free ≤ keep_free = ground arith in simp (enough) (omega arith)
      | inl more ↦
          let above : keep_free < length pool.free = ground arith in
          let one = trim_last-length pool (omega arith) in
          let rest =
            trim_loop-length fuel keep_free (trim_last (split_back pool.free) pool) (omega arith) in
          simp (more) (omega (arith, rest, one))
    ]

-- `Trim(n)` ends, and leaves n free objects, or as many as there were if those were fewer.
pub trim-length :
    (pool : ObjectPool) (keep_free : ℕ)
    → length (trim keep_free pool).1.free ≡ min keep_free (length pool.free)
trim-length pool keep_free = trim_loop-length (length pool.free) keep_free pool (omega arith)

split_back-push : (xs : Objects) (q : ℕ) → split_back (xs ++ q ∷ []) ≡ some (xs, q)
unfolding split_back
split_back-push [] q = refl
split_back-push (x ∷ xs) q = simp (split_back-push xs q) refl

present : (xs : Objects) (q : ℕ) → 0 < count xs q → mem xs q ≡ true
present xs q h = elim (Bool-cases (mem xs q)) [
  | inl there ↦ there
  | inr gone ↦ absurd (omega (arith, absent-count xs q gone))
]

-- Where a client releases an object that it holds to a pool with room, and the insertion into
-- `free_set_` throws, the release fails, and still the next `Acquire` hands out this object.
pub release_object-shared :
    {pool : ObjectPool} {held : Objects} (q : ℕ) (creation : Creation) (done : Done)
    → Shares pool held
    → 0 < count held q
    → q ≢ 0
    → length pool.free < pool.max_cached
    → (is_ok (release_object pool q set_throws).0 ≡ false)
      × ((acquire (release_object pool q set_throws).1 creation done).0 ≡ value q)
unfolding release_object file_object acquire_from
release_object-shared {pool} q creation done v h object room =
    let ours : mem pool.all_set q ≡ true =
      ap (λ s. mem s q) v.all_set ∙ present pool.all q (omega (arith, v.shared q)) in
    let out : mem pool.free_set q ≡ false =
      ap (λ s. mem s q) v.free_set
      ∙ count-absent pool.free q (omega (arith, v.shared q, v.once q)) in
    let not_null : (q == 0) ≡ false = ground arith in
    let not_full : leb pool.max_cached (length pool.free) ≡ false = ground arith in
    simp (not_null, ours, out, not_full) (refl, simp (split_back-push pool.free q) refl)
