-- ===== src/Memory/Owned.antt =====
-- No history of calls gives an object to two clients, loses one, or destroys one that is held.
use corekit.Base.{
  ℕ, zero, suc, ◌<◌, ◌≡◌, inl, inr, refl, ap, ◌∙◌, true, List, [], ◌∷◌, length, ltb, leb, ◌==◌,
  if◌then◌else◌, Bool-cases, arith,
}
use corekit.Api.Status.{Status, is_ok}
use corekit.Base.Count.{count, mem}
use corekit.Memory.ObjectPool.{
  Objects, remove, split_back, ObjectPool, Creation, no_memory, constructor_throws, created,
  create_one, destroy_one, Done, reserve_one, reserve, acquire_new, acquire_from, acquire, Filing,
  filed, vector_throws, set_throws, file_object, release_object, trim_last, trim_loop, destroy_each,
  clear_pool,
}
use corekit.Memory.Count.{remove-head, split_back-cases}
use corekit.Memory.Undo.{reserve_one-Shares, acquire_new-created}
use corekit.Memory.Clients.{
  Call, reserves, acquires, releases, trims, clears, Clients, handed, call, run, IsFresh, AreFresh,
  set_keeps, IsRegular, AreRegular,
}
use corekit.Memory.Pooled.{
  Shares, reused-Shares, trimmed-Shares, is_held, filed-Shares, discarded-Shares,
}

reserve_round-Shares :
    {pool : ObjectPool} {held : Objects} (creation : Creation) (done : Done)
    → Shares pool held
    → IsFresh pool creation
    → Shares (reserve_one pool creation done).1 held
unfolding reserve_one create_one IsFresh
reserve_round-Shares no_memory done v fresh = v
reserve_round-Shares constructor_throws done v fresh = v
reserve_round-Shares (created q) done v fresh = reserve_one-Shares v q fresh done

reserve-Shares :
    {pool : ObjectPool} {held : Objects} (rounds : List (Creation × Done))
    → Shares pool held
    → AreFresh pool rounds
    → Shares (reserve pool rounds).1 held
unfolding reserve AreFresh
reserve-Shares [] v fresh = v
reserve-Shares {pool} {held} ((creation, done) ∷ rounds) v fresh =
    let round = reserve_round-Shares creation done v fresh.0 in
    elim (Bool-cases (is_ok (reserve_one pool creation done).0)) [
      | inl fine ↦
          simp (fine)
            (reserve-Shares {pool = (reserve_one pool creation done).1} rounds round fresh.1)
      | inr failed ↦ simp (failed) round
    ]

acquire_new-Shares :
    {pool : ObjectPool} {held : Objects} (creation : Creation) (done : Done)
    → Shares pool held
    → IsFresh pool creation
    → Shares (acquire_new pool creation done).1 (handed (acquire_new pool creation done).0 held)
unfolding IsFresh acquire_new create_one
acquire_new-Shares no_memory done v fresh = v
acquire_new-Shares constructor_throws done v fresh = v
acquire_new-Shares (created q) done v fresh = acquire_new-created v q fresh done

acquire-Shares :
    {pool : ObjectPool} {held : Objects} (creation : Creation) (done : Done)
    → Shares pool held
    → IsFresh pool creation
    → Shares (acquire pool creation done).1 (handed (acquire pool creation done).0 held)
unfolding acquire_from
acquire-Shares {pool} creation done v fresh = elim (split_back-cases pool.free) [
  | inl (e, none_left) ↦ simp (none_left) (acquire_new-Shares creation done v fresh)
  | inr (ys, y, e, last) ↦ simp (last) (reused-Shares v ys y e)
]

-- What a release leaves to its client.
abbrev kept : Status → ℕ → Objects → Objects
kept st q held = if is_ok st then remove held q else held

file-Shares :
    {pool : ObjectPool} {held : Objects} (q : ℕ) (filing : Filing)
    → Shares pool held
    → 0 < count held q
    → set_keeps filing ≡ true
    → Shares (file_object pool q filing).1 (kept (file_object pool q filing).0 q held)
unfolding file_object
file-Shares q filed v h keeps = filed-Shares v q h
file-Shares q vector_throws v h keeps = v
file-Shares q set_throws v h keeps = absurd cc

release-Shares :
    {pool : ObjectPool} {held : Objects} (q : ℕ) (filing : Filing)
    → Shares pool held
    → set_keeps filing ≡ true
    → Shares (release_object pool q filing).1 (kept (release_object pool q filing).0 q held)
unfolding release_object
release-Shares {pool} {held} q filing v keeps = elim (Bool-cases (q == 0)) [
  | inl null ↦ simp (null) v
  | inr object ↦ elim (Bool-cases (mem pool.all_set q)) [
    | inr foreign ↦ simp (object, foreign) v
    | inl ours ↦ elim (Bool-cases (mem pool.free_set q)) [
      | inl released ↦ simp (object, ours, released) v
      | inr out ↦
          let h = is_held v q ours out in
          elim (Bool-cases (leb pool.max_cached (length pool.free))) [
            | inl full ↦ simp (object, ours, out, full) (discarded-Shares v q h)
            | inr room ↦ simp (object, ours, out, room) (file-Shares q filing v h keeps)
          ]
    ]
  ]
]

trim_last-Shares :
    {pool : ObjectPool} {held : Objects}
    → Shares pool held
    → Shares (trim_last (split_back pool.free) pool) held
unfolding trim_last
trim_last-Shares {pool} v = elim (split_back-cases pool.free) [
  | inl (e, none_left) ↦ simp (none_left) v
  | inr (ys, y, e, last) ↦ simp (last) (trimmed-Shares v ys y e)
]

trim_loop-Shares :
    {pool : ObjectPool} {held : Objects} (fuel keep_free : ℕ)
    → Shares pool held
    → Shares (trim_loop fuel keep_free pool) held
unfolding trim_loop
trim_loop-Shares zero keep_free v = v
trim_loop-Shares {pool} (suc fuel) keep_free v =
    let rest =
      trim_loop-Shares {pool = trim_last (split_back pool.free) pool} fuel keep_free
        (trim_last-Shares v) in
    elim (Bool-cases (ltb keep_free (length pool.free))) [
      | inl more ↦ simp (more) rest
      | inr enough ↦ simp (enough) v
    ]

destroy_each-heap :
    (pool : ObjectPool) (xs : Objects) → pool.heap ≡ xs → (destroy_each xs pool).heap ≡ []
unfolding destroy_each destroy_one
destroy_each-heap pool [] e = e
destroy_each-heap pool (x ∷ xs) e =
    destroy_each-heap (record pool { heap = remove pool.heap x }) xs
      (ap (λ h. remove h x) e ∙ remove-head x xs)

no_length : (xs : Objects) → length xs ≡ 0 → xs ≡ []
no_length [] e = refl
no_length (x ∷ xs) e = absurd (omega arith)

clear-Shares :
    {pool : ObjectPool} {held : Objects} → Shares pool held → Shares (clear_pool pool).1 held
unfolding clear_pool count
clear-Shares {pool} {held} v = elim (Bool-cases (length pool.free == length pool.all)) [
  | inr out ↦ simp (out) v
  | inl idle ↦
      let none_out : held ≡ [] = no_length held (ground (arith, v.lengths)) in
      simp (idle) (record {
        all_set = refl;
        free_set = refl;
        heap = destroy_each-heap pool pool.all v.heap;
        shared = λ x. omega (arith, ap (λ h. count h x) none_out);
        once = λ x. omega arith;
        lengths = omega (arith, ap length none_out);
      })
]

call-Shares :
    {s : Clients} (c : Call)
    → Shares s.pool s.held
    → IsRegular s c
    → Shares (call s c).pool (call s c).held
unfolding call IsRegular
call-Shares (reserves rounds) v h = reserve-Shares rounds v h
call-Shares (acquires creation done) v h = acquire-Shares creation done v h
call-Shares (releases q filing) v h = release-Shares q filing v h
call-Shares {s} (trims keep_free) v h = trim_loop-Shares (length s.pool.free) keep_free v
call-Shares clears v h = clear-Shares v

-- After any history of calls the objects of the pool are those that live, each of them is once
-- free or once held by a client, and the sets agree with the vectors, if that was so before, no
-- new object has the address of one that lives, and no insertion into `free_set_` throws in
-- `ReleaseObject`. Clients may release what they do not hold, and any other insertion may throw.
pub run-Shares :
    {s : Clients} (calls : List Call)
    → Shares s.pool s.held
    → AreRegular s calls
    → Shares (run s calls).pool (run s calls).held
unfolding run AreRegular
run-Shares [] v h = v
run-Shares {s} (c ∷ cs) v h = run-Shares {s = call s c} cs (call-Shares c v h.0) h.1
