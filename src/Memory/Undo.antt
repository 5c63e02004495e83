-- ===== src/Memory/Undo.antt =====
-- A call of `Reserve` or `Acquire` that makes a new object, and the handlers that undo it.
use corekit.Base.{ℕ, ◌≡◌, refl, sym, ap, ◌∙◌, subst, [], ◌∷◌, ◌++◌, arith}
use corekit.Base.Count.{count}
use corekit.Memory.ObjectPool.{
  Objects, remove, insert, ObjectPool, created, create_one, destroy_one, erase_from_all, Done,
  none_done, in_all, in_all_set, in_free, all_done, inserted, undo_reserve, reserve_one,
  acquire_new,
}
use corekit.Memory.Count.{insert-new, remove-absent, remove-push}
use corekit.Memory.Clients.{handed}
use corekit.Memory.Pooled.{Shares, reserved-Shares, acquired-Shares}

pool-eq :
    {pool : ObjectPool} {all free all_set free_set heap : Objects}
    → all ≡ pool.all
    → free ≡ pool.free
    → all_set ≡ pool.all_set
    → free_set ≡ pool.free_set
    → heap ≡ pool.heap
    → record {
      max_cached = pool.max_cached;
      all = all;
      free = free;
      all_set = all_set;
      free_set = free_set;
      heap = heap;
    }
      ≡ pool
pool-eq {pool} a f s t h = λ i. record {
  max_cached = pool.max_cached;
  all = a i;
  free = f i;
  all_set = s i;
  free_set = t i;
  heap = h i;
}

abbrev with_object : ObjectPool → ℕ → ObjectPool
with_object pool q = record pool { heap = pool.heap ++ q ∷ [] }

module _ {pool : ObjectPool} {held : Objects} (v : Shares pool held) (q : ℕ)
    (fresh : count pool.heap q ≡ 0) where
  not_all : count pool.all q ≡ 0
  not_all = ap (λ s. count s q) (sym v.heap) ∙ fresh

  all_kept : remove pool.all q ≡ pool.all
  all_kept = remove-absent pool.all q not_all

  all_back : remove (pool.all ++ q ∷ []) q ≡ pool.all
  all_back = remove-push pool.all q not_all

  all_set_kept : remove pool.all_set q ≡ pool.all_set
  all_set_kept = ap (λ s. remove s q) v.all_set ∙ all_kept ∙ sym v.all_set

  all_set_back : remove (insert pool.all_set q) q ≡ pool.all_set
  all_set_back =
      ap (λ s. remove (insert s q) q) v.all_set
      ∙ ap (λ s. remove s q) (insert-new pool.all q not_all)
      ∙ all_back
      ∙ sym v.all_set

  not_free : count pool.free q ≡ 0
  not_free = omega (arith, v.shared q, not_all)

  free_kept : remove pool.free q ≡ pool.free
  free_kept = remove-absent pool.free q not_free

  free_set_kept : remove pool.free_set q ≡ pool.free_set
  free_set_kept = ap (λ s. remove s q) v.free_set ∙ free_kept ∙ sym v.free_set

  heap_back : remove (pool.heap ++ q ∷ []) q ≡ pool.heap
  heap_back = remove-push pool.heap q fresh

  -- The handlers bring the pool back to what it was.
  pub reserve_one-Shares : (done : Done) → Shares (reserve_one pool (created q) done).1 held
  unfolding reserve_one undo_reserve inserted destroy_one erase_from_all create_one
  reserve_one-Shares none_done =
      subst (λ p. Shares p held)
        (sym (pool-eq all_kept free_kept all_set_kept free_set_kept heap_back)) v
  reserve_one-Shares in_all =
      subst (λ p. Shares p held)
        (sym (pool-eq all_back free_kept all_set_kept free_set_kept heap_back)) v
  reserve_one-Shares in_all_set =
      subst (λ p. Shares p held)
        (sym (pool-eq all_back free_kept all_set_back free_set_kept heap_back)) v
  reserve_one-Shares in_free =
      subst (λ p. Shares p held)
        (sym (
          pool-eq all_back (remove-push pool.free q not_free) all_set_back free_set_kept heap_back))
        v
  reserve_one-Shares all_done = reserved-Shares v q not_all

  pub acquire_new-created :
      (done : Done)
      → Shares
          (acquire_new pool (created q) done).1
          (handed (acquire_new pool (created q) done).0 held)
  unfolding acquire_new inserted destroy_one erase_from_all create_one
  acquire_new-created none_done =
      subst (λ p. Shares p held) (sym (pool-eq all_kept refl all_set_kept refl heap_back)) v
  acquire_new-created in_all =
      subst (λ p. Shares p held) (sym (pool-eq all_back refl all_set_kept refl heap_back)) v
  acquire_new-created in_all_set = acquired-Shares v q not_all
  acquire_new-created in_free = acquired-Shares v q not_all
  acquire_new-created all_done = acquired-Shares v q not_all
