-- ===== src/Memory/Pooled.antt =====
-- Who has an object of a `BasicObjectPoolImpl`: it is free or held by one client, never both.
use corekit.Base.{
  ℕ, ◌+◌, ◌≤◌, ◌<◌, ◌≡◌, inl, inr, sym, ap, ◌∙◌, true, false, [], ◌∷◌, ◌++◌, length, length-append,
  arith,
}
use corekit.Base.Count.{absent-count, count, count-push, hit, hit-cases, hit_self, mem, mem-count}
use corekit.Memory.ObjectPool.{
  Objects, remove, insert, ObjectPool, destroy_one, erase_from_all, in_all_set, all_done, inserted,
}
use corekit.Memory.Count.{count-remove, insert-new, remove-push, length-remove}

-- The sets mirror the vectors, the objects of the pool are those that live, each once, and each is
-- free or held.
pub record Shares (pool : ObjectPool) (held : Objects) : Type 0 where
  pub all_set : pool.all_set ≡ pool.all
  pub free_set : pool.free_set ≡ pool.free
  pub heap : pool.heap ≡ pool.all
  pub shared : (x : ℕ) → count pool.all x ≡ count pool.free x + count held x
  pub once : (x : ℕ) → count pool.all x ≤ 1
  pub lengths : length pool.all ≡ length pool.free + length held

module _ {pool : ObjectPool} {held : Objects} (v : Shares pool held) where
  -- A new object beside the objects of a list.
  once-push : (q : ℕ) → count pool.all q ≡ 0 → (x : ℕ) → count (pool.all ++ q ∷ []) x ≤ 1
  once-push q new x = elim (hit-cases q x) [
    | inl at ↦ omega (arith, count-push pool.all q x, at.1, ap (count pool.all) at.0)
    | inr away ↦ omega (arith, count-push pool.all q x, away, v.once x)
  ]

  pub reserved-Shares :
      (q : ℕ)
      → count pool.all q ≡ 0
      → Shares (inserted all_done (record pool { heap = pool.heap ++ q ∷ [] }) q) held
  unfolding inserted
  reserved-Shares q new = record {
    all_set = ap (λ s. insert s q) v.all_set ∙ insert-new pool.all q new;
    free_set = ap (λ s. insert s q) v.free_set ∙ insert-new pool.free q (omega (arith, v.shared q));
    heap = ap (λ h. h ++ q ∷ []) v.heap;
    shared = λ x. omega (arith, v.shared x, count-push pool.all q x, count-push pool.free q x);
    once = once-push q new;
    lengths =
        omega (arith, v.lengths, length-append pool.all (q ∷ []), length-append pool.free (q ∷ []));
  }

  pub acquired-Shares :
      (q : ℕ)
      → count pool.all q ≡ 0
      → Shares (inserted in_all_set (record pool { heap = pool.heap ++ q ∷ [] }) q) (held ++ q ∷ [])
  unfolding inserted
  acquired-Shares q new = record {
    all_set = ap (λ s. insert s q) v.all_set ∙ insert-new pool.all q new;
    free_set = v.free_set;
    heap = ap (λ h. h ++ q ∷ []) v.heap;
    shared = λ x. omega (arith, v.shared x, count-push pool.all q x, count-push held q x);
    once = once-push q new;
    lengths =
        omega (arith, v.lengths, length-append pool.all (q ∷ []), length-append held (q ∷ []));
  }

  -- The last free object goes to a client.
  pub reused-Shares :
      (ys : Objects) (y : ℕ)
      → pool.free ≡ ys ++ y ∷ []
      → Shares (record pool { free = ys; free_set = remove pool.free_set y }) (held ++ y ∷ [])
  reused-Shares ys y e =
      let here : (x : ℕ) → count pool.free x ≡ count ys x + hit y x =
        λ x. ap (λ f. count f x) e ∙ count-push ys y x in
      record {
        all_set = v.all_set;
        free_set =
            ap (λ s. remove s y) (v.free_set ∙ e)
            ∙ remove-push ys y (omega (arith, here y, v.shared y, v.once y, hit_self y));
        heap = v.heap;
        shared = λ x. omega (arith, v.shared x, here x, count-push held y x);
        once = v.once;
        lengths =
            omega (
              arith,
              v.lengths,
              ap length e,
              length-append ys (y ∷ []),
              length-append held (y ∷ []),
            );
      }

  -- The last free object is destroyed.
  pub trimmed-Shares :
      (ys : Objects) (y : ℕ)
      → pool.free ≡ ys ++ y ∷ []
      → Shares
          (destroy_one
            (erase_from_all (record pool { free = ys; free_set = remove pool.free_set y }) y)
            y)
          held
  unfolding destroy_one erase_from_all
  trimmed-Shares ys y e =
      let here : (x : ℕ) → count pool.free x ≡ count ys x + hit y x =
        λ x. ap (λ f. count f x) e ∙ count-push ys y x in
      record {
        all_set = ap (λ s. remove s y) v.all_set;
        free_set =
            ap (λ s. remove s y) (v.free_set ∙ e)
            ∙ remove-push ys y (omega (arith, here y, v.shared y, v.once y, hit_self y));
        heap = ap (λ s. remove s y) v.heap;
        shared = λ x. omega (arith, v.shared x, here x, count-remove pool.all y x);
        once = λ x. omega (arith, v.once x, count-remove pool.all y x);
        lengths = omega (
          arith,
          v.lengths,
          ap length e,
          length-append ys (y ∷ []),
          length-remove pool.all y (omega (arith, here y, v.shared y, hit_self y)),
        );
      }

  -- An object of the pool that is not free is held.
  pub is_held : (q : ℕ) → mem pool.all_set q ≡ true → mem pool.free_set q ≡ false → 0 < count held q
  is_held q m f = omega (
    arith,
    v.shared q,
    mem-count pool.all q (ap (λ s. mem s q) (sym v.all_set) ∙ m),
    absent-count pool.free q (ap (λ s. mem s q) (sym v.free_set) ∙ f),
  )

  held-hit : (q : ℕ) → 0 < count held q → (x : ℕ) → hit q x ≤ count held x
  held-hit q h x = elim (hit-cases q x) [
    | inl at ↦ omega (arith, at.1, ap (count held) at.0)
    | inr away ↦ omega (arith, away)
  ]

  -- A held object comes back to a pool with room, or is destroyed.
  pub filed-Shares :
      (q : ℕ)
      → 0 < count held q
      → Shares
          (record pool { free = pool.free ++ q ∷ []; free_set = insert pool.free_set q })
          (remove held q)
  filed-Shares q h = record {
    all_set = v.all_set;
    free_set =
        ap (λ s. insert s q) v.free_set
        ∙ insert-new pool.free q (omega (arith, v.shared q, v.once q));
    heap = v.heap;
    shared = λ x.
        omega (arith, v.shared x, count-push pool.free q x, count-remove held q x, held-hit q h x);
    once = v.once;
    lengths = omega (arith, v.lengths, length-append pool.free (q ∷ []), length-remove held q h);
  }

  pub discarded-Shares :
      (q : ℕ) → 0 < count held q → Shares (destroy_one (erase_from_all pool q) q) (remove held q)
  unfolding destroy_one erase_from_all
  discarded-Shares q h = record {
    all_set = ap (λ s. remove s q) v.all_set;
    free_set = v.free_set;
    heap = ap (λ s. remove s q) v.heap;
    shared = λ x.
        omega (arith, v.shared x, count-remove pool.all q x, count-remove held q x, held-hit q h x);
    once = λ x. omega (arith, v.once x, count-remove pool.all q x);
    lengths = omega (
      arith,
      v.lengths,
      length-remove pool.all q (omega (arith, v.shared q)),
      length-remove held q h,
    );
  }
