-- ===== src/Memory/Held.antt =====
-- The global allocator keeps the blocks that live, whatever is configured.
use corekit.Base.{
  ◌<◌, ◌≡◌, refl, sym, ap, ◌∙◌, subst, Bool, true, Option, none, some, [], ◌∷◌, ltb, arith,
}
use corekit.Base.Branch.{if-both}
use corekit.Api.Status.{Status, Result, value, error}
use corekit.Memory.System.{
  AllocBackend, system, tbb_scalable, mimalloc, unnamed, Sizes, total, SystemAllocator,
  new_system_allocator,
}
use corekit.Memory.Live.{IsAccurate}
use corekit.Memory.Backends.{Allocator, new_allocator}
use corekit.Memory.Global.{
  GlobalAllocatorOptions, GlobalState, initial_state, same_backend, ensured,
  ensure_allocator_locked, is_backend_enabled, create_allocator, switch_to, configure_current,
  configure,
}

-- No block of the table is empty.
abbrev pub HasBytes : Sizes → Type 0
HasBytes [] = Unit
HasBytes ((p, n) ∷ xs) = (0 < n) × HasBytes xs

-- The books of an allocator.
pub record IsKept (s : SystemAllocator) : Type 0 where
  pub own : s.backend ≡ system
  pub accurate : IsAccurate s
  pub sizes : HasBytes s.alloc_sizes

-- The allocator in use is the one that the options name, and this build has it.
pub record IsConsistent (built : AllocBackend → Bool) (g : GlobalState) : Type 0 where
  pub allocator : Allocator
  pub present : g.allocator ≡ some allocator
  pub agrees : allocator.kind ≡ g.options.backend
  pub enabled : is_backend_enabled built allocator.kind ≡ true
  pub kept : IsKept allocator.books

-- The blocks of the allocator in use.
abbrev pub blocks_of : Option Allocator → Sizes
blocks_of none = []
blocks_of (some a) = a.books.alloc_sizes

abbrev pub live : GlobalState → Sizes
live g = blocks_of g.allocator

new-IsKept : IsKept new_system_allocator
unfolding total
new-IsKept = record {
  own = refl;
  accurate = record { in_use = refl; fits = omega arith; peak = omega arith };
  sizes = tt;
}

pub initial-IsConsistent : (built : AllocBackend → Bool) → IsConsistent built initial_state
initial-IsConsistent built = record {
  allocator = new_allocator system;
  present = refl;
  agrees = refl;
  enabled = refl;
  kept = new-IsKept;
}

-- Without bytes there is no block.
none_live : (xs : Sizes) → HasBytes xs → total xs ≡ 0 → xs ≡ []
unfolding total
none_live [] h e = refl
none_live ((p, n) ∷ xs) h e = absurd (omega (arith, h.0))

same_backend-same : (b c : AllocBackend) → same_backend b c ≡ true → b ≡ c
same_backend-same system system e = refl
same_backend-same system tbb_scalable e = absurd (cc)
same_backend-same system mimalloc e = absurd (cc)
same_backend-same system (unnamed n) e = absurd (cc)
same_backend-same tbb_scalable system e = absurd (cc)
same_backend-same tbb_scalable tbb_scalable e = refl
same_backend-same tbb_scalable mimalloc e = absurd (cc)
same_backend-same tbb_scalable (unnamed n) e = absurd (cc)
same_backend-same mimalloc system e = absurd (cc)
same_backend-same mimalloc tbb_scalable e = absurd (cc)
same_backend-same mimalloc mimalloc e = refl
same_backend-same mimalloc (unnamed n) e = absurd (cc)
same_backend-same (unnamed m) system e = absurd (cc)
same_backend-same (unnamed m) tbb_scalable e = absurd (cc)
same_backend-same (unnamed m) mimalloc e = absurd (cc)
same_backend-same (unnamed m) (unnamed n) e = ap unnamed (ground arith)

module _ (built : AllocBackend → Bool) where
  -- What a creation gives.
  Created : AllocBackend → Result Allocator → Type 0
  Created b (value a) = (a ≡ new_allocator b) × (is_backend_enabled built b ≡ true)
  Created b (error st) = Unit

  create_allocator-Created : (b : AllocBackend) → Created b (create_allocator built b)
  unfolding create_allocator Created
  create_allocator-Created system = (refl, refl)
  create_allocator-Created (unnamed n) = tt
  create_allocator-Created mimalloc =
      if-both (Created mimalloc) (built mimalloc) (λ e. (refl, e)) (λ e. tt)
  create_allocator-Created tbb_scalable =
      if-both (Created tbb_scalable) (built tbb_scalable) (λ e. (refl, e)) (λ e. tt)

  -- The state is consistent, and the blocks are those of before.
  Holds : GlobalState → Status × GlobalState → Type 0
  Holds g out = IsConsistent built out.1 × (live out.1 ≡ live g)

  switch_to-Holds :
      (g : GlobalState) (o : GlobalAllocatorOptions) (r : Result Allocator)
      → IsConsistent built g
      → live g ≡ []
      → Created o.backend r
      → Holds g (switch_to built g o r)
  unfolding switch_to create_allocator Created Holds
  switch_to-Holds g o (value a) c idle (same, fine) = (
    record {
      allocator = new_allocator o.backend;
      present = ap some same;
      agrees = refl;
      enabled = fine;
      kept = new-IsKept;
    },
    ap (λ x. x.books.alloc_sizes) same ∙ sym idle,
  )
  switch_to-Holds g o (error st) c idle h =
      if-both (Holds g) o.strict_backend (λ _. (c, refl))
        (λ _. (
          record {
            allocator = new_allocator system;
            present = refl;
            agrees = refl;
            enabled = refl;
            kept = new-IsKept;
          },
          sym idle,
        ))

  -- Configure on a consistent state, on every branch: the state stays consistent, and the blocks that
  -- live are those that lived before.
  pub configure-Holds :
      (g : GlobalState) (o : GlobalAllocatorOptions)
      → IsConsistent built g
      → IsConsistent built (configure built g o).1 × (live (configure built g o).1 ≡ live g)
  unfolding configure ensure_allocator_locked configure_current Holds
  configure-Holds g o c =
      let a = c.allocator in
      let body : Holds g (configure_current built (a, g) o) =
        if-both (Holds g) (same_backend o.backend g.options.backend)
          (λ same. (
            record {
              allocator = a;
              present = c.present;
              agrees = c.agrees ∙ sym (same_backend-same o.backend g.options.backend same);
              enabled = c.enabled;
              kept = c.kept;
            },
            refl,
          ))
          (λ _.
            if-both (Holds g) (ltb 0 a.books.bytes_in_use) (λ _. (c, refl))
              (λ unused.
                let nothing : total a.books.alloc_sizes ≡ 0 =
                  ground (arith, c.kept.accurate.in_use) in
                switch_to-Holds g o (create_allocator built o.backend) c
                  (ap blocks_of c.present ∙ none_live a.books.alloc_sizes c.kept.sizes nothing)
                  (create_allocator-Created o.backend))) in
      subst (λ e. Holds g (configure_current built (ensured g e) o)) (sym c.present) body
