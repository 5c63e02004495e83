-- ===== src/Memory/Reconfigured.antt =====
-- Histories of calls on the global allocator, against a table that sees allocations and releases only.
use corekit.Base.{
  ℕ, ◌+◌, ◌^◌, ◌<◌, ◌≡◌, refl, sym, ap, ◌∙◌, subst, Bool, Option, none, some, List, [], ◌∷◌,
}
use corekit.Api.Status.{Status, Result, value, error}
use corekit.Memory.System.{
  AllocBackend, Sizes, find, total, SystemAllocator, reset_stats, deallocate,
}
use corekit.Memory.Live.{allocates, IsHonest}
use corekit.Memory.Backends.{books_allocate}
use corekit.Memory.Global.{
  GlobalAllocatorOptions, GlobalState, ensured, ensure_allocator_locked, configure, with_books,
  global_allocate, global_deallocate, reset_current_stats,
}
use corekit.Memory.Config.{JsonOps, read_options, configure_from_file}
use corekit.Memory.Held.{IsConsistent, blocks_of, live, configure-Holds}
use corekit.Memory.Books.{
  table_after, table_without, Stands, books_allocate-Stands, deallocate-Stands, reset_stats-Stands,
}

-- `loads` has what the JSON library makes of the file.
pub data GlobalCall (Json : Type 0) : Type 0 where
  wants : (size alignment : ℕ) → Option ℕ → GlobalCall Json
  gives_back : (ptr : ℕ) → GlobalCall Json
  clears_stats : GlobalCall Json
  configures : GlobalAllocatorOptions → GlobalCall Json
  loads : Result Json → GlobalCall Json

module _ {Json : Type 0} where
  -- The blocks that allocations and releases leave, whatever else is called.
  unfoldable pub ledger : Sizes → GlobalCall Json → Sizes
  unfolding table_after table_without
  ledger xs (wants size alignment answer) = table_after xs size alignment answer
  ledger xs (gives_back ptr) = table_without xs ptr
  ledger xs _ = xs

  unfoldable pub ledgers : Sizes → List (GlobalCall Json) → Sizes
  ledgers xs [] = xs
  ledgers xs (c ∷ cs) = ledgers (ledger xs c) cs

  -- The C libraries return no block that is in use, and the blocks fit a 64-bit address space.
  abbrev pub IsNew : Sizes → GlobalCall Json → Type 0
  IsNew xs (wants size alignment (some ptr)) = (find xs ptr ≡ none) × (total xs + size < 2 ^ 64)
  IsNew xs _ = Unit

  unfoldable pub AreNew : Sizes → List (GlobalCall Json) → Type 0
  AreNew xs [] = Unit
  AreNew xs (c ∷ cs) = IsNew xs c × AreNew (ledger xs c) cs

module _ {Json : Type 0} (json : JsonOps Json) (built : AllocBackend → Bool) where
  unfoldable pub global_call : GlobalState → GlobalCall Json → GlobalState
  unfolding configure_from_file
  global_call g (wants size alignment answer) = (global_allocate g size alignment answer).1
  global_call g (gives_back ptr) = (global_deallocate g ptr).1
  global_call g clears_stats = reset_current_stats g
  global_call g (configures o) = (configure built g o).1
  global_call g (loads loaded) = (configure_from_file json built g loaded).1

  unfoldable pub global_run : GlobalState → List (GlobalCall Json) → GlobalState
  global_run g [] = g
  global_run g (c ∷ cs) = global_run (global_call g c) cs

  -- The state is consistent, with these blocks.
  abbrev Owns : Sizes → GlobalState → Type 0
  Owns xs g = IsConsistent built g × (live g ≡ xs)

  with_books-Owns :
      {g : GlobalState} (c : IsConsistent built g) (xs : Sizes) (s : SystemAllocator)
      → Stands xs s
      → Owns xs (with_books g c.allocator s)
  with_books-Owns c xs s kept = (
    record {
      allocator = record (c.allocator) { books = s };
      present = refl;
      agrees = c.agrees;
      enabled = c.enabled;
      kept = kept.0;
    },
    kept.1,
  )

  -- A call on the books of the allocator in use.
  on_books-Owns :
      {g : GlobalState} (c : IsConsistent built g) (xs : Sizes)
      (act : AllocBackend → SystemAllocator → SystemAllocator)
      → Stands xs (act c.allocator.kind c.allocator.books)
      → Owns xs (
          with_books
            (ensure_allocator_locked g).1
            (ensure_allocator_locked g).0
            (act (ensure_allocator_locked g).0.kind (ensure_allocator_locked g).0.books))
  unfolding ensure_allocator_locked
  on_books-Owns {g} c xs act kept =
      subst
        (λ e. Owns xs (
          with_books (ensured g e).1 (ensured g e).0
            (act (ensured g e).0.kind (ensured g e).0.books)))
        (sym c.present) (with_books-Owns c xs (act c.allocator.kind c.allocator.books) kept)

  honest :
      (s : SystemAllocator) (size alignment : ℕ) (answer : Option ℕ)
      → IsNew {Json = Json} s.alloc_sizes (wants size alignment answer)
      → IsHonest s (allocates size alignment answer)
  unfolding IsHonest
  honest s size alignment none h = tt
  honest s size alignment (some ptr) h = h

  loads-Owns :
      {g : GlobalState} (loaded : Result Json)
      → IsConsistent built g
      → Owns (live g) (configure_from_file json built g loaded).1
  unfolding configure_from_file
  loads-Owns (error st) c = (c, refl)
  loads-Owns {g} (value root) c = read-Owns (read_options json root g.options)
    where
      read-Owns :
          (r : Result GlobalAllocatorOptions)
          → Owns
              (live g)
              (elim r as (λ _. Status × GlobalState) [
                | error st ↦ (st, g)
                | value o ↦ configure built g o
              ]).1
      read-Owns (error st) = (c, refl)
      read-Owns (value o) = configure-Holds built g o c

  global_call-Owns :
      {g : GlobalState} (call : GlobalCall Json)
      → IsConsistent built g
      → IsNew (live g) call
      → Owns (ledger (live g) call) (global_call g call)
  unfolding global_call global_allocate global_deallocate reset_current_stats ledger
  global_call-Owns {g} (wants size alignment answer) c h =
      let same : live g ≡ c.allocator.books.alloc_sizes = ap blocks_of c.present in
      let new = subst (λ xs. IsNew {Json = Json} xs (wants size alignment answer)) same h in
      on_books-Owns c (table_after (live g) size alignment answer)
        (λ kind s. (books_allocate kind s size alignment answer).1)
        (subst
          (λ xs.
            Stands (table_after xs size alignment answer)
              (books_allocate c.allocator.kind c.allocator.books size alignment answer).1)
          (sym same)
          (books_allocate-Stands c.allocator.kind size alignment answer c.kept
            (honest c.allocator.books size alignment answer new)))
  global_call-Owns {g} (gives_back ptr) c h =
      let same : live g ≡ c.allocator.books.alloc_sizes = ap blocks_of c.present in
      on_books-Owns c (table_without (live g) ptr) (λ kind s. (deallocate s ptr).1)
        (subst (λ xs. Stands (table_without xs ptr) (deallocate c.allocator.books ptr).1) (sym same)
          (deallocate-Stands ptr c.kept))
  global_call-Owns {g} clears_stats c h =
      let same : live g ≡ c.allocator.books.alloc_sizes = ap blocks_of c.present in
      on_books-Owns c (live g) (λ kind s. reset_stats s)
        (subst (λ xs. Stands xs (reset_stats c.allocator.books)) (sym same)
          (reset_stats-Stands c.kept))
  global_call-Owns {g} (configures o) c h = configure-Holds built g o c
  global_call-Owns (loads loaded) c h = loads-Owns loaded c

  -- After any history of allocations, releases, resets of the statistics and configurations, also from
  -- files, on a consistent state, with answers of the C libraries as documented: the allocator in
  -- use is the one that the options name, this build has it, its books are exact, and the blocks in them
  -- are those that the allocations and releases alone leave.
  pub global_run-ledgers :
      (calls : List (GlobalCall Json)) {g : GlobalState}
      → IsConsistent built g
      → AreNew (live g) calls
      → IsConsistent built (global_run g calls)
        × (live (global_run g calls) ≡ ledgers (live g) calls)
  unfolding global_run ledgers AreNew
  global_run-ledgers [] c h = (c, refl)
  global_run-ledgers (call ∷ calls) {g} c h =
      let one = global_call-Owns call c h.0 in
      let later = global_run-ledgers calls one.0 (subst (λ xs. AreNew xs calls) (sym one.1) h.1) in
      (later.0, later.1 ∙ ap (λ xs. ledgers xs calls) one.1)
