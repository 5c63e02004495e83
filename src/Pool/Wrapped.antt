-- ===== src/Pool/Wrapped.antt =====
-- ParallelFor with a grain that reaches beyond 2^64.
use corekit.Base.{
  ℕ, zero, suc, ◌+◌, ◌-◌, ◌%◌, ◌^◌, ◌≤◌, ◌<◌, ◌≡◌, refl, ap, ◌∙◌, Bool, true, false, none, some,
  List, [], ◌∷◌, ◌++◌, ltb, if◌then◌else◌, min, arith,
}
use corekit.Base.Count.{count, count-append, count-cons, hit_self}
use corekit.Pool.Chunks.{chunks, run_from, run_chunk, run_chunks}

-- The first index of a range is called, whichever calls throw.
run_from-here : (throws : ℕ → Bool) (n b : ℕ) → 0 < n → 0 < count (run_from throws n b) b
unfolding run_from
run_from-here throws zero b h = absurd (omega arith)
run_from-here throws (suc n) b h =
    let rest = if throws b then [] else run_from throws n (suc b) in
    omega (arith, count-cons b rest b, hit_self b)

chunks-over : (fuel grain b last : ℕ) → last ≤ b → chunks fuel grain b last ≡ some []
unfolding chunks
chunks-over zero grain b last h = let over : ltb b last ≡ false = ground arith in simp (over) refl
chunks-over (suc fuel) grain b last h =
    let over : ltb b last ≡ false = ground arith in simp (over) refl

-- A round that goes on.
chunks-on :
    (fuel grain b last next : ℕ) (more : List (ℕ × ℕ))
    → b < last
    → (b + grain) % 2 ^ 64 ≡ next
    → chunks fuel grain next last ≡ some more
    → chunks (suc fuel) grain b last ≡ some ((b, min next last) ∷ more)
unfolding chunks
chunks-on fuel grain b last next more below e later =
    let goes : ltb b last ≡ true = ground arith in
    simp (goes) (λ i. elim (rest i) [ none ↦ none | some ms ↦ some ((b, min (e i) last) ∷ ms) ])
  where
    rest : chunks fuel grain ((b + grain) % 2 ^ 64) last ≡ some more
    rest = ap (λ k. chunks fuel grain k last) e ∙ later

-- Where the first range of ParallelFor reaches beyond 2^64, and so wraps to `start` below `first`, and
-- one more grain from there reaches the end: the loop ends with two ranges, the second of which
-- starts at `start`, and if both are submitted, the callable is called at `start`, which is not an
-- index that was asked for, whichever calls throw.
pub chunks-below :
    (throws : ℕ → Bool) (refuses : ℕ × ℕ → Bool) (fuel grain first last start : ℕ)
    → first < last
    → grain < 2 ^ 64
    → first + grain ≡ 2 ^ 64 + start
    → last ≤ start + grain
    → start + grain < 2 ^ 64
    → refuses (first, start) ≡ false
    → refuses (start, last) ≡ false
    → (chunks (suc (suc fuel)) grain first last ≡ some ((first, start) ∷ (start, last) ∷ []))
      × (start < first)
      × (0 < count (run_chunks throws refuses ((first, start) ∷ (start, last) ∷ [])) start)
unfolding run_chunks
chunks-below throws refuses fuel grain first last start below small wraps reaches fits one two =
    let two_ranges =
      chunks-on (suc fuel) grain first last start ((start, min (start + grain) last) ∷ []) below
        (omega arith)
        (chunks-on fuel grain start last (start + grain) [] (omega arith) (omega arith)
          (chunks-over fuel grain (start + grain) last reaches)) in
    let ends : min (start + grain) last ≡ last = omega arith in
    let early : min start last ≡ start = omega arith in
    let empty = run_chunk throws (first, start) in
    let second = run_chunk throws (start, last) in
    let here : 0 < count second start = run_from-here throws (last - start) start (omega arith) in
    (
      two_ranges ∙ (λ i. some ((first, early i) ∷ (start, ends i) ∷ [])),
      omega arith,
      simp (one, two)
          (omega (arith, count-append empty (second ++ []) start, count-append second [] start)),
    )
