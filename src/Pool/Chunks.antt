-- ===== src/Pool/Chunks.antt =====
-- The ranges of ParallelFor in src/task/thread_pool_executor.cpp, and the calls of those that it
-- submits. Which calls throw and which submissions are refused are arguments.
use corekit.Base.{
  ℕ, zero, suc, ◌+◌, ◌-◌, ◌%◌, ◌^◌, ◌≤◌, ◌<◌, ◌≡◌, refl, sym, ap, ◌∙◌, subst, ap₂, Bool, false,
  Option, none, some, List, [], ◌∷◌, ◌++◌, append-nil, inl, inr, length, ltb, ◌==◌, if◌then◌else◌,
  min, Bool-cases, arith,
}

abbrev pub grain_of : ℕ → ℕ
grain_of grain = if grain == 0 then 1 else grain

-- The loop; `none` means that the fuel ran out.
unfoldable pub chunks : ℕ → (grain chunk_begin last : ℕ) → Option (List (ℕ × ℕ))
chunks zero grain b last = if ltb b last then none else some []
chunks (suc fuel) grain b last =
    let rest = chunks fuel grain ((b + grain) % 2 ^ 64) last in
    if ltb b last
    then elim rest [ none ↦ none | some more ↦ some ((b, min ((b + grain) % 2 ^ 64) last) ∷ more) ]
    else some []

-- The calls of one range, `for (i = chunk_begin; i < chunk_end; ++i) fn(i)`. A call that throws ends the
-- task.
unfoldable pub run_from : (throws : ℕ → Bool) → (n b : ℕ) → List ℕ
run_from throws zero b = []
run_from throws (suc n) b =
    let rest = run_from throws n (suc b) in b ∷ (if throws b then [] else rest)

abbrev pub run_chunk : (ℕ → Bool) → ℕ × ℕ → List ℕ
run_chunk throws (b, e) = run_from throws (e - b) b

-- The calls of all ranges, up to one whose submission is refused.
unfoldable pub run_chunks : (throws : ℕ → Bool) → (refuses : ℕ × ℕ → Bool) → List (ℕ × ℕ) → List ℕ
run_chunks throws refuses [] = []
run_chunks throws refuses (c ∷ cs) =
    let rest = run_chunks throws refuses cs in if refuses c then [] else run_chunk throws c ++ rest

-- `n` indices from `b` on.
unfoldable pub indices : (n b : ℕ) → List ℕ
indices zero b = []
indices (suc n) b = b ∷ indices n (suc b)

-- The indices of the ranges.
abbrev indices_of : List (ℕ × ℕ) → List ℕ
indices_of [] = []
indices_of ((b, e) ∷ cs) = indices (e - b) b ++ indices_of cs

-- Where no call throws and no submission is refused, all of them are called.
run_from-quiet :
    (throws : ℕ → Bool) (n b : ℕ) → ((i : ℕ) → throws i ≡ false) → run_from throws n b ≡ indices n b
unfolding run_from indices
run_from-quiet throws zero b quiet = refl
run_from-quiet throws (suc n) b quiet =
    let fine : throws b ≡ false = quiet b in
    simp (fine) (ap (◌∷◌ b) (run_from-quiet throws n (suc b) quiet))

run_chunks-quiet :
    (throws : ℕ → Bool) (refuses : ℕ × ℕ → Bool) (cs : List (ℕ × ℕ))
    → ((i : ℕ) → throws i ≡ false)
    → ((c : ℕ × ℕ) → refuses c ≡ false)
    → run_chunks throws refuses cs ≡ indices_of cs
unfolding run_chunks
run_chunks-quiet throws refuses [] quiet takes = refl
run_chunks-quiet throws refuses ((b, e) ∷ cs) quiet takes =
    let taken : refuses (b, e) ≡ false = takes (b, e) in
    simp (taken) (
      ap₂ ◌++◌ (run_from-quiet throws (e - b) b quiet)
        (run_chunks-quiet throws refuses cs quiet takes))

indices-same : {n m b c : ℕ} → n ≡ m → b ≡ c → indices n b ≡ indices m c
indices-same e f = λ i. indices (e i) (f i)

indices-append :
    (n m b total : ℕ) → total ≡ n + m → indices n b ++ indices m (b + n) ≡ indices total b
unfolding indices
indices-append zero m b total e =
    let here : b + 0 ≡ b = omega arith in let all : m ≡ total = omega arith in indices-same all here
indices-append (suc n) m b total e =
    let further : b + suc n ≡ suc b + n = omega arith in
    let split : total ≡ suc (n + m) = omega arith in
    ap (λ k. b ∷ indices n (suc b) ++ indices m k) further
    ∙ ap (◌∷◌ b) (indices-append n m (suc b) (n + m) refl)
    ∙ ap (λ k. indices k b) (sym split)

-- What the ranges are, if the loop ends.
record Splits (grain b last : ℕ) (out : Option (List (ℕ × ℕ))) : Type 0 where
  ranges : List (ℕ × ℕ)
  gives : out ≡ some ranges
  calls : indices_of ranges ≡ indices (last - b) b
  count : length ranges ≤ last - b

Splits-more :
    {grain b last : ℕ} {rest : Option (List (ℕ × ℕ))}
    → 0 < grain
    → b < last
    → last + grain ≤ 2 ^ 64
    → Splits grain (b + grain) last rest
    → Splits grain b last
        (elim rest [ none ↦ none | some more ↦ some ((b, min ((b + grain) % 2 ^ 64) last) ∷ more) ])
unfolding indices
Splits-more {grain} {b} {last} {rest} pos below fits c =
    let stop = min ((b + grain) % 2 ^ 64) last in
    let at : stop ≡ min (b + grain) last = omega arith in
    let joined : indices (stop - b) b ++ indices (last - (b + grain)) (b + grain)
        ≡ indices (last - b) b =
      elim (Bool-cases (ltb (b + grain) last)) [
        | inl more ↦
            let from_stop : b + grain ≡ b + (stop - b) = ground arith in
            let sum : last - b ≡ stop - b + (last - (b + grain)) = ground arith in
            ap (λ k. indices (stop - b) b ++ indices (last - (b + grain)) k) from_stop
            ∙ indices-append (stop - b) (last - (b + grain)) b (last - b) sum
        | inr ends ↦
            let all : stop - b ≡ last - b = ground arith in
            let none_left : last - (b + grain) ≡ 0 = ground arith in
            ap (λ k. indices (stop - b) b ++ indices k (b + grain)) none_left
            ∙ append-nil (indices (stop - b) b)
            ∙ ap (λ k. indices k b) all
      ] in
    record {
      ranges = (b, stop) ∷ c.ranges;
      gives = λ i. elim (c.gives i) [ none ↦ none | some more ↦ some ((b, stop) ∷ more) ];
      calls = ap (λ l. indices (stop - b) b ++ l) c.calls ∙ joined;
      count = omega (arith, c.count);
    }

-- The loop ends, within as many rounds as there are indices, and its ranges split them.
chunks-Splits :
    (fuel grain b last : ℕ)
    → 0 < grain
    → last + grain ≤ 2 ^ 64
    → last - b ≤ fuel
    → Splits grain b last (chunks fuel grain b last)
unfolding chunks indices
chunks-Splits zero grain b last pos fits enough =
    let over : ltb b last ≡ false = ground arith in
    let none_left : last - b ≡ 0 = omega arith in
    simp (over) (record {
      ranges = [];
      gives = refl;
      calls = ap (λ k. indices k b) (sym none_left);
      count = omega arith;
    })
chunks-Splits (suc fuel) grain b last pos fits enough = elim (Bool-cases (ltb b last)) [
  | inl goes ↦
      let below : b < last = ground arith in
      let next : (b + grain) % 2 ^ 64 ≡ b + grain = omega arith in
      simp (goes) (
        Splits-more pos below fits (
          subst (λ k. Splits grain (b + grain) last (chunks fuel grain k last)) (sym next)
            (chunks-Splits fuel grain (b + grain) last pos fits (omega arith))))
  | inr over ↦
      let none_left : last - b ≡ 0 = ground arith in
      simp (over) (record {
        ranges = [];
        gives = refl;
        calls = ap (λ k. indices k b) (sym none_left);
        count = omega arith;
      })
]

-- The ranges of ParallelFor, with all their indices called in order.
pub record Covers (throws : ℕ → Bool) (refuses : ℕ × ℕ → Bool) (b last : ℕ)
    (out : Option (List (ℕ × ℕ))) : Type 0 where
  pub ranges : List (ℕ × ℕ)
  pub gives : out ≡ some ranges
  pub calls : run_chunks throws refuses ranges ≡ indices (last - b) b
  pub count : length ranges ≤ last - b

-- The loop of ParallelFor with a grain above 0 ends within as many rounds as there are indices,
-- if `last` and one grain more fit 64 bits, and where no submission is refused and no call
-- throws, the ranges together call the callable once for each index from `b` on and below `last`;
-- range by range these are in order.
pub chunks-Covers :
    (throws : ℕ → Bool) (refuses : ℕ × ℕ → Bool) (fuel grain b last : ℕ)
    → 0 < grain
    → last + grain ≤ 2 ^ 64
    → last - b ≤ fuel
    → ((i : ℕ) → throws i ≡ false)
    → ((c : ℕ × ℕ) → refuses c ≡ false)
    → Covers throws refuses b last (chunks fuel grain b last)
chunks-Covers throws refuses fuel grain b last pos fits enough quiet takes =
    let s = chunks-Splits fuel grain b last pos fits enough in
    record {
      ranges = s.ranges;
      gives = s.gives;
      calls = run_chunks-quiet throws refuses s.ranges quiet takes ∙ s.calls;
      count = s.count;
    }
