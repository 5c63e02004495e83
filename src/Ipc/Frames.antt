-- ===== src/Ipc/Frames.antt =====
-- The messages that lie in a ring between its two indices.
use native.Mathlib.Nat.{mod-lt, div-add-mod, mul-le-mul_left}
use native.Mathlib.Decide.{dec_lt}
use corekit.Base.{
  ℕ, suc, ◌+◌, ◌-◌, ◌*◌, ◌/◌, ◌%◌, ◌^◌, ◌≤◌, ◌<◌, ◌≡◌, ◌⊎◌, inl, inr, sym, ap, subst, ◌∙◌, List, [],
  ◌∷◌, ◌++◌, length, arith,
}
use corekit.Ipc.Bytes.{Memory, read_bytes, load_u32, load_u32-ext, read_bytes-ext}
use corekit.Ipc.Layout.{frame_bytes, frame_data, frame_wrap}
use corekit.Ipc.Geometry.{frame_bytes-bounds}

-- A data frame with payload `m` at index `at`: it does not cross the end of the ring.
pub record FrameAt (mem : Memory) (ring_bytes at : ℕ) (m : List ℕ) : Type 0 where
  pub small : length m < 2 ^ 32
  pub room : at % ring_bytes + frame_bytes (length m) ≤ ring_bytes
  pub size : load_u32 mem (at % ring_bytes) ≡ length m
  pub marker : load_u32 mem (at % ring_bytes + 4) ≡ frame_data
  pub body : read_bytes mem (at % ring_bytes + 8) (length m) ≡ m

-- A marker at `at` that the rest of the ring is skipped.
pub record WrapAt (mem : Memory) (ring_bytes at : ℕ) : Type 0 where
  pub room : at % ring_bytes + 8 ≤ ring_bytes
  pub marker : load_u32 mem (at % ring_bytes + 4) ≡ frame_wrap

abbrev pub to_end : ℕ → ℕ → ℕ
to_end ring_bytes at = ring_bytes - at % ring_bytes

-- From index `at` up to `write` the ring holds these messages, oldest first.
pub data Holds (mem : Memory) (ring_bytes write : ℕ) : ℕ → List (List ℕ) → Type 0 where
  done : {at : ℕ} → at ≡ write → Holds mem ring_bytes write at []
  frame :
      {at : ℕ} {ms : List (List ℕ)} (m : List ℕ)
      → FrameAt mem ring_bytes at m
      → at + frame_bytes (length m) ≤ write
      → Holds mem ring_bytes write (at + frame_bytes (length m)) ms
      → Holds mem ring_bytes write at (m ∷ ms)
  wrap :
      {at : ℕ} {ms : List (List ℕ)}
      → WrapAt mem ring_bytes at
      → at + to_end ring_bytes at ≤ write
      → Holds mem ring_bytes write (at + to_end ring_bytes at) ms
      → Holds mem ring_bytes write at ms

-- Two ranges of at most a ring's length that do not cross its end lie apart in the ring.
pub apart :
    (ring_bytes p a w b : ℕ)
    → 0 < ring_bytes
    → p % ring_bytes + a ≤ ring_bytes
    → w % ring_bytes + b ≤ ring_bytes
    → p + a ≤ w
    → w + b ≤ p + ring_bytes
    → (p % ring_bytes + a ≤ w % ring_bytes) ⊎ (w % ring_bytes + b ≤ p % ring_bytes)
apart n p a w b pos ha hb le close =
    let split_p = div-add-mod p n in
    let split_w = div-add-mod w n in
    let in_p = mod-lt p pos in
    let in_w = mod-lt w pos in
    elim (dec_lt (p / n) (w / n)) [
      | no same ↦
          let up : n * (w / n) ≤ n * (p / n) = mul-le-mul_left n (omega arith) in
          inl (elim (dec_lt (w / n) (p / n)) [
            | yes less ↦
                let gap : n * suc (w / n) ≤ n * (p / n) = mul-le-mul_left n less in
                absurd (omega (arith, gap))
            | no eq ↦
                let e : n * (w / n) ≡ n * (p / n) = ap (λ (k : ℕ). n * k) (omega arith) in
                omega arith
          ])
      | yes next ↦
          let up : n * suc (p / n) ≤ n * (w / n) = mul-le-mul_left n next in
          inr (elim (dec_lt (suc (p / n)) (w / n)) [
            | yes more ↦
                let gap : n * suc (suc (p / n)) ≤ n * (w / n) = mul-le-mul_left n more in
                absurd (omega (arith, gap))
            | no eq ↦
                let e : n * (w / n) ≡ n * suc (p / n) = ap (λ (k : ℕ). n * k) (omega arith) in
                omega arith
          ])
    ]

-- `m'` is `m` but for the `b` bytes at index `w`.
abbrev pub SameBut : Memory → Memory → ℕ → ℕ → Type 0
SameBut m m' from b = (i : ℕ) → (i < from) ⊎ (from + b ≤ i) → m' i ≡ m i

FrameAt-ext :
    (m m' : Memory) (n at : ℕ) (x : List ℕ)
    → ((i : ℕ) → at % n ≤ i → i < at % n + frame_bytes (length x) → m' i ≡ m i)
    → FrameAt m n at x
    → FrameAt m' n at x
FrameAt-ext m m' n at x same f =
    let bounds = frame_bytes-bounds (length x) f.small in
    record {
      small = f.small;
      room = f.room;
      size = load_u32-ext m' m (at % n) (λ i p q. same i p (omega arith)) ∙ f.size;
      marker =
          load_u32-ext m' m (at % n + 4) (λ i p q. same i (omega arith) (omega arith)) ∙ f.marker;
      body =
          read_bytes-ext m' m (at % n + 8) (length x) (λ i p q. same i (omega arith) (omega arith))
          ∙ f.body;
    }

WrapAt-ext :
    (m m' : Memory) (n at : ℕ)
    → ((i : ℕ) → at % n ≤ i → i < at % n + 8 → m' i ≡ m i)
    → WrapAt m n at
    → WrapAt m' n at
WrapAt-ext m m' n at same f = record {
  room = f.room;
  marker = load_u32-ext m' m (at % n + 4) (λ i p q. same i (omega arith) (omega arith)) ∙ f.marker;
}

-- What is written behind `w` leaves the messages before it, and adds its own.
pub Holds-append :
    (m m' : Memory) (n w w' b : ℕ) {at : ℕ} {ms ms' : List (List ℕ)}
    → 0 < n
    → w % n + b ≤ n
    → w + b ≤ at + n
    → w ≤ w'
    → SameBut m m' (w % n) b
    → Holds m' n w' w ms'
    → Holds m n w at ms
    → Holds m' n w' at (ms ++ ms')
Holds-append m m' n w w' b {ms' = ms'} pos fits close le same new (done e) =
    subst (λ at. Holds m' n w' at ms') (sym e) new
Holds-append m m' n w w' b {at} pos fits close le same new (frame x f in_range rest) =
    let away = apart n at (frame_bytes (length x)) w b pos f.room fits in_range close in
    frame x (FrameAt-ext m m' n at x (λ i p q. same i (omega arith)) f) (omega arith)
      (Holds-append m m' n w w' b pos fits (omega arith) le same new rest)
Holds-append m m' n w w' b {at} pos fits close le same new (wrap f in_range rest) =
    let away = apart n at 8 w b pos f.room fits (omega (arith, f.room)) close in
    wrap (WrapAt-ext m m' n at (λ i p q. same i (omega arith)) f) (omega arith)
      (Holds-append m m' n w w' b pos fits (omega arith) le same new rest)
