-- ===== src/Ipc/Geometry.antt =====
-- The sizes of src/ipc/shared_memory_channel.cpp: what `NextPow2`, `FrameBytes`, `TotalBytes` and
-- `MapAsServer` compute.
use native.Mathlib.Nat.{pow-le-pow_right, one-le-pow, pow-succ', mod-eq_of_lt, mod-lt}
use native.Mathlib.Decide.{dec_lt}
use corekit.Base.{ℕ, suc, ◌+◌, ◌-◌, ◌*◌, ◌%◌, ◌^◌, ◌≤◌, ◌<◌, ◌≡◌, refl, ap, ◌∙◌, arith, ◌/◌}
use corekit.Base.Bits.{fill, fill-ones, log_bounds, bit_and_mask, mod-mul, pow-add}
use corekit.Ipc.Layout.{
  next_pow2, frame_bytes, total_bytes, server_ring_bytes, shared_header_bytes, u32_max, offset,
  contiguous_from,
}

-- The five steps of the code are those of `fill`.
next_pow2-fill : (v : ℕ) → 1 < v → next_pow2 v ≡ (fill 5 (v - 1) + 1) % 2 ^ 32
unfolding next_pow2 fill
next_pow2-fill v h = ground arith

next_pow2-eq : (v k : ℕ) → 2 ^ k < v → v ≤ 2 ^ suc k → v ≤ 2 ^ 32 → next_pow2 v ≡ 2 ^ suc k % 2 ^ 32
next_pow2-eq v k lo hi fits =
    let filled : fill 5 (v - 1) ≡ 2 ^ suc k - 1 =
      fill-ones 5 k (v - 1) (omega arith) (omega arith) (omega arith) in
    rw (next_pow2-fill v (omega (arith, one-le-pow k 2 (omega arith))), filled)
      (let e : 2 ^ suc k - 1 + 1 ≡ 2 ^ suc k = omega (arith, one-le-pow (suc k) 2 (omega arith)) in
        rw e)

pow-lt-pow : (k n : ℕ) → 2 ^ k < 2 ^ n → k < n
pow-lt-pow k n h = elim (dec_lt k n) [
  | yes p ↦ p
  | no p ↦
      absurd (omega (arith, pow-le-pow_right {n = 2} (omega arith) {i = n} {j = k} (omega arith)))
]

next_pow2-one : next_pow2 1 ≡ 1
unfolding next_pow2
next_pow2-one = refl

-- For 1 ≤ v ≤ 2^31 `NextPow2(v)` is a power of two, at least `v` and below `2 v`: so the least one.
pub next_pow2-least :
    (v : ℕ)
    → 0 < v
    → v ≤ 2 ^ 31
    → (k : ℕ) × (k ≤ 31) × (next_pow2 v ≡ 2 ^ k) × (v ≤ 2 ^ k) × (2 ^ k < 2 * v)
next_pow2-least v pos fits = elim (dec_lt 1 v) [
  | no p ↦ (0, omega arith, one v (omega arith), omega arith, omega arith)
  | yes p ↦
      let (k, lo, hi) = log_bounds (v - 1) (omega arith) in
      let small : k < 31 = pow-lt-pow k 31 (omega arith) in
      let bound : 2 ^ suc k ≤ 2 ^ 31 =
        pow-le-pow_right {n = 2} (omega arith) {i = suc k} {j = 31} (omega arith) in
      (
        suc k,
        small,
        next_pow2-eq v k (omega arith) (omega arith) (omega arith) ∙ mod-eq_of_lt (omega arith),
        omega arith,
        omega (arith, pow-succ' 2 k),
      )
]
  where
    one : (v : ℕ) → v ≡ 1 → next_pow2 v ≡ 1
    one v e = rw e next_pow2-one

-- Above 2^31 the 32-bit sum wraps, and the answer is 0.
pub next_pow2-overflow : (v : ℕ) → 2 ^ 31 < v → v ≤ u32_max → next_pow2 v ≡ 0
next_pow2-overflow v lo hi = next_pow2-eq v 31 lo (omega arith) (omega arith)

-- A frame holds its header and payload, and less than 8 bytes of padding up to a multiple of 8.
pub frame_bytes-bounds :
    (size : ℕ)
    → size < 2 ^ 32
    → (frame_bytes size % 8 ≡ 0) × (8 + size ≤ frame_bytes size) × (frame_bytes size < 16 + size)
unfolding frame_bytes
frame_bytes-bounds size h = omega arith

-- What makes a ring usable: its size is a power of two, and the mask fits it.
pub record IsRing (ring_bytes ring_mask : ℕ) : Type 0 where
  pub exponent : ℕ
  pub at_least : 4 ≤ exponent
  pub at_most : exponent ≤ 31
  pub size : ring_bytes ≡ 2 ^ exponent
  pub mask : ring_mask ≡ 2 ^ exponent - 1

module _ {ring_bytes ring_mask : ℕ} (r : IsRing ring_bytes ring_mask) where
  pub ring-bounds : (16 ≤ ring_bytes) × (ring_bytes ≤ 2 ^ 31)
  ring-bounds =
      let lo : 2 ^ 4 ≤ 2 ^ r.exponent = pow-le-pow_right {n = 2} (omega arith) r.at_least in
      let hi : 2 ^ r.exponent ≤ 2 ^ 31 = pow-le-pow_right {n = 2} (omega arith) r.at_most in
      omega (arith, r.size)

  pub offset-mod : (i : ℕ) → offset ring_bytes ring_mask i ≡ i % ring_bytes
  offset-mod i = rw (r.mask, r.size) (bit_and_mask r.exponent i)

  pub contiguous-eq : (i : ℕ) → contiguous_from ring_bytes ring_mask i ≡ ring_bytes - i % ring_bytes
  unfolding contiguous_from
  contiguous-eq i =
      omega
        (arith, offset-mod i, mod-lt i {m = ring_bytes} (omega (arith, ring-bounds)), ring-bounds)

  -- Offsets keep the alignment of the frames.
  pub offset-aligned : (i : ℕ) → i % 8 ≡ 0 → (i % ring_bytes % 8 ≡ 0) × (ring_bytes % 8 ≡ 0)
  offset-aligned i h =
      let m : ℕ = 2 ^ (r.exponent - 3) in
      let e : 2 ^ r.exponent ≡ 2 ^ (3 + (r.exponent - 3)) =
        ap (λ (k : ℕ). 2 ^ k) (omega (arith, r.at_least)) in
      let size : ring_bytes ≡ 8 * m = r.size ∙ e ∙ pow-add 3 (r.exponent - 3) in
      let pos : 0 < m = one-le-pow (r.exponent - 3) 2 (omega arith) in
      let split : i % (8 * m) ≡ i % 8 + i / 8 % m * 8 = mod-mul 8 m i (omega arith) pos in
      (rw size (omega (arith, split)), omega arith)

-- The largest frame times the number of slots, which the server rounds up.
abbrev pub target_bytes : ℕ → ℕ → ℕ
target_bytes message_max_bytes capacity = frame_bytes message_max_bytes * capacity

module _ (max slots : ℕ) (fits32 : max < 2 ^ 32) (pos : 0 < slots) where
  pub stride-le-target : frame_bytes max ≤ target_bytes max slots
  stride-le-target = grind arith

  module _ (fits : target_bytes max slots ≤ 2 ^ 31) where
    server_ring_bytes-next_pow2 : server_ring_bytes max slots ≡ next_pow2 (target_bytes max slots)
    unfolding server_ring_bytes
    server_ring_bytes-next_pow2 =
        let stride : frame_bytes max % 2 ^ 32 ≡ frame_bytes max =
          mod-eq_of_lt (omega (arith, stride-le-target)) in
        let t32 : target_bytes max slots % 2 ^ 32 ≡ target_bytes max slots =
          mod-eq_of_lt (omega arith) in
        rw (stride, t32)

    total_bytes-next_pow2 :
        total_bytes max slots ≡ shared_header_bytes + next_pow2 (target_bytes max slots)
    unfolding total_bytes
    total_bytes-next_pow2 =
        let t64 : target_bytes max slots % 2 ^ 64 ≡ target_bytes max slots =
          mod-eq_of_lt (omega arith) in
        rw t64 (ground arith)

-- A server whose frames take at most 2^31 bytes gets a ring that is a power of two and holds
-- `capacity` frames of the largest size. `TotalBytes` counts the same ring.
pub server_ring_bytes-IsRing :
    (message_max_bytes capacity : ℕ)
    → 0 < message_max_bytes
    → message_max_bytes < 2 ^ 32
    → 0 < capacity
    → target_bytes message_max_bytes capacity ≤ 2 ^ 31
    → let ring = server_ring_bytes message_max_bytes capacity in
      IsRing ring ((ring + 2 ^ 32 - 1) % 2 ^ 32)
      × (target_bytes message_max_bytes capacity ≤ ring)
      × (total_bytes message_max_bytes capacity ≡ shared_header_bytes + ring)
server_ring_bytes-IsRing max slots pm hm pc fits =
    let bounds = frame_bytes-bounds max hm in
    let big = stride-le-target max slots hm pc in
    let least = next_pow2-least (target_bytes max slots) (omega arith) fits in
    rw
      (
        server_ring_bytes-next_pow2 max slots hm pc fits,
        total_bytes-next_pow2 max slots hm pc fits,
        least.2,
      )
      (
        record {
          exponent = least.0;
          at_least = pow-lt-pow 3 least.0 (omega arith);
          at_most = least.1;
          size = refl;
          mask = omega arith;
        },
        least.3,
        refl,
      )
