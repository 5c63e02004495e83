-- ===== src/Ipc/Bytes.antt =====
-- The mapped bytes behind `RingBase()`: `memcpy`, `memset`, and the 32-bit fields of a frame header,
-- which x86 and ARM store lowest byte first.
use corekit.Base.{
  ℕ, zero, suc, ◌+◌, ◌*◌, ◌/◌, ◌%◌, ◌^◌, ◌≤◌, ◌<◌, ◌≡◌, ◌⊎◌, inl, refl, ap₂, List, [], ◌∷◌, length,
  ◌==◌, if◌then◌else◌, arith,
}

abbrev pub Memory : Type 0
Memory = ℕ → ℕ

abbrev pub store_byte : Memory → ℕ → ℕ → Memory
store_byte mem at b i = if i == at then b else mem i

unfoldable pub write_bytes : Memory → ℕ → List ℕ → Memory
write_bytes mem at [] = mem
write_bytes mem at (b ∷ bs) = write_bytes (store_byte mem at b) (at + 1) bs

unfoldable pub read_bytes : Memory → ℕ → ℕ → List ℕ
read_bytes mem at zero = []
read_bytes mem at (suc n) = mem at ∷ read_bytes mem (at + 1) n

abbrev pub u32_bytes : ℕ → List ℕ
u32_bytes v = (v % 256) ∷ (v / 256 % 256) ∷ (v / 2 ^ 16 % 256) ∷ (v / 2 ^ 24 % 256) ∷ []

unfoldable pub store_u32 : Memory → ℕ → ℕ → Memory
unfolding write_bytes
store_u32 mem at v = write_bytes mem at (u32_bytes v)

unfoldable pub load_u32 : Memory → ℕ → ℕ
load_u32 mem at = mem at + 256 * mem (at + 1) + 2 ^ 16 * mem (at + 2) + 2 ^ 24 * mem (at + 3)

-- A byte outside the range that is written stays.
pub write_bytes-outside :
    (mem : Memory) (at : ℕ) (bs : List ℕ) (i : ℕ)
    → (i < at) ⊎ (at + length bs ≤ i)
    → write_bytes mem at bs i ≡ mem i
unfolding write_bytes
write_bytes-outside mem at [] i h = refl
write_bytes-outside mem at (b ∷ bs) i h =
    ground (arith, write_bytes-outside (store_byte mem at b) (at + 1) bs i)

pub read_bytes-ext :
    (m m' : Memory) (at n : ℕ)
    → ((i : ℕ) → at ≤ i → i < at + n → m i ≡ m' i)
    → read_bytes m at n ≡ read_bytes m' at n
unfolding read_bytes
read_bytes-ext m m' at zero h = refl
read_bytes-ext m m' at (suc n) h =
    ap₂ ◌∷◌ (h at (omega arith) (omega arith))
      (read_bytes-ext m m' (at + 1) n (λ i p q. h i (omega arith) (omega arith)))

pub load_u32-ext :
    (m m' : Memory) (at : ℕ)
    → ((i : ℕ) → at ≤ i → i < at + 4 → m i ≡ m' i)
    → load_u32 m at ≡ load_u32 m' at
unfolding load_u32
load_u32-ext m m' at h = rw (
  h at (omega arith) (omega arith),
  h (at + 1) (omega arith) (omega arith),
  h (at + 2) (omega arith) (omega arith),
  h (at + 3) (omega arith) (omega arith),
)

-- What is written is read back.
pub read_bytes-write_bytes :
    (mem : Memory) (at : ℕ) (bs : List ℕ) → read_bytes (write_bytes mem at bs) at (length bs) ≡ bs
unfolding read_bytes write_bytes
read_bytes-write_bytes mem at [] = refl
read_bytes-write_bytes mem at (b ∷ bs) =
    ap₂ ◌∷◌
      (ground (arith, write_bytes-outside (store_byte mem at b) (at + 1) bs at (inl (omega arith))))
      (read_bytes-write_bytes (store_byte mem at b) (at + 1) bs)

pub store_u32-outside :
    (mem : Memory) (at v i : ℕ) → (i < at) ⊎ (at + 4 ≤ i) → store_u32 mem at v i ≡ mem i
unfolding store_u32
store_u32-outside mem at v i h = write_bytes-outside mem at (u32_bytes v) i h

pub load_u32-store_u32 :
    (mem : Memory) (at v : ℕ) → v < 2 ^ 32 → load_u32 (store_u32 mem at v) at ≡ v
unfolding load_u32 store_u32
load_u32-store_u32 mem at v h = ground arith
