-- ===== src/Ipc/Layout.antt =====
-- The geometry of the ring: frame sizes, the size of the region, offsets and fill levels.
use Prim.Native.Nat.{bit_and, bit_or}
use corekit.Base.{ℕ, ◌+◌, ◌-◌, ◌*◌, ◌/◌, ◌%◌, ◌^◌, max, ltb, leb, if◌then◌else◌}

-- sizeof(FrameHeader): two 32-bit fields. sizeof(SharedHeader): four 64-byte lines.
abbrev pub frame_header_bytes : ℕ
frame_header_bytes = 8

abbrev pub shared_header_bytes : ℕ
shared_header_bytes = 256

abbrev pub u32_max : ℕ
u32_max = 2 ^ 32 - 1

abbrev pub channel_magic : ℕ
channel_magic = 0x4C4B4950

abbrev pub channel_version : ℕ
channel_version = 2

abbrev pub frame_data : ℕ
frame_data = 0

abbrev pub frame_wrap : ℕ
frame_wrap = 1

-- `std::uint64_t` (and `std::size_t`) addition.
abbrev pub add64 : ℕ → ℕ → ℕ
add64 a b = (a + b) % 2 ^ 64

unfoldable pub align_up : ℕ → ℕ → ℕ
align_up value align = ((value + align - 1) % 2 ^ 64) / align * align

-- `v` is a 32-bit number; the last sum wraps.
unfoldable pub next_pow2 : ℕ → ℕ
next_pow2 v =
    if leb v 1
    then 1
    else (let v0 = v - 1 in
        let v1 = bit_or v0 (v0 / 2 ^ 1) in
        let v2 = bit_or v1 (v1 / 2 ^ 2) in
        let v3 = bit_or v2 (v2 / 2 ^ 4) in
        let v4 = bit_or v3 (v3 / 2 ^ 8) in let v5 = bit_or v4 (v4 / 2 ^ 16) in (v5 + 1) % 2 ^ 32)

unfoldable pub frame_bytes : ℕ → ℕ
unfolding align_up
frame_bytes payload_size = align_up (frame_header_bytes + payload_size) 8

-- `TotalBytes`: 0 stands for a request that is too large.
unfoldable pub total_bytes : ℕ → ℕ → ℕ
total_bytes message_max_bytes capacity =
    let stride = frame_bytes message_max_bytes in
    let target = stride * capacity % 2 ^ 64 in
    if ltb u32_max target then 0 else shared_header_bytes + next_pow2 target

-- The ring size that `MapAsServer` puts into the header, in 32-bit arithmetic.
unfoldable pub server_ring_bytes : ℕ → ℕ → ℕ
server_ring_bytes message_max_bytes capacity =
    next_pow2 (frame_bytes message_max_bytes % 2 ^ 32 * capacity % 2 ^ 32)

unfoldable pub local_outbox_limit : ℕ → ℕ
local_outbox_limit capacity = max 4 (capacity * 2)

module _ (ring_bytes ring_mask : ℕ) where
  -- `index & RingMask()`.
  abbrev pub offset : ℕ → ℕ
  offset index = bit_and index ring_mask

  unfoldable pub contiguous_from : ℕ → ℕ
  contiguous_from index = (ring_bytes + 2 ^ 64 - offset index) % 2 ^ 64

unfoldable pub used_bytes : ℕ → ℕ → ℕ → ℕ
used_bytes ring_bytes write read =
    if ltb write read
    then ring_bytes
    else (let used = write - read in if ltb ring_bytes used then ring_bytes else used)
