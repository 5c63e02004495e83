-- ===== src/Ipc/Overflow.antt =====
-- A server whose frames take more than 2^31 bytes, but fit 32 bits: `TotalBytes` lets it through, and
-- `NextPow2` gives it a ring of 0 bytes, in which nothing fits.
use native.Mathlib.Nat.{mod-eq_of_lt}
use corekit.Base.{
  ℕ, zero, suc, ◌%◌, ◌^◌, ◌≤◌, ◌<◌, ◌≡◌, refl, ap, true, false, some, List, [], ◌∷◌, length, ltb,
  leb, min, max, ◌==◌, ◌&&◌, arith,
}
use corekit.Api.Status.{Status, status, status_ok, is_ok, invalid_argument}
use corekit.Ipc.Layout.{
  frame_bytes, total_bytes, server_ring_bytes, shared_header_bytes, u32_max, local_outbox_limit,
}
use corekit.Ipc.Geometry.{target_bytes, stride-le-target, next_pow2-overflow, frame_bytes-bounds}
use corekit.Ipc.Channel.{ChannelOptions, Channel, set_outbox}
use corekit.Ipc.Send.{try_write_one_to_shared, flush, process_io_once, enqueue, try_send}
use corekit.Ipc.Open.{validate_options, map_as_server, open_server}
use corekit.Ipc.Opened.{server}
use corekit.Ipc.Ready.{take-length}
use corekit.Ipc.Flush.{flush-round}
use corekit.Ipc.Link.Fifo.{process_io_once-idle}

-- Options that pass every check, for frames of more than 2^31 bytes in all.
pub record IsOversized (o : ChannelOptions) : Type 0 where
  pub named : o.name_is_empty ≡ false
  pub capacity : 0 < o.capacity
  pub max_pos : 0 < o.message_max_bytes
  pub max_fits : o.message_max_bytes < 2 ^ 32
  pub above : 2 ^ 31 < target_bytes o.message_max_bytes o.capacity
  pub below : target_bytes o.message_max_bytes o.capacity ≤ u32_max

module _ (o : ChannelOptions) (v : IsOversized o) where
  target : ℕ
  target = target_bytes o.message_max_bytes o.capacity

  ring_zero : server_ring_bytes o.message_max_bytes o.capacity ≡ 0
  unfolding server_ring_bytes
  ring_zero =
      let stride : frame_bytes o.message_max_bytes % 2 ^ 32 ≡ frame_bytes o.message_max_bytes =
        mod-eq_of_lt (
          omega (
            arith,
            v.below,
            stride-le-target o.message_max_bytes o.capacity v.max_fits v.capacity,
          )) in
      let whole : target_bytes o.message_max_bytes o.capacity % 2 ^ 32
          ≡ target_bytes o.message_max_bytes o.capacity =
        mod-eq_of_lt (omega (arith, v.below)) in
      rw (stride, whole) (next_pow2-overflow _ v.above v.below)

  total_small : total_bytes o.message_max_bytes o.capacity ≡ shared_header_bytes
  unfolding total_bytes
  total_small =
      let whole : target_bytes o.message_max_bytes o.capacity % 2 ^ 64
          ≡ target_bytes o.message_max_bytes o.capacity =
        mod-eq_of_lt (omega (arith, v.below)) in
      let fits : ltb u32_max (target_bytes o.message_max_bytes o.capacity) ≡ false =
        ground (arith, v.below) in
      let nothing =
        next_pow2-overflow (target_bytes o.message_max_bytes o.capacity) v.above v.below in
      rw (whole, fits, nothing)

  -- `OpenServer` succeeds, with a ring of 0 bytes.
  pub open_server-zero_ring :
      (c : Channel) (created : Status)
      → c.opened ≡ false
      → is_ok created ≡ true
      → (open_server c o created ≡ (status_ok, server c o)) × ((server c o).shared.ring_bytes ≡ 0)
  unfolding open_server map_as_server validate_options
  open_server-zero_ring c created shut good =
      let some_slots : (o.capacity == 0) ≡ false = ground (arith, v.capacity) in
      let some_bytes : (o.message_max_bytes == 0) ≡ false = ground (arith, v.max_pos) in
      (simp (shut, v.named, some_slots, some_bytes, total_small, good), ring_zero)

-- A frame does not fit a ring of 0 bytes.
write_rejected :
    (c : Channel) (m : List ℕ)
    → c.mapped ≡ true
    → c.shared.ring_bytes ≡ 0
    → length m < 2 ^ 32
    → try_write_one_to_shared c m ≡ (status invalid_argument "frame exceeds ring size", c)
unfolding try_write_one_to_shared
write_rejected c m mapped none_there small =
    let long : ltb 0 (frame_bytes (length m)) ≡ true =
      ground (arith, frame_bytes-bounds (length m) small) in
    simp (mapped, none_there, long)

flush_lost :
    (budget : ℕ) (c : Channel) (m : List ℕ)
    → 0 < budget
    → c.mapped ≡ true
    → c.shared.ring_bytes ≡ 0
    → length m < 2 ^ 32
    → flush budget (m ∷ []) c ≡ set_outbox c []
unfolding flush
flush_lost zero c m h mapped none_there small = absurd (omega arith)
flush_lost (suc n) c m h mapped none_there small =
    flush-round n m [] c (write_rejected c m mapped none_there small)

process_lost :
    (budget : ℕ) (c : Channel) (m : List ℕ)
    → 0 < budget
    → c.mapped ≡ true
    → c.shared.ring_bytes ≡ 0
    → length m < 2 ^ 32
    → process_io_once budget (set_outbox c (m ∷ [])) ≡ set_outbox c []
unfolding process_io_once
process_lost budget c m h mapped none_there small =
    flush_lost budget (set_outbox c (m ∷ [])) m h mapped none_there small

-- On such a channel `TrySend` returns `kOk` for every message of at most the largest size, and the
-- message is gone: neither the ring nor the outbox has it, and no counter tells.
pub try_send-lost :
    (c : Channel) (m : List ℕ)
    → c.opened ≡ true
    → c.mapped ≡ true
    → c.shared.ring_bytes ≡ 0
    → c.outbox ≡ []
    → length m ≤ c.options.message_max_bytes
    → c.options.message_max_bytes < 2 ^ 32
    → try_send c (some m) (length m) ≡ (status_ok, set_outbox c [])
unfolding try_send enqueue
try_send-lost c m opened mapped none_there idle short small =
    let not_long : ltb c.options.message_max_bytes (length m) ≡ false = ground arith in
    let not_null : (ltb 0 (length m) && false) ≡ false = ground arith in
    let room : leb (local_outbox_limit c.options.capacity) 0 ≡ false = ground (arith, limit_pos) in
    let lost =
      process_lost (max 1 (min 8 (local_outbox_limit c.options.capacity)))
        (record c { opened = true; mapped = true }) m (omega arith) refl none_there (omega arith) in
    simp
      (opened, mapped, not_long, not_null, take-length, process_io_once-idle 1 c idle, idle, room)
      (ap (λ x. (status_ok, x)) lost)
  where
    limit_pos : 4 ≤ local_outbox_limit c.options.capacity
    limit_pos = unfold local_outbox_limit in omega arith
