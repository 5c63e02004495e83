-- ===== src/Ipc/Send.antt =====
-- The sending half of src/ipc/shared_memory_channel.cpp.
use corekit.Base.{
  ℕ, zero, suc, ◌+◌, ◌-◌, min, max, Bool, true, false, not, ◌||◌, ◌&&◌, Option, List, [], ◌∷◌, ◌++◌,
  length, replicate, ltb, leb, if◌then◌else◌,
}
use corekit.Api.Status.{
  StatusCode, Status, status, status_ok, invalid_argument, not_initialized, would_block,
}
use corekit.Ipc.Bytes.{Memory, write_bytes, store_u32}
use corekit.Ipc.Layout.{
  frame_header_bytes, frame_data, frame_wrap, add64, frame_bytes, local_outbox_limit, offset,
  contiguous_from, used_bytes,
}
use corekit.Ipc.Channel.{
  Channel, ring_size, mask_of, set_write, set_ring, blocked_send, queue_full, set_outbox, payload,
  is_null,
}

-- The bytes of a frame at offset `off`: header, payload, padding.
unfoldable pub frame_image : Memory → ℕ → List ℕ → Memory
unfolding store_u32 write_bytes
frame_image mem off message =
    let size = length message in
    let headed = store_u32 (store_u32 mem off size) (off + 4) frame_data in
    let filled = write_bytes headed (off + frame_header_bytes) message in
    write_bytes filled (off + frame_header_bytes + size)
      (replicate (frame_bytes size - frame_header_bytes - size) 0)

-- The last part of `TryWriteOneToShared`: the frame goes to `write`, and is published.
unfoldable pub put_frame : Channel → ℕ → List ℕ → Channel
put_frame c write message = record c {
  shared = record c.shared {
    ring = frame_image c.shared.ring (offset (ring_size c) (mask_of c) write) message;
    write_index = add64 write (frame_bytes (length message));
    send_ok = add64 c.shared.send_ok 1;
  };
}

-- The marker that sends the reader back to the start of the ring.
unfoldable pub mark_wrap : Channel → ℕ → Channel
mark_wrap c write =
    let tail_off = offset (ring_size c) (mask_of c) write in
    set_ring c (store_u32 (store_u32 c.shared.ring tail_off 0) (tail_off + 4) frame_wrap)

abbrev pub free_bytes : Channel → ℕ → ℕ
free_bytes c write = ring_size c - used_bytes (ring_size c) write c.shared.read_index

-- After the wrap: the indices are read again.
unfoldable pub write_wrapped : Channel → ℕ → List ℕ → Status × Channel
write_wrapped c write message =
    if ltb (free_bytes c write) (frame_bytes (length message))
    then (queue_full, blocked_send c)
    else (status_ok, put_frame c write message)

unfoldable pub try_write_one_to_shared : Channel → List ℕ → Status × Channel
try_write_one_to_shared c message =
    let needed = frame_bytes (length message) in
    if ltb (ring_size c) needed
    then (status invalid_argument "frame exceeds ring size", c)
    else (let write = c.shared.write_index in
        let free = free_bytes c write in
        let contiguous = contiguous_from (ring_size c) (mask_of c) write in
        if ltb contiguous frame_header_bytes || ltb contiguous needed
        then (if ltb free (contiguous + needed)
            then (queue_full, blocked_send c)
            else (let marked = if leb frame_header_bytes contiguous then mark_wrap c write else c in
                let write' = add64 write contiguous in
                write_wrapped (set_write marked write') write' message))
        else if ltb free needed
        then (queue_full, blocked_send c)
        else (status_ok, put_frame c write message))

-- The loop of `ProcessIoOnce` over the pending messages. A message that cannot be written is
-- dropped, unless the ring is full.
unfoldable pub flush : ℕ → List (List ℕ) → Channel → Channel
flush remaining [] c = set_outbox c []
flush zero (m ∷ ms) c = set_outbox c (m ∷ ms)
flush (suc remaining) (m ∷ ms) c =
    let (st, c') = try_write_one_to_shared c m in
    elim st.code [
      | StatusCode.ok ↦ flush remaining ms c'
      | StatusCode.would_block ↦ set_outbox c' (m ∷ ms)
      | _ ↦ flush (suc remaining) ms c'
    ]

unfoldable pub process_io_once : ℕ → Channel → Channel
process_io_once write_budget c = flush write_budget c.outbox c

-- With `drop_when_full` a refused message counts as dropped.
unfoldable pub count_dropped : Bool → Channel → Channel
count_dropped true c = record c {
  pending_drop = add64 c.pending_drop 1;
  shared = record c.shared { dropped_when_full = add64 c.shared.dropped_when_full 1 };
}
count_dropped false c = c

abbrev pub pending_full : Status
pending_full = status would_block "local pending queue is full"

-- The second half of `TrySend`: the message joins the outbox, unless that is full.
unfoldable pub enqueue : Channel → List ℕ → Status × Channel
enqueue c message =
    let limit = local_outbox_limit c.options.capacity in
    if leb limit (length c.outbox)
    then (pending_full, count_dropped c.options.drop_when_full (blocked_send c))
    else (
      status_ok,
      process_io_once (max 1 (min 8 limit)) (set_outbox c (c.outbox ++ message ∷ [])),
    )

unfoldable pub try_send : Channel → Option (List ℕ) → ℕ → Status × Channel
try_send c bytes size =
    if not c.opened || not c.mapped
    then (status not_initialized "channel is not opened", c)
    else if ltb 0 size && is_null bytes
    then (status invalid_argument "data is null", c)
    else if ltb c.options.message_max_bytes size
    then (status invalid_argument "message exceeds max bytes", c)
    else enqueue (process_io_once 1 c) (payload bytes size)
