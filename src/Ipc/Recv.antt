-- ===== src/Ipc/Recv.antt =====
-- The receiving half of src/ipc/shared_memory_channel.cpp.
use corekit.Base.{
  ℕ, zero, suc, ◌+◌, Bool, not, ◌||◌, ◌&&◌, Option, none, some, List, [], String, ltb, leb, ◌==◌,
  if◌then◌else◌,
}
use corekit.Api.Status.{
  StatusCode, Result, value, error, status, not_initialized, invalid_argument, would_block,
  internal_error, buffer_too_small,
}
use corekit.Ipc.Text.{too_small_text}
use corekit.Ipc.Bytes.{read_bytes, load_u32}
use corekit.Ipc.Layout.{
  frame_header_bytes, frame_data, frame_wrap, add64, frame_bytes, offset, contiguous_from,
}
use corekit.Ipc.Channel.{Channel, ring_size, mask_of, set_read, blocked_recv}
use corekit.Ipc.Send.{process_io_once}

-- What a receive hands back: the result, what it copied to the caller's buffer, the new state.
pub record Received : Type 0 where
  pub result : Result ℕ
  pub copied : List ℕ
  pub channel : Channel

abbrev pub failed : StatusCode → String → Channel → Received
failed code message c = record { result = error (status code message); copied = []; channel = c }

abbrev pub no_message : Channel → Received
no_message c = failed would_block "channel has no message" (blocked_recv c)

-- A data frame at `read`: its size is checked, and its payload copied out.
unfoldable pub take_frame : Channel → ℕ → ℕ → ℕ → Received
take_frame c read contiguous buffer_size =
    let off = offset (ring_size c) (mask_of c) read in
    let required = load_u32 c.shared.ring off in
    if ltb c.options.message_max_bytes required
    then failed internal_error "corrupted frame size" c
    else (let needed = frame_bytes required in
        if ltb contiguous needed || ltb c.shared.write_index (add64 read needed)
        then failed would_block "incomplete frame" (blocked_recv c)
        else if ltb buffer_size required
        then failed buffer_too_small (too_small_text required) c
        else record {
          result = value required;
          copied = read_bytes c.shared.ring (off + frame_header_bytes) required;
          channel = record c {
            shared = record c.shared {
              read_index = add64 read needed;
              recv_ok = add64 c.shared.recv_ok 1;
            };
          };
        })

-- The `while (true)` loop on fuel, at `read` with `contiguous` bytes up to the end of the ring.
-- `none` means that the fuel ran out.
unfoldable pub recv_loop : ℕ → Channel → ℕ → ℕ → ℕ → Option Received
recv_loop zero c read contiguous buffer_size = none
recv_loop (suc fuel) c read contiguous buffer_size =
    let off = offset (ring_size c) (mask_of c) read in
    let marker = load_u32 c.shared.ring (off + 4) in
    let read1 = add64 read contiguous in
    let c1 = set_read c read1 in
    let contiguous1 = contiguous_from (ring_size c) (mask_of c) read1 in
    let read2 = add64 read1 contiguous1 in
    let c2 = set_read c read2 in
    let again1 = recv_loop fuel c1 read1 contiguous1 buffer_size in
    let again2 =
      recv_loop fuel c2 read2 (contiguous_from (ring_size c) (mask_of c) read2) buffer_size in
    if marker == frame_wrap
    then (if leb c.shared.write_index read1
        then some (no_message c1)
        else if ltb contiguous1 frame_header_bytes
        then (if leb c.shared.write_index read2 then some (no_message c2) else again2)
        else again1)
    else if marker == frame_data
    then some (take_frame c read contiguous buffer_size)
    else some (failed internal_error "corrupted frame marker" c)

-- From the first look at the indices on.
unfoldable pub recv_frame : ℕ → Channel → ℕ → Option Received
recv_frame fuel c buffer_size =
    let read = c.shared.read_index in
    let contiguous = contiguous_from (ring_size c) (mask_of c) read in
    let read1 = add64 read contiguous in
    let c1 = set_read c read1 in
    if leb c.shared.write_index read
    then some (no_message c)
    else if ltb contiguous frame_header_bytes
    then (if leb c.shared.write_index read1
        then some (no_message c1)
        else recv_loop fuel c1 read1 (contiguous_from (ring_size c) (mask_of c) read1) buffer_size)
    else recv_loop fuel c read contiguous buffer_size

-- Every round of the loop moves `read` on, so that as many rounds as there are bytes to read suffice.
unfoldable pub try_recv : Channel → Bool → ℕ → Option Received
unfolding recv_frame process_io_once
try_recv c buffer_is_null buffer_size =
    if not c.opened || not c.mapped
    then some (failed not_initialized "channel is not opened" c)
    else if ltb 0 buffer_size && buffer_is_null
    then some (failed invalid_argument "buffer is null" c)
    else (let c1 = process_io_once 1 c in recv_frame (c1.shared.write_index + 1) c1 buffer_size)

pub record ChannelStats : Type 0 where
  pub send_ok : ℕ
  pub recv_ok : ℕ
  pub dropped_when_full : ℕ
  pub would_block_send : ℕ
  pub would_block_recv : ℕ

unfoldable pub get_stats : Channel → ChannelStats
get_stats c = record {
  send_ok = if c.mapped then c.shared.send_ok else 0;
  recv_ok = if c.mapped then c.shared.recv_ok else 0;
  dropped_when_full = if c.mapped then c.shared.dropped_when_full else 0;
  would_block_send = c.would_block_send;
  would_block_recv = c.would_block_recv;
}
