-- ===== src/Ipc/Tests.antt =====
-- The channel on concrete inputs: a ring of 64 bytes for messages of at most 32.
use corekit.Base.{
  ℕ, ◌+◌, ◌-◌, ◌*◌, ◌%◌, ◌^◌, ◌≤◌, ◌<◌, ◌≡◌, ◌⊎◌, refl, true, false, some, List, [], ◌∷◌, ◌++◌,
  replicate, arith,
}
use corekit.Api.Status.{make_error_code, status_ok}
use corekit.Ipc.Layout.{
  frame_bytes, next_pow2, server_ring_bytes, total_bytes, shared_header_bytes, contiguous_from,
  used_bytes, align_up, local_outbox_limit,
}
use corekit.Ipc.Geometry.{
  IsRing, target_bytes, next_pow2-least, next_pow2-overflow, frame_bytes-bounds,
  server_ring_bytes-IsRing,
}
use corekit.Ipc.Frames.{done}
use corekit.Ipc.Channel.{ChannelOptions, Channel, Shared, queue_full, blocked_send, set_outbox}
use corekit.Ipc.Bytes.{store_u32, load_u32, write_bytes, read_bytes}
use corekit.Ipc.Send.{
  try_write_one_to_shared, try_send, enqueue, process_io_once, flush, write_wrapped, put_frame,
  frame_image, mark_wrap, count_dropped,
}
use corekit.Ipc.Recv.{Received, recv_frame, try_recv, recv_loop, take_frame}
use corekit.Ipc.Open.{new_channel, server_header, open_server}
use corekit.Ipc.Write.{IsOpen, HasRoom, placed}
use corekit.Ipc.Append.{try_write-appends, placed-IsOpen}
use corekit.Ipc.Read.{Outcome, recv_frame-Outcome}
use corekit.Ipc.Ready.{Sent, try_send-Sent}
use corekit.Ipc.Link.{Link, Call, sends, receives, call, run}
use corekit.Ipc.Link.Fifo.{Connected, run-fifo}
use corekit.Ipc.Text.{decimal, to_string, too_small_text}
use corekit.Ipc.Opened.{IsValid, server, client, server-IsOpen, ends-Connected}
use corekit.Ipc.Stall.{Stalled, run-Stalled, empty_accepts}
use corekit.Ipc.Overflow.{IsOversized, open_server-zero_ring, try_send-lost}

abbrev small_options : ChannelOptions
small_options = record {
  name_is_empty = false;
  capacity = 1;
  message_max_bytes = 32;
  drop_when_full = true;
}

small_options-IsValid : IsValid small_options
unfolding frame_bytes
small_options-IsValid = record {
  named = refl;
  capacity = omega arith;
  max_pos = omega arith;
  max_fits = omega arith;
  target = omega arith;
}

abbrev unmapped : Shared
unmapped = record {
  magic = 0;
  version = 0;
  capacity = 0;
  message_max_bytes = 0;
  ring_bytes = 0;
  ring_mask = 0;
  write_index = 0;
  read_index = 0;
  send_ok = 0;
  recv_ok = 0;
  dropped_when_full = 0;
  ring = λ i. 0;
}

abbrev closed : Channel
closed = new_channel small_options unmapped

abbrev server_end : Channel
server_end = server closed small_options

abbrev fresh_link : Link
fresh_link = record {
  sender = server_end;
  receiver = client small_options small_options-IsValid closed small_options;
}

abbrev bytes24 : List ℕ
bytes24 = replicate 24 7

abbrev bytes32 : List ℕ
bytes32 = replicate 32 9

-- Three sends and two receives, the first of them with a buffer that is too small.
abbrev script : List Call
script = sends bytes24 ∷ sends (1 ∷ 2 ∷ []) ∷ receives 3 ∷ receives 32 ∷ sends (5 ∷ []) ∷ []

-- To unfold this is to unfold all that a history runs through.
every_step : Unit {0}
unfolding run call try_send enqueue process_io_once flush try_write_one_to_shared write_wrapped
    put_frame frame_image mark_wrap count_dropped try_recv recv_frame recv_loop take_frame
    contiguous_from used_bytes frame_bytes align_up next_pow2 server_ring_bytes local_outbox_limit
    store_u32 load_u32 write_bytes read_bytes make_error_code
every_step = tt

small_ring : server_ring_bytes 32 1 ≡ 64
unfolding every_step
small_ring = refl

script-delivers :
    ((run fresh_link script).delivered ≡ bytes24 ∷ [])
    × ((run fresh_link script).accepted ≡ bytes24 ∷ (1 ∷ 2 ∷ []) ∷ (5 ∷ []) ∷ [])
unfolding every_step
script-delivers = (refl, refl)

-- The history that stalls this channel: 24 bytes pass, and then 32 bytes are sent.
abbrev stalling : List Call
stalling = sends bytes24 ∷ receives 32 ∷ sends bytes32 ∷ receives 32 ∷ sends [] ∷ receives 32 ∷ []

stalling-delivers :
    ((run fresh_link stalling).delivered ≡ bytes24 ∷ [])
    × ((run fresh_link stalling).link.sender.outbox ≡ bytes32 ∷ [] ∷ [])
    × ((run fresh_link stalling).link.sender.shared.write_index ≡ 32)
    × ((run fresh_link stalling).link.sender.shared.read_index ≡ 32)
unfolding every_step
stalling-delivers = (refl, refl, refl, refl)

-- The link that this history leaves, with the counters at 0.
abbrev tight_header : Shared
tight_header = record (server_header small_options) { write_index = 32; read_index = 32 }

abbrev tight_end : Channel
tight_end = record server_end { shared = tight_header; outbox = bytes32 ∷ [] }

abbrev tight_link : Link
tight_link = record {
  sender = tight_end;
  receiver = record fresh_link.receiver { shared = tight_header };
}

tight-IsRing : IsRing tight_header.ring_bytes tight_header.ring_mask
unfolding every_step
tight-IsRing = record {
  exponent = 6;
  at_least = omega arith;
  at_most = omega arith;
  size = refl;
  mask = refl;
}

tight_end-IsOpen : IsOpen tight_end []
unfolding every_step
tight_end-IsOpen = record {
  mapped = refl;
  ring = tight-IsRing;
  order = omega arith;
  span = omega arith;
  aligned = refl;
  holds = done refl;
}

tight_link-Stalled : Stalled bytes32 tight_link
unfolding every_step
tight_link-Stalled = record {
  sender = record {
    is_open = tight_end-IsOpen;
    opened = refl;
    empty = refl;
    far = omega arith;
    rest = [];
    pending = refl;
    small = omega arith;
    fits = omega arith;
    no_room = omega arith;
    tight = omega arith;
  };
  same = refl;
  mapped = refl;
  opened = refl;
  idle = refl;
}

run-Stalled_example :
    Stalled bytes32 (run tight_link script).link × ((run tight_link script).delivered ≡ [])
run-Stalled_example = run-Stalled script tight_link-Stalled

-- The text of kBufferTooSmall for 4294967295 bytes.
largest_text : too_small_text (2 ^ 32 - 1) ≡ "buffer too small, required=4294967295"
unfolding too_small_text to_string decimal
largest_text = refl

least_text : too_small_text 0 ≡ "buffer too small, required=0"
unfolding too_small_text to_string decimal
least_text = refl

run-fifo_example :
    (flight : List (List ℕ)) × Connected 32 flight (run fresh_link script).link
    × ([] ++ (run fresh_link script).accepted ≡ (run fresh_link script).delivered ++ flight)
run-fifo_example =
    run-fifo script (ends-Connected small_options small_options-IsValid closed closed small_options)
      (omega arith)

fresh_end-IsOpen : IsOpen server_end []
fresh_end-IsOpen = server-IsOpen small_options small_options-IsValid closed

frame24-fits : frame_bytes 24 ≤ server_ring_bytes 32 1
unfolding every_step
frame24-fits = omega arith

try_write-appends_example :
    (HasRoom server_end (frame_bytes 24)
      × ((try_write_one_to_shared server_end bytes24).0 ≡ status_ok)
      × IsOpen (try_write_one_to_shared server_end bytes24).1 (bytes24 ∷ []))
    ⊎ ((¬ HasRoom server_end (frame_bytes 24))
        × ((try_write_one_to_shared server_end bytes24).0 ≡ queue_full)
        × ((try_write_one_to_shared server_end bytes24).1 ≡ blocked_send server_end))
try_write-appends_example =
    try_write-appends fresh_end-IsOpen bytes24 (omega arith) (omega arith) frame24-fits

abbrev filled : Channel
filled = placed server_end bytes24

filled-room : HasRoom server_end (frame_bytes 24)
unfolding every_step
filled-room = omega arith

filled-write : (filled.shared.write_index < 2 ^ 63) × (filled.options.message_max_bytes ≡ 32)
unfolding every_step placed
filled-write = (omega arith, refl)

recv_frame-Outcome_example :
    (r : Received) × (recv_frame (filled.shared.write_index + 1) filled 24 ≡ some r)
    × Outcome filled 24 (bytes24 ∷ []) r
recv_frame-Outcome_example =
    recv_frame-Outcome 24
      (placed-IsOpen fresh_end-IsOpen bytes24 (omega arith) (omega arith) filled-room)
      filled-write.0 (omega (arith, filled-write.1))

try_send-Sent_example : Sent 32 [] bytes24 server_end (try_send server_end (some bytes24) 24)
try_send-Sent_example =
    try_send-Sent bytes24
      (ends-Connected small_options small_options-IsValid closed closed small_options).sending
      (omega arith) (omega arith)

two_frames : 2 * frame_bytes 24 ≤ server_ring_bytes 32 1
unfolding every_step
two_frames = omega arith

empty_accepts_example : (try_write_one_to_shared server_end bytes24).0 ≡ status_ok
empty_accepts_example =
    empty_accepts 24 bytes24 fresh_end-IsOpen refl (omega arith) (omega arith) two_frames
      (omega arith)

next_pow2-least_example :
    (k : ℕ) × (k ≤ 31) × (next_pow2 40 ≡ 2 ^ k) × (40 ≤ 2 ^ k) × (2 ^ k < 2 * 40)
next_pow2-least_example = next_pow2-least 40 (omega arith) (omega arith)

next_pow2-overflow_example : next_pow2 (2 ^ 31 + 1) ≡ 0
next_pow2-overflow_example = next_pow2-overflow (2 ^ 31 + 1) (omega arith) (omega arith)

frame_bytes-bounds_example :
    (frame_bytes 33 % 8 ≡ 0) × (8 + 33 ≤ frame_bytes 33) × (frame_bytes 33 < 16 + 33)
frame_bytes-bounds_example = frame_bytes-bounds 33 (omega arith)

server_ring_bytes-IsRing_example :
    IsRing (server_ring_bytes 32 1) ((server_ring_bytes 32 1 + 2 ^ 32 - 1) % 2 ^ 32)
    × (target_bytes 32 1 ≤ server_ring_bytes 32 1)
    × (total_bytes 32 1 ≡ shared_header_bytes + server_ring_bytes 32 1)
server_ring_bytes-IsRing_example =
    server_ring_bytes-IsRing 32 1 (omega arith) (omega arith) (omega arith) target_fits
  where
    target_fits : target_bytes 32 1 ≤ 2 ^ 31
    target_fits = small_options-IsValid.target

-- Three slots of 2^30 bytes.
abbrev big_options : ChannelOptions
big_options = record {
  name_is_empty = false;
  capacity = 3;
  message_max_bytes = 2 ^ 30 - 8;
  drop_when_full = true;
}

big_options-IsOversized : IsOversized big_options
unfolding frame_bytes align_up
big_options-IsOversized = record {
  named = refl;
  capacity = omega arith;
  max_pos = omega arith;
  max_fits = omega arith;
  above = omega arith;
  below = omega arith;
}

open_server-zero_ring_example :
    (open_server closed big_options status_ok ≡ (status_ok, server closed big_options))
    × ((server closed big_options).shared.ring_bytes ≡ 0)
open_server-zero_ring_example =
    open_server-zero_ring big_options big_options-IsOversized closed status_ok refl refl

big_ring : server_ring_bytes (2 ^ 30 - 8) 3 ≡ 0
unfolding every_step
big_ring = refl

try_send-lost_example :
    try_send (server closed big_options) (some bytes24) 24
    ≡ (status_ok, set_outbox (server closed big_options) [])
try_send-lost_example =
    try_send-lost (server closed big_options) bytes24 refl refl big_ring refl (omega arith)
      (omega arith)
