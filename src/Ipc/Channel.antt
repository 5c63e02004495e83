-- ===== src/Ipc/Channel.antt =====
-- The state of `SharedMemoryChannel`: src/ipc/shared_memory_channel.hpp. A call is one step: the other
-- side does not move the indices inside it.
use corekit.Base.{ℕ, Bool, true, false, Option, none, some, List, [], take, if◌then◌else◌}
use corekit.Api.Status.{Status, status, would_block}
use corekit.Ipc.Bytes.{Memory}
use corekit.Ipc.Layout.{add64}

pub record ChannelOptions : Type 0 where
  -- The name's emptiness is all that the channel looks at; the name itself goes to the backend.
  pub name_is_empty : Bool
  pub capacity : ℕ
  pub message_max_bytes : ℕ
  pub drop_when_full : Bool

-- `SharedHeader`, and the ring's bytes behind it.
pub record Shared : Type 0 where
  pub magic : ℕ
  pub version : ℕ
  pub capacity : ℕ
  pub message_max_bytes : ℕ
  pub ring_bytes : ℕ
  pub ring_mask : ℕ
  pub write_index : ℕ
  pub read_index : ℕ
  pub send_ok : ℕ
  pub recv_ok : ℕ
  pub dropped_when_full : ℕ
  pub ring : Memory

-- The members of the class. `header_` is the shared region once it is mapped.
pub record Channel : Type 0 where
  pub options : ChannelOptions
  pub would_block_send : ℕ
  pub would_block_recv : ℕ
  pub pending_drop : ℕ
  pub outbox : List (List ℕ)
  pub opened : Bool
  pub mapped : Bool
  pub shared : Shared

abbrev pub ring_size : Channel → ℕ
ring_size c = if c.mapped then c.shared.ring_bytes else 0

abbrev pub mask_of : Channel → ℕ
mask_of c = if c.mapped then c.shared.ring_mask else 0

-- Stores of the two indices.
abbrev pub set_write : Channel → ℕ → Channel
set_write c w = record c { shared = record c.shared { write_index = w } }

abbrev pub set_read : Channel → ℕ → Channel
set_read c r = record c { shared = record c.shared { read_index = r } }

abbrev pub set_ring : Channel → Memory → Channel
set_ring c m = record c { shared = record c.shared { ring = m } }

-- `local_would_block_send_.fetch_add(1)` and its like.
abbrev pub blocked_send : Channel → Channel
blocked_send c = record c { would_block_send = add64 c.would_block_send 1 }

abbrev pub blocked_recv : Channel → Channel
blocked_recv c = record c { would_block_recv = add64 c.would_block_recv 1 }

abbrev pub queue_full : Status
queue_full = status would_block "channel queue is full"

abbrev pub set_outbox : Channel → List (List ℕ) → Channel
set_outbox c pending = record c { outbox = pending }

-- The caller's memory is `none` for a null pointer, and holds at least `size` bytes otherwise.
abbrev pub payload : Option (List ℕ) → ℕ → List ℕ
payload none size = []
payload (some bytes) size = take size bytes

abbrev pub is_null {ℓ} : {A : Type ℓ} → Option A → Bool
is_null none = true
is_null (some a) = false
