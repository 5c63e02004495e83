-- ===== src/Ipc/Open.antt =====
-- Opening and closing a channel: src/ipc/shared_memory_channel.cpp. What the platform's `IShmBackend`
-- answers to `Create` and `Open`, and the header that a client finds, come in as arguments.
use Prim.Native.Nat.{bit_and}
use corekit.Base.{◌-◌, ◌+◌, ◌%◌, ◌^◌, true, false, not, ◌||◌, [], ◌==◌, if◌then◌else◌}
use corekit.Api.Status.{
  Status, status, status_ok, is_ok, invalid_argument, already_initialized, internal_error,
}
use corekit.Ipc.Layout.{channel_magic, channel_version, total_bytes, server_ring_bytes}
use corekit.Ipc.Channel.{ChannelOptions, Channel, Shared}

unfoldable pub validate_options : ChannelOptions → Status
validate_options o =
    if o.name_is_empty
    then status invalid_argument "channel name is empty"
    else if o.capacity == 0
    then status invalid_argument "capacity must be > 0"
    else if o.message_max_bytes == 0
    then status invalid_argument "message_max_bytes must be > 0"
    else status_ok

-- A region that was just mapped and cleared, with the header that the server writes.
abbrev pub server_header : ChannelOptions → Shared
server_header o =
    let ring_bytes = server_ring_bytes o.message_max_bytes o.capacity in
    record {
      magic = channel_magic;
      version = channel_version;
      capacity = o.capacity;
      message_max_bytes = o.message_max_bytes;
      ring_bytes = ring_bytes;
      ring_mask = (ring_bytes + 2 ^ 32 - 1) % 2 ^ 32;
      write_index = 0;
      read_index = 0;
      send_ok = 0;
      recv_ok = 0;
      dropped_when_full = 0;
      ring = λ i. 0;
    }

-- `created` is the backend's answer to `Create`.
unfoldable pub map_as_server : Channel → ChannelOptions → Status → Status × Channel
map_as_server c o created =
    if total_bytes o.message_max_bytes o.capacity == 0
    then (status invalid_argument "channel memory size is too large", c)
    else if is_ok created
    then (status_ok, record c { shared = server_header o; mapped = true; opened = true })
    else (created, c)

-- What both ways to open do before they map: the options are taken over, the outbox is emptied.
abbrev pub prepared : Channel → ChannelOptions → Channel
prepared c o = record c { options = o; outbox = []; pending_drop = 0 }

unfoldable pub open_server : Channel → ChannelOptions → Status → Status × Channel
open_server c o created =
    if c.opened
    then (status already_initialized "channel already opened", c)
    else (let st = validate_options o in
        if is_ok st then map_as_server (prepared c o) o created else (st, c))

-- `found` is the region behind the name, `opened` and `reopened` the backend's answers to the mapping
-- of the header alone and of the whole region.
unfoldable pub map_as_client : Channel → Status → Shared → Status → Status × Channel
map_as_client c opened found reopened =
    if not (is_ok opened)
    then (opened, c)
    else if not (found.magic == channel_magic) || not (found.version == channel_version)
    then (status internal_error "channel header magic/version mismatch", c)
    else if found.ring_bytes == 0 || not (bit_and found.ring_bytes (found.ring_bytes - 1) == 0)
    then (status internal_error "channel ring_bytes is invalid", c)
    else (let o = record c.options {
      capacity = found.capacity;
      message_max_bytes = found.message_max_bytes;
    } in
        let c' = record c { options = o } in
        if is_ok reopened
        then (status_ok, record c' { shared = found; mapped = true; opened = true })
        else (reopened, c'))

unfoldable pub open_client : Channel → ChannelOptions → Status → Shared → Status → Status × Channel
open_client c o opened found reopened =
    if c.opened
    then (status already_initialized "channel already opened", c)
    else if o.name_is_empty
    then (status invalid_argument "channel name is empty", c)
    else map_as_client (prepared c o) opened found reopened

-- The constructor's state; the region is nothing yet.
abbrev pub new_channel : ChannelOptions → Shared → Channel
new_channel o unmapped = record {
  options = o;
  would_block_send = 0;
  would_block_recv = 0;
  pending_drop = 0;
  outbox = [];
  opened = false;
  mapped = false;
  shared = unmapped;
}

unfoldable pub close : Channel → Status × Channel
close c = (status_ok, record c { outbox = []; mapped = false; opened = false })
