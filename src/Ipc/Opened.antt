-- ===== src/Ipc/Opened.antt =====
-- What opening gives: a server and a client that finds its region are two ends of an empty queue.
use corekit.Base.{ℕ, ◌+◌, ◌-◌, ◌%◌, ◌^◌, ◌≤◌, ◌<◌, ◌≡◌, refl, true, false, [], arith}
use corekit.Api.Status.{Status}
use corekit.Ipc.Layout.{total_bytes, server_ring_bytes, shared_header_bytes}
use corekit.Ipc.Geometry.{IsRing, target_bytes, server_ring_bytes-IsRing, stride-le-target}
use corekit.Ipc.Frames.{done}
use corekit.Ipc.Channel.{ChannelOptions, Channel}
use corekit.Ipc.Open.{server_header, prepared}
use corekit.Ipc.Write.{IsOpen}
use corekit.Ipc.Link.Fifo.{Connected}

-- Options that `OpenServer` accepts, as 32-bit numbers, for at most 2^31 bytes of frames.
pub record IsValid (o : ChannelOptions) : Type 0 where
  pub named : o.name_is_empty ≡ false
  pub capacity : 0 < o.capacity
  pub max_pos : 0 < o.message_max_bytes
  pub max_fits : o.message_max_bytes < 2 ^ 32
  pub target : target_bytes o.message_max_bytes o.capacity ≤ 2 ^ 31

abbrev pub server : Channel → ChannelOptions → Channel
server c o = record (prepared c o) { shared = server_header o; mapped = true; opened = true }

module _ (o : ChannelOptions) (v : IsValid o) where
  abbrev ring_bytes : ℕ
  ring_bytes = server_ring_bytes o.message_max_bytes o.capacity

  IsRing-facts :
      IsRing ring_bytes ((ring_bytes + 2 ^ 32 - 1) % 2 ^ 32)
      × (target_bytes o.message_max_bytes o.capacity ≤ ring_bytes)
      × (total_bytes o.message_max_bytes o.capacity ≡ shared_header_bytes + ring_bytes)
  IsRing-facts =
      server_ring_bytes-IsRing o.message_max_bytes o.capacity v.max_pos v.max_fits v.capacity
        v.target

  -- The client takes over the sizes that the header states.
  abbrev pub client_options : ChannelOptions → ChannelOptions
  client_options p = record p { capacity = o.capacity; message_max_bytes = o.message_max_bytes }

  abbrev pub client : Channel → ChannelOptions → Channel
  client c p = record (prepared c p) {
    options = client_options p;
    shared = server_header o;
    mapped = true;
    opened = true;
  }

  pub server-IsOpen : (c : Channel) → IsOpen (server c o) []
  server-IsOpen c = record {
    mapped = refl;
    ring = IsRing-facts.0;
    order = omega arith;
    span = omega arith;
    aligned = refl;
    holds = done refl;
  }

  -- The fresh server and the client on its region are connected.
  pub ends-Connected :
      (c d : Channel) (p : ChannelOptions)
      → Connected o.message_max_bytes [] (record { sender = server c o; receiver = client d p })
  ends-Connected c d p = record {
    sending = record {
      in_ring = [];
      is_open = server-IsOpen c;
      queued = refl;
      opened = refl;
      max_bytes = refl;
      small = v.max_fits;
      fits = omega (
        arith,
        IsRing-facts,
        stride-le-target o.message_max_bytes o.capacity v.max_fits v.capacity,
      );
      short = tt;
      short_outbox = tt;
    };
    same = refl;
    mapped = refl;
    opened = refl;
    idle = refl;
    max_bytes = refl;
  }
