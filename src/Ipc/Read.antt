-- ===== src/Ipc/Read.antt =====
-- `TryRecv` takes the oldest message out of the ring.
use native.Mathlib.Nat.{mod-lt, mod-eq_of_lt, div-add-mod, mul-mod_right}
use native.Mathlib.Decide.{dec_lt, dec_le}
use corekit.Base.{
  ℕ, zero, suc, ◌+◌, ◌*◌, ◌/◌, ◌%◌, ◌^◌, ◌≤◌, ◌<◌, ◌≡◌, refl, ◌∙◌, true, false, some, List, [], ◌∷◌,
  length, ltb, leb, arith,
}
use corekit.Api.Status.{value, error, status, would_block, buffer_too_small}
use corekit.Ipc.Bytes.{load_u32}
use corekit.Ipc.Layout.{frame_bytes, add64, offset, contiguous_from}
use corekit.Ipc.Geometry.{IsRing, ring-bounds, offset-mod, contiguous-eq, frame_bytes-bounds}
use corekit.Ipc.Frames.{FrameAt, to_end, Holds, done, frame, wrap}
use corekit.Ipc.Channel.{Channel, ring_size, mask_of, set_read}
use corekit.Ipc.Text.{too_small_text}
use corekit.Ipc.Recv.{Received, no_message, take_frame, recv_loop, recv_frame}
use corekit.Ipc.Write.{IsOpen}

-- What a receive does to an open channel with these messages. The indices of the sender, the options
-- and the outbox stay.
pub record Keeps (c c' : Channel) : Type 0 where
  pub options : c'.options ≡ c.options
  pub outbox : c'.outbox ≡ c.outbox
  pub opened : c'.opened ≡ c.opened
  pub write_index : c'.shared.write_index ≡ c.shared.write_index
  pub ring_bytes : c'.shared.ring_bytes ≡ c.shared.ring_bytes

pub data Outcome (c : Channel) (buffer_size : ℕ) : List (List ℕ) → Received → Type 0 where
  nothing :
      {r : Received}
      → r.result ≡ error (status would_block "channel has no message")
      → r.copied ≡ []
      → IsOpen r.channel []
      → Keeps c r.channel
      → Outcome c buffer_size [] r
  delivered :
      {r : Received} {m : List ℕ} {ms : List (List ℕ)}
      → length m ≤ buffer_size
      → r.result ≡ value (length m)
      → r.copied ≡ m
      → IsOpen r.channel ms
      → Keeps c r.channel
      → Outcome c buffer_size (m ∷ ms) r
  too_small :
      {r : Received} {m : List ℕ} {ms : List (List ℕ)}
      → buffer_size < length m
      → r.result ≡ error (status buffer_too_small (too_small_text (length m)))
      → r.copied ≡ []
      → IsOpen r.channel (m ∷ ms)
      → Keeps c r.channel
      → Outcome c buffer_size (m ∷ ms) r

-- Every message is short enough for the receiver's options.
abbrev pub AllShort : ℕ → List (List ℕ) → Type 0
AllShort max [] = Unit {0}
AllShort max (m ∷ ms) = (length m ≤ max) × AllShort max ms

module _ (c : Channel) (mapped : c.mapped ≡ true)
    (r : IsRing c.shared.ring_bytes c.shared.ring_mask) (far : c.shared.write_index < 2 ^ 63)
    (aligned : c.shared.write_index % 8 ≡ 0) (buffer_size : ℕ) where
  open c.shared use {ring as mem, ring_bytes, write_index}

  opened_at :
      (at : ℕ) (ms : List (List ℕ))
      → at ≤ write_index
      → write_index ≤ at + ring_bytes
      → Holds mem ring_bytes write_index at ms
      → IsOpen (set_read c at) ms
  opened_at at ms le near h = record {
    mapped = mapped;
    ring = r;
    order = le;
    span = near;
    aligned = aligned;
    holds = h;
  }

  kept : (at : ℕ) → Keeps c (set_read c at)
  kept at = record {
    options = refl;
    outbox = refl;
    opened = refl;
    write_index = refl;
    ring_bytes = refl;
  }

  offset-at : (at : ℕ) → offset (ring_size c) (mask_of c) at ≡ at % ring_bytes
  offset-at at = ground (arith, mapped, offset-mod r at)

  contiguous-at : (at : ℕ) → contiguous_from (ring_size c) (mask_of c) at ≡ to_end ring_bytes at
  contiguous-at at = ground (arith, mapped, contiguous-eq r at)

  -- A frame whose size fits the options: it is copied out, or is too large for the caller's buffer.
  take_frame-Outcome :
      (at : ℕ) (m : List ℕ) (ms : List (List ℕ))
      → FrameAt mem ring_bytes at m
      → at + frame_bytes (length m) ≤ write_index
      → write_index ≤ at + ring_bytes
      → Holds mem ring_bytes write_index (at + frame_bytes (length m)) ms
      → length m ≤ c.options.message_max_bytes
      → Outcome c buffer_size
          (m ∷ ms)
          (take_frame (set_read c at) at (to_end ring_bytes at) buffer_size)
  unfolding take_frame
  take_frame-Outcome at m ms f le near rest short =
      let sizes = frame_bytes-bounds (length m) f.small in
      let sum : add64 at (frame_bytes (length m)) ≡ at + frame_bytes (length m) =
        mod-eq_of_lt (omega arith) in
      let not_long : ltb c.options.message_max_bytes (length m) ≡ false = ground arith in
      let whole : ltb (to_end ring_bytes at) (frame_bytes (length m)) ≡ false =
        ground (arith, f.room) in
      let written : ltb write_index (at + frame_bytes (length m)) ≡ false = ground arith in
      elim (dec_le (length m) buffer_size) [
        | yes enough ↦
            let big : ltb buffer_size (length m) ≡ false = ground arith in
            rw (offset-at at, f.size, not_long, whole, sum, written, big)
              (delivered enough refl f.body
                (record {
                  mapped = mapped;
                  ring = r;
                  order = le;
                  span = omega arith;
                  aligned = aligned;
                  holds = rest;
                })
                (record {
                  options = refl;
                  outbox = refl;
                  opened = refl;
                  write_index = refl;
                  ring_bytes = refl;
                }))
        | no small ↦
            let big : ltb buffer_size (length m) ≡ true = ground arith in
            rw (offset-at at, f.size, not_long, whole, sum, written, big)
              (too_small (omega arith) refl refl
                (opened_at at (m ∷ ms) (omega arith) near (frame m f le rest)) (kept at))
      ]

  -- At the write index the ring is empty.
  at_end :
      {at : ℕ} {ms : List (List ℕ)}
      → Holds mem ring_bytes write_index at ms
      → at ≡ write_index
      → ms ≡ []
  at_end (done e) h = refl
  at_end (frame m f le rest) h = absurd (omega (arith, frame_bytes-bounds (length m) f.small))
  at_end (wrap f le rest) h = absurd (omega (arith, f.room))

  start-after : (at : ℕ) → (at + to_end ring_bytes at) % ring_bytes ≡ 0
  start-after at =
      let pos : 0 < ring_bytes = omega (arith, ring-bounds r) in
      let e : at + to_end ring_bytes at ≡ ring_bytes * suc (at / ring_bytes) =
        omega (arith, div-add-mod at ring_bytes, mod-lt at pos) in
      rw e (mul-mod_right ring_bytes (suc (at / ring_bytes)))

  nothing-at :
      (at : ℕ) {ms : List (List ℕ)}
      → at ≡ write_index
      → Holds mem ring_bytes write_index at ms
      → Outcome c buffer_size ms (no_message (set_read c at))
  nothing-at at {ms} e h =
      let none_left = at_end h e in
      rw none_left (
        nothing refl refl
          (record {
            mapped = mapped;
            ring = r;
            order = omega arith;
            span = omega arith;
            aligned = aligned;
            holds = rw none_left at h;
          })
          (record {
            options = refl;
            outbox = refl;
            opened = refl;
            write_index = refl;
            ring_bytes = refl;
          }))

  -- One round of the loop: a data frame, or a wrap marker with or without something behind it.
  recv_loop-data :
      (fuel at contiguous : ℕ)
      → load_u32 mem (at % ring_bytes + 4) ≡ 0
      → recv_loop (suc fuel) (set_read c at) at contiguous buffer_size
        ≡ some (take_frame (set_read c at) at contiguous buffer_size)
  unfolding recv_loop
  recv_loop-data fuel at contiguous marker = rw (offset-at at, marker)

  module _ (fuel at : ℕ) (marker : load_u32 mem (at % ring_bytes + 4) ≡ 1) where
    next : ℕ
    next = at + to_end ring_bytes at

    module _ (near : next ≤ write_index) where
      next-eq : add64 at (to_end ring_bytes at) ≡ next
      unfolding next
      next-eq = mod-eq_of_lt (omega arith)

      recv_loop-last :
          next ≡ write_index
          → recv_loop (suc fuel) (set_read c at) at (to_end ring_bytes at) buffer_size
            ≡ some (no_message (set_read c next))
      unfolding recv_loop
      recv_loop-last e =
          let stop : leb write_index next ≡ true = ground arith in
          rw (offset-at at, marker, next-eq, stop)

      next-room : 8 ≤ to_end ring_bytes next
      unfolding next
      next-room = rw (start-after at) (omega (arith, ring-bounds r))

      recv_loop-skip :
          next < write_index
          → recv_loop (suc fuel) (set_read c at) at (to_end ring_bytes at) buffer_size
            ≡ recv_loop fuel (set_read c next) next (to_end ring_bytes next) buffer_size
      unfolding recv_loop
      recv_loop-skip less =
          let go : leb write_index next ≡ false = ground arith in
          let room : ltb (to_end ring_bytes next) 8 ≡ false = ground (arith, next-room) in
          rw (offset-at at, marker, next-eq, go, contiguous-at next, room)

  abbrev Reads : ℕ → ℕ → List (List ℕ) → Type 0
  Reads fuel at ms =
      (rec : Received) × (recv_loop fuel (set_read c at) at (to_end ring_bytes at) buffer_size
        ≡ some rec)
      × Outcome c buffer_size ms rec

  -- The loop ends within the fuel and has the right outcome.
  recv_loop-Outcome :
      (fuel at : ℕ) {ms : List (List ℕ)}
      → write_index < at + fuel
      → at < write_index
      → write_index ≤ at + ring_bytes
      → AllShort c.options.message_max_bytes ms
      → Holds mem ring_bytes write_index at ms
      → Reads fuel at ms
  unfolding next
  recv_loop-Outcome zero at more le near short h = absurd (omega arith)
  recv_loop-Outcome (suc fuel) at more le near short (done e) = absurd (omega arith)
  recv_loop-Outcome (suc fuel) at more le near short (frame {ms = ms} m f in_range rest) = (
    take_frame (set_read c at) at (to_end ring_bytes at) buffer_size,
    recv_loop-data fuel at (to_end ring_bytes at) f.marker,
    take_frame-Outcome at m ms f in_range near rest short.0,
  )
  recv_loop-Outcome (suc fuel) at {ms} more le near short (wrap f in_range rest) =
      elim (dec_lt (at + to_end ring_bytes at) write_index) [
        | yes less ↦
            let found =
              recv_loop-Outcome fuel (at + to_end ring_bytes at) (omega (arith, f.room)) less
                (omega arith) short rest in
            (found.0, recv_loop-skip fuel at f.marker in_range less ∙ found.1, found.2)
        | no end ↦ (
          no_message (set_read c (at + to_end ring_bytes at)),
          recv_loop-last fuel at f.marker in_range (omega arith),
          nothing-at (at + to_end ring_bytes at) (omega arith) rest,
        )
      ]

  header_room :
      {at : ℕ} {ms : List (List ℕ)}
      → Holds mem ring_bytes write_index at ms
      → at < write_index
      → 8 ≤ to_end ring_bytes at
  header_room (done e) h = absurd (omega arith)
  header_room (frame m f le rest) h = omega (arith, frame_bytes-bounds (length m) f.small, f.room)
  header_room (wrap f le rest) h = omega (arith, f.room)

-- A receive on an open channel with a write index below 2^63, and no message in the ring above the
-- receiver's limit, ends within the fuel: the oldest message of the ring is copied whole and leaves
-- the ring if the buffer holds it; if not, it stays and the answer is `kBufferTooSmall` with its length in
-- the text. An empty ring gives `kWouldBlock`.
pub recv_frame-Outcome :
    {c : Channel} {ms : List (List ℕ)} (buffer_size : ℕ)
    → IsOpen c ms
    → c.shared.write_index < 2 ^ 63
    → AllShort c.options.message_max_bytes ms
    → (r : Received) × (recv_frame (c.shared.write_index + 1) c buffer_size ≡ some r)
      × Outcome c buffer_size ms r
unfolding recv_frame
recv_frame-Outcome {c} {ms} buffer_size o far short =
    elim (dec_lt c.shared.read_index c.shared.write_index) [
      | yes less ↦
          let found =
            recv_loop-Outcome c o.mapped o.ring far o.aligned buffer_size (c.shared.write_index + 1)
              c.shared.read_index (omega arith) less o.span short o.holds in
          let some_bytes : leb c.shared.write_index c.shared.read_index ≡ false = ground arith in
          let room : ltb (to_end c.shared.ring_bytes c.shared.read_index) 8 ≡ false =
            ground (arith, header_room c o.mapped o.ring far o.aligned buffer_size o.holds less) in
          (
            found.0,
            rw
                (
                  some_bytes,
                  contiguous-at c o.mapped o.ring far o.aligned buffer_size c.shared.read_index,
                  room,
                )
                found.1,
            found.2,
          )
      | no end ↦
          let nothing_left : leb c.shared.write_index c.shared.read_index ≡ true = ground arith in
          (
            no_message c,
            rw nothing_left,
            nothing-at c o.mapped o.ring far o.aligned buffer_size c.shared.read_index
                (omega (arith, o.order)) o.holds,
          )
    ]
