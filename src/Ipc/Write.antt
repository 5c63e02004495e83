-- ===== src/Ipc/Write.antt =====
-- `TryWriteOneToShared` appends to the messages that the ring holds, or leaves the ring alone.
use native.Mathlib.Nat.{mod-lt}
use native.Mathlib.Decide.{dec_lt}
use corekit.Base.{
  ℕ, ◌+◌, ◌-◌, ◌%◌, ◌^◌, ◌≤◌, ◌<◌, ◌≡◌, ◌∙◌, true, List, length, ltb, if◌then◌else◌, arith, lt→ltb,
}
use corekit.Api.Status.{status_ok}
use corekit.Ipc.Layout.{frame_bytes, contiguous_from, used_bytes}
use corekit.Ipc.Geometry.{IsRing, ring-bounds, contiguous-eq, offset-aligned}
use corekit.Ipc.Frames.{to_end, Holds}
use corekit.Ipc.Channel.{Channel, ring_size, mask_of, set_write, blocked_send, queue_full}
use corekit.Ipc.Send.{free_bytes, put_frame, mark_wrap, write_wrapped, try_write_one_to_shared}

-- An open channel over a well-formed ring with these messages in it. The indices are below 2^63, so
-- that no sum of this call wraps.
pub record IsOpen (c : Channel) (ms : List (List ℕ)) : Type 0 where
  pub mapped : c.mapped ≡ true
  pub ring : IsRing c.shared.ring_bytes c.shared.ring_mask
  pub order : c.shared.read_index ≤ c.shared.write_index
  pub span : c.shared.write_index ≤ c.shared.read_index + c.shared.ring_bytes
  pub aligned : c.shared.write_index % 8 ≡ 0
  pub holds : Holds c.shared.ring c.shared.ring_bytes c.shared.write_index c.shared.read_index ms

-- The bytes that are skipped before a frame, and those that the frame takes in all.
abbrev pub skipped : Channel → ℕ → ℕ
skipped c needed =
    let left = to_end c.shared.ring_bytes c.shared.write_index in
    if ltb left needed then left else 0

-- There is room for a frame of `needed` bytes.
abbrev pub HasRoom : Channel → ℕ → Type 0
HasRoom c needed =
    c.shared.write_index + skipped c needed + needed ≤ c.shared.read_index + c.shared.ring_bytes

-- Where the frame goes.
unfoldable pub placed : Channel → List ℕ → Channel
placed c m =
    let w = c.shared.write_index in
    let left = to_end c.shared.ring_bytes w in
    if ltb left (frame_bytes (length m))
    then put_frame (set_write (mark_wrap c w) (w + left)) (w + left) m
    else put_frame c w m

module _ {c : Channel} {ms : List (List ℕ)} (o : IsOpen c ms) (m : List ℕ) where
  used_bytes-eq :
      (w : ℕ)
      → c.shared.read_index ≤ w
      → w ≤ c.shared.read_index + c.shared.ring_bytes
      → free_bytes c w ≡ c.shared.read_index + c.shared.ring_bytes - w
  unfolding used_bytes
  used_bytes-eq w h k = ground (arith, o.mapped)

  module _ (small : length m < 2 ^ 32) (fits : frame_bytes (length m) ≤ c.shared.ring_bytes)
      (far : c.shared.write_index < 2 ^ 63) where
    contiguous_here :
        contiguous_from (ring_size c) (mask_of c) c.shared.write_index
        ≡ to_end c.shared.ring_bytes c.shared.write_index
    contiguous_here = ground (arith, o.mapped, contiguous-eq o.ring c.shared.write_index)

    -- The rest of the ring holds a frame header at least.
    header_room : 8 ≤ to_end c.shared.ring_bytes c.shared.write_index
    header_room = omega (
      arith,
      offset-aligned o.ring c.shared.write_index o.aligned,
      ring-bounds o.ring,
      mod-lt c.shared.write_index {m = c.shared.ring_bytes} (omega (arith, ring-bounds o.ring)),
    )

    pub try_write-full :
        (c.shared.read_index + c.shared.ring_bytes
          < c.shared.write_index + skipped c (frame_bytes (length m)) + frame_bytes (length m))
        → try_write_one_to_shared c m ≡ (queue_full, blocked_send c)
    unfolding try_write_one_to_shared
    try_write-full full = ground (
      arith,
      o.mapped,
      contiguous_here,
      header_room,
      used_bytes-eq c.shared.write_index o.order o.span,
    )

    -- After a wrap the second look at the indices finds the room that the first one found.
    write_wrapped-placed :
        (w : ℕ)
        → c.shared.write_index ≤ w
        → w + frame_bytes (length m) ≤ c.shared.read_index + c.shared.ring_bytes
        → write_wrapped (set_write (mark_wrap c c.shared.write_index) w) w m
          ≡ (status_ok, put_frame (set_write (mark_wrap c c.shared.write_index) w) w m)
    unfolding write_wrapped mark_wrap
    write_wrapped-placed w h k =
        ground (arith, used_bytes-eq w (omega (arith, o.order)) (omega arith))

    try_write-wraps :
        HasRoom c (frame_bytes (length m))
        → to_end c.shared.ring_bytes c.shared.write_index < frame_bytes (length m)
        → let w = c.shared.write_index + to_end c.shared.ring_bytes c.shared.write_index in
          try_write_one_to_shared c m
          ≡ write_wrapped (set_write (mark_wrap c c.shared.write_index) w) w m
    unfolding try_write_one_to_shared
    try_write-wraps room short =
        rw contiguous_here
          (ground (arith, o.mapped, header_room, used_bytes-eq c.shared.write_index o.order o.span))

    pub try_write-placed :
        HasRoom c (frame_bytes (length m)) → try_write_one_to_shared c m ≡ (status_ok, placed c m)
    unfolding placed
    try_write-placed room =
        elim (dec_lt (to_end c.shared.ring_bytes c.shared.write_index) (frame_bytes (length m))) [
          | yes short ↦
              let enough : c.shared.write_index
                    + to_end c.shared.ring_bytes c.shared.write_index
                    + frame_bytes (length m)
                  ≤ c.shared.read_index + c.shared.ring_bytes =
                ground arith in
              try_write-wraps room short
              ∙ write_wrapped-placed
                  (c.shared.write_index + to_end c.shared.ring_bytes c.shared.write_index)
                  (omega arith) enough
              ∙ rw (lt→ltb _ _ short)
          | no long ↦
              unfold try_write_one_to_shared in
              ground (
                arith,
                o.mapped,
                contiguous_here,
                header_room,
                used_bytes-eq c.shared.write_index o.order o.span,
              )
        ]
