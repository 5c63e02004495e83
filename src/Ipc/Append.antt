-- ===== src/Ipc/Append.antt =====
-- `TryWriteOneToShared` appends to the messages that the ring holds, or leaves the ring alone.
use native.Mathlib.Nat.{mod-lt, mod-eq_of_lt, div-add-mod, mul-mod_right}
use native.Mathlib.Decide.{dec_lt, dec_le}
use corekit.Base.{
  ℕ, suc, ◌+◌, ◌*◌, ◌/◌, ◌%◌, ◌^◌, ◌≤◌, ◌<◌, ◌≡◌, refl, subst, false, ◌⊎◌, inl, inr, List, [], ◌∷◌,
  ◌++◌, length, ltb, arith, append-nil, lt→ltb,
}
use corekit.Api.Status.{status_ok}
use corekit.Ipc.Layout.{frame_bytes, add64, offset}
use corekit.Ipc.Geometry.{ring-bounds, offset-mod, offset-aligned, frame_bytes-bounds}
use corekit.Ipc.Frames.{to_end, Holds, done, frame, wrap, Holds-append}
use corekit.Ipc.Image.{
  frame_image-same, frame_image-size, frame_image-marker, frame_image-body, wrap_image,
  wrap_image-same, wrap_image-marker,
}
use corekit.Ipc.Channel.{Channel, ring_size, mask_of, set_write, set_ring, queue_full, blocked_send}
use corekit.Ipc.Send.{frame_image, put_frame, mark_wrap, try_write_one_to_shared}
use corekit.Ipc.Write.{IsOpen, HasRoom, skipped, placed, try_write-placed, try_write-full}

-- The offset of the write index, as a remainder.
offset-write :
    {c : Channel} {ms : List (List ℕ)}
    → IsOpen c ms
    → offset (ring_size c) (mask_of c) c.shared.write_index
      ≡ c.shared.write_index % c.shared.ring_bytes
offset-write {c} o = ground (arith, o.mapped, offset-mod o.ring c.shared.write_index)

module _ {c : Channel} {ms : List (List ℕ)} (o : IsOpen c ms)
    (far : c.shared.write_index < 2 ^ 63 + 2 ^ 32) where
  open c.shared use {ring as mem, ring_bytes, write_index, read_index}

  framed : List ℕ → Channel
  framed m = record c {
    shared = record c.shared {
      ring = frame_image mem (write_index % ring_bytes) m;
      write_index = write_index + frame_bytes (length m);
      send_ok = add64 c.shared.send_ok 1;
    };
  }

  put_frame-framed : (m : List ℕ) → length m < 2 ^ 32 → put_frame c write_index m ≡ framed m
  unfolding put_frame framed
  put_frame-framed m small =
      let sum : add64 write_index (frame_bytes (length m)) ≡ write_index + frame_bytes (length m) =
        mod-eq_of_lt (omega (arith, frame_bytes-bounds (length m) small)) in
      rw (offset-write o, sum)

  -- A frame that neither crosses the end of the ring nor reaches the unread bytes is appended.
  put_frame-IsOpen :
      (m : List ℕ)
      → length m < 2 ^ 32
      → write_index % ring_bytes + frame_bytes (length m) ≤ ring_bytes
      → write_index + frame_bytes (length m) ≤ read_index + ring_bytes
      → IsOpen (put_frame c write_index m) (ms ++ m ∷ [])
  unfolding framed
  put_frame-IsOpen m small in_ring free =
      let bounds = ring-bounds o.ring in
      let sizes = frame_bytes-bounds (length m) small in
      rw (put_frame-framed m small) (record {
        mapped = o.mapped;
        ring = o.ring;
        order = omega (arith, o.order);
        span = omega arith;
        aligned = omega (arith, o.aligned);
        holds =
            Holds-append mem (frame_image mem (write_index % ring_bytes) m) ring_bytes write_index
              (write_index + frame_bytes (length m)) (frame_bytes (length m)) (omega arith) in_ring
              free (omega arith) (frame_image-same mem (write_index % ring_bytes) m small)
              (frame m
                (record {
                  small = small;
                  room = in_ring;
                  size = frame_image-size mem (write_index % ring_bytes) m small;
                  marker = frame_image-marker mem (write_index % ring_bytes) m small;
                  body = frame_image-body mem (write_index % ring_bytes) m small;
                })
                (omega arith) (done refl))
              o.holds;
      })

  -- Skipping to the start of the ring changes no message.
  abbrev skip : Channel
  skip =
      set_write (set_ring c (wrap_image mem (write_index % ring_bytes)))
        (write_index + to_end ring_bytes write_index)

  mark_wrap-skip :
      set_write (mark_wrap c write_index) (write_index + to_end ring_bytes write_index) ≡ skip
  unfolding mark_wrap
  mark_wrap-skip = rw (offset-write o)

  skip-start : (write_index + to_end ring_bytes write_index) % ring_bytes ≡ 0
  skip-start =
      let pos : 0 < ring_bytes = omega (arith, ring-bounds o.ring) in
      let e : write_index + to_end ring_bytes write_index
          ≡ ring_bytes * suc (write_index / ring_bytes) =
        omega (arith, div-add-mod write_index ring_bytes, mod-lt write_index pos) in
      rw e (mul-mod_right ring_bytes (suc (write_index / ring_bytes)))

  skip-IsOpen :
      write_index + to_end ring_bytes write_index ≤ read_index + ring_bytes → IsOpen skip ms
  skip-IsOpen free =
      let bounds = ring-bounds o.ring in
      let in_ring = mod-lt write_index {m = ring_bytes} (omega arith) in
      let alignment = offset-aligned o.ring write_index o.aligned in
      record {
        mapped = o.mapped;
        ring = o.ring;
        order = omega (arith, o.order);
        span = free;
        aligned = omega (arith, o.aligned);
        holds = subst (Holds _ ring_bytes _ read_index) (append-nil ms) (
            Holds-append mem (wrap_image mem (write_index % ring_bytes)) ring_bytes write_index
              (write_index + to_end ring_bytes write_index) 8 (omega arith) (omega arith)
              (omega arith) (omega arith) (wrap_image-same mem (write_index % ring_bytes))
              (wrap
                (record {
                  room = omega arith;
                  marker = wrap_image-marker mem (write_index % ring_bytes);
                })
                (omega arith) (done refl))
              o.holds);
      }

module _ {c : Channel} {ms : List (List ℕ)} (o : IsOpen c ms) (m : List ℕ)
    (small : length m < 2 ^ 32) (far : c.shared.write_index < 2 ^ 63) where
  open c.shared use {ring_bytes, write_index, read_index}

  pub placed-IsOpen : HasRoom c (frame_bytes (length m)) → IsOpen (placed c m) (ms ++ m ∷ [])
  unfolding placed
  placed-IsOpen room = elim (dec_lt (to_end ring_bytes write_index) (frame_bytes (length m))) [
    | yes short ↦
        let enough : write_index + to_end ring_bytes write_index + frame_bytes (length m)
            ≤ read_index + ring_bytes =
          ground arith in
        let near : to_end ring_bytes write_index < 2 ^ 32 = omega (arith, ring-bounds o.ring) in
        let skipped = skip-IsOpen o (omega arith) (omega arith) in
        rw (lt→ltb _ _ short, mark_wrap-skip o (omega arith))
          (put_frame-IsOpen skipped (omega arith) m small
            (rw (skip-start o (omega arith)) (omega arith)) (omega arith))
    | no long ↦
        let plain : ltb (to_end ring_bytes write_index) (frame_bytes (length m)) ≡ false =
          ground arith in
        let enough : write_index + frame_bytes (length m) ≤ read_index + ring_bytes =
          ground arith in
        rw plain (
          put_frame-IsOpen o (omega arith) m small
            (omega (arith, mod-lt write_index {m = ring_bytes} (omega (arith, ring-bounds o.ring))))
            enough)
  ]

  -- A message whose frame is no larger than the ring, on an open channel with a write index below
  -- 2^63: with room for the frame, and for the rest of the ring that has to be skipped before it,
  -- the message is appended to those in the ring and the status is `kOk`; without, the status is
  -- `kWouldBlock`, the ring keeps its messages and only the counter of blocked sends moves.
  pub try_write-appends :
      frame_bytes (length m) ≤ ring_bytes
      → let (st, c') = try_write_one_to_shared c m in
        (HasRoom c (frame_bytes (length m)) × (st ≡ status_ok) × IsOpen c' (ms ++ m ∷ []))
        ⊎ (¬ HasRoom c (frame_bytes (length m)) × (st ≡ queue_full) × (c' ≡ blocked_send c))
  try_write-appends fits =
      elim (dec_le (write_index + skipped c (frame_bytes (length m)) + frame_bytes (length m))
        (read_index + ring_bytes)) [
          | yes room ↦
              rw (try_write-placed o m small fits far room) (inl (room, refl, placed-IsOpen room))
          | no full ↦ rw (try_write-full o m small fits far (omega arith)) (inr (full, refl, refl))
        ]

  -- The same with the new state written out.
  pub try_write-placed_or_full :
      frame_bytes (length m) ≤ ring_bytes
      → ((try_write_one_to_shared c m ≡ (status_ok, placed c m))
          × IsOpen (placed c m) (ms ++ m ∷ []))
        ⊎ (try_write_one_to_shared c m ≡ (queue_full, blocked_send c))
  try_write-placed_or_full fits =
      elim (dec_le (write_index + skipped c (frame_bytes (length m)) + frame_bytes (length m))
        (read_index + ring_bytes)) [
          | yes room ↦ inl (try_write-placed o m small fits far room, placed-IsOpen room)
          | no full ↦ inr (try_write-full o m small fits far (omega arith))
        ]
