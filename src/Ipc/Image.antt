-- ===== src/Ipc/Image.antt =====
-- What `TryWriteOneToShared` leaves in memory: a frame, or a wrap marker, and nothing else.
use corekit.Base.{
  ℕ, ◌+◌, ◌-◌, ◌^◌, ◌≤◌, ◌<◌, ◌≡◌, ◌⊎◌, refl, ◌∙◌, List, length, replicate, length-replicate, arith,
}
use corekit.Ipc.Bytes.{
  Memory, read_bytes, write_bytes, store_u32, load_u32, load_u32-ext, read_bytes-ext,
  write_bytes-outside, read_bytes-write_bytes, store_u32-outside, load_u32-store_u32,
}
use corekit.Ipc.Layout.{frame_bytes, frame_header_bytes, frame_data, frame_wrap}
use corekit.Ipc.Geometry.{frame_bytes-bounds}
use corekit.Ipc.Frames.{SameBut}
use corekit.Ipc.Send.{frame_image}

module _ (mem : Memory) (off : ℕ) (m : List ℕ) (small : length m < 2 ^ 32) where
  sized : Memory
  sized = store_u32 mem off (length m)

  headed : Memory
  headed = store_u32 sized (off + 4) frame_data

  filled : Memory
  filled = write_bytes headed (off + frame_header_bytes) m

  padding : ℕ
  padding = frame_bytes (length m) - frame_header_bytes - length m

  padded : Memory
  padded = write_bytes filled (off + frame_header_bytes + length m) (replicate padding 0)

  frame_image-padded : frame_image mem off m ≡ padded
  unfolding frame_image padded filled headed sized padding
  frame_image-padded = refl

  padded-outside :
      (i : ℕ) → (i < off + 8 + length m) ⊎ (off + frame_bytes (length m) ≤ i) → padded i ≡ filled i
  unfolding padded padding
  padded-outside i h =
      write_bytes-outside filled (off + 8 + length m)
        (replicate (frame_bytes (length m) - 8 - length m) 0) i
        (omega (
          arith,
          length-replicate {A = ℕ} (frame_bytes (length m) - 8 - length m) 0,
          frame_bytes-bounds (length m) small,
        ))

  filled-outside : (i : ℕ) → (i < off + 8) ⊎ (off + 8 + length m ≤ i) → filled i ≡ headed i
  unfolding filled
  filled-outside i h = write_bytes-outside headed (off + 8) m i h

  headed-outside : (i : ℕ) → (i < off + 4) ⊎ (off + 8 ≤ i) → headed i ≡ sized i
  unfolding headed
  headed-outside i h = store_u32-outside sized (off + 4) 0 i (omega arith)

  sized-outside : (i : ℕ) → (i < off) ⊎ (off + 4 ≤ i) → sized i ≡ mem i
  unfolding sized
  sized-outside i h = store_u32-outside mem off (length m) i h

  pub frame_image-same : SameBut mem (frame_image mem off m) off (frame_bytes (length m))
  frame_image-same i h =
      let bounds = frame_bytes-bounds (length m) small in
      rw frame_image-padded (
        padded-outside i (omega arith)
        ∙ filled-outside i (omega arith)
        ∙ headed-outside i (omega arith)
        ∙ sized-outside i (omega arith))

  pub frame_image-size : load_u32 (frame_image mem off m) off ≡ length m
  frame_image-size = rw frame_image-padded (
      load_u32-ext padded sized off (λ i p q.
        padded-outside i (omega arith)
        ∙ filled-outside i (omega arith)
        ∙ headed-outside i (omega arith))
      ∙ stored)
    where
      stored : load_u32 sized off ≡ length m
      stored = unfold sized in load_u32-store_u32 mem off (length m) small

  pub frame_image-marker : load_u32 (frame_image mem off m) (off + 4) ≡ frame_data
  frame_image-marker = rw frame_image-padded (
      load_u32-ext padded headed (off + 4)
        (λ i p q. padded-outside i (omega arith) ∙ filled-outside i (omega arith))
      ∙ stored)
    where
      stored : load_u32 headed (off + 4) ≡ frame_data
      stored = unfold headed in load_u32-store_u32 sized (off + 4) frame_data (omega arith)

  pub frame_image-body : read_bytes (frame_image mem off m) (off + 8) (length m) ≡ m
  frame_image-body = rw frame_image-padded (
      read_bytes-ext padded filled (off + 8) (length m) (λ i p q. padded-outside i (omega arith))
      ∙ stored)
    where
      stored : read_bytes filled (off + 8) (length m) ≡ m
      stored = unfold filled in read_bytes-write_bytes headed (off + 8) m

-- The marker of a wrap: 8 bytes change, and the second field says so.
abbrev pub wrap_image : Memory → ℕ → Memory
wrap_image mem off = store_u32 (store_u32 mem off 0) (off + 4) frame_wrap

pub wrap_image-same : (mem : Memory) (off : ℕ) → SameBut mem (wrap_image mem off) off 8
wrap_image-same mem off i h =
    store_u32-outside (store_u32 mem off 0) (off + 4) frame_wrap i (omega arith)
    ∙ store_u32-outside mem off 0 i (omega arith)

pub wrap_image-marker :
    (mem : Memory) (off : ℕ) → load_u32 (wrap_image mem off) (off + 4) ≡ frame_wrap
wrap_image-marker mem off =
    load_u32-store_u32 (store_u32 mem off 0) (off + 4) frame_wrap (omega arith)
