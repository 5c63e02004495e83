-- ===== src/Ipc/Stall.antt =====
-- When an empty ring takes a message, and when it never does. A frame that does not fit before the
-- end of the ring waits for the rest of the ring and itself to be free together, which a ring that is
-- less than two frames long may never grant.
use native.Mathlib.Nat.{mod-lt}
use corekit.Base.{
  ℕ, zero, suc, ◌+◌, ◌*◌, ◌^◌, ◌≤◌, ◌<◌, ◌≡◌, inl, inr, refl, sym, ap, ◌∙◌, subst, Bool, true,
  false, Option, some, List, [], ◌∷◌, ◌++◌, length, ltb, leb, min, max, ◌&&◌, Bool-cases, arith,
}
use corekit.Api.Status.{Status, status_ok}
use corekit.Ipc.Layout.{frame_bytes, local_outbox_limit}
use corekit.Ipc.Geometry.{ring-bounds}
use corekit.Ipc.Frames.{to_end}
use corekit.Ipc.Channel.{Channel, set_outbox, queue_full, blocked_send, payload, is_null}
use corekit.Ipc.Send.{
  try_write_one_to_shared, flush, process_io_once, count_dropped, enqueue, try_send,
}
use corekit.Ipc.Recv.{no_message, recv_frame, try_recv}
use corekit.Ipc.Write.{IsOpen, try_write-full, try_write-placed}
use corekit.Ipc.Flush.{frame_bytes_mono, flush-round}
use corekit.Ipc.Link.{Link, Call, sends, receives, seen_by, received, call, run}
use corekit.Ipc.Link.Fifo.{process_io_once-idle}

-- A ring of two frames of the largest size, as every capacity above 1 gives, takes any message of at
-- most that size when it is empty.
pub empty_accepts :
    {c : Channel} {ms : List (List ℕ)} (limit : ℕ) (m : List ℕ)
    → IsOpen c ms
    → c.shared.write_index ≡ c.shared.read_index
    → c.shared.write_index < 2 ^ 63
    → limit < 2 ^ 32
    → 2 * frame_bytes limit ≤ c.shared.ring_bytes
    → length m ≤ limit
    → (try_write_one_to_shared c m).0 ≡ status_ok
empty_accepts {c} limit m o empty far small two short =
    let fits = frame_bytes_mono (length m) limit short small in
    ap (λ (p : Status × Channel). p.0)
      (try_write-placed o m (omega arith) (omega arith) far (
        ground (
          arith,
          mod-lt c.shared.write_index {m = c.shared.ring_bytes} (omega (arith, ring-bounds o.ring)),
        )))

-- The ring is empty, and the oldest pending message fits neither before the end of the ring nor
-- together with the rest of the ring.
pub record IsStalled (m : List ℕ) (c : Channel) : Type 0 where
  pub is_open : IsOpen c []
  pub opened : c.opened ≡ true
  pub empty : c.shared.write_index ≡ c.shared.read_index
  pub far : c.shared.write_index < 2 ^ 63
  pub rest : List (List ℕ)
  pub pending : c.outbox ≡ m ∷ rest
  pub small : length m < 2 ^ 32
  pub fits : frame_bytes (length m) ≤ c.shared.ring_bytes
  pub no_room : to_end c.shared.ring_bytes c.shared.write_index < frame_bytes (length m)
  pub tight :
      c.shared.ring_bytes < to_end c.shared.ring_bytes c.shared.write_index + frame_bytes (length m)

stalled_write :
    {m : List ℕ} {c : Channel}
    → IsStalled m c
    → try_write_one_to_shared c m ≡ (queue_full, blocked_send c)
stalled_write {m} {c} s =
    try_write-full s.is_open m s.small s.fits s.far (ground (arith, s.empty, s.no_room, s.tight))

-- The fields that matter are kept by changes of counters and of the later messages.
with_outbox :
    {m : List ℕ} {c : Channel} (c' : Channel) (rest : List (List ℕ))
    → IsStalled m c
    → c'.shared ≡ c.shared
    → c'.mapped ≡ true
    → c'.opened ≡ true
    → c'.outbox ≡ m ∷ rest
    → IsStalled m c'
with_outbox {m} {c} c' rest s e mapped opened pending =
    subst (λ sh. IsStalled m (record c' { shared = sh })) (sym e)
      (record {
        is_open = record {
          mapped = mapped;
          ring = s.is_open.ring;
          order = s.is_open.order;
          span = s.is_open.span;
          aligned = s.is_open.aligned;
          holds = s.is_open.holds;
        };
        opened = opened;
        empty = s.empty;
        far = s.far;
        rest = rest;
        pending = pending;
        small = s.small;
        fits = s.fits;
        no_room = s.no_room;
        tight = s.tight;
      })

process_io_once-IsStalled :
    {m : List ℕ} {c : Channel} (budget : ℕ)
    → IsStalled m c
    → 0 < budget
    → IsStalled m (process_io_once budget c)
unfolding process_io_once
process_io_once-IsStalled zero s h = absurd (omega arith)
process_io_once-IsStalled {m} {c} (suc budget) s h =
    subst (IsStalled m)
      (sym (
        ap (λ o. flush (suc budget) o c) s.pending
        ∙ flush-round budget m s.rest c (stalled_write s)))
      (with_outbox (set_outbox (blocked_send c) (m ∷ s.rest)) s.rest s refl s.is_open.mapped
        s.opened refl)

count_dropped-IsStalled :
    {m : List ℕ} {c : Channel} (drop : Bool)
    → IsStalled m c
    → IsStalled m (count_dropped drop (blocked_send c))
unfolding count_dropped
count_dropped-IsStalled {m} {c} true s = record {
  is_open = record {
    mapped = s.is_open.mapped;
    ring = s.is_open.ring;
    order = s.is_open.order;
    span = s.is_open.span;
    aligned = s.is_open.aligned;
    holds = s.is_open.holds;
  };
  opened = s.opened;
  empty = s.empty;
  far = s.far;
  rest = s.rest;
  pending = s.pending;
  small = s.small;
  fits = s.fits;
  no_room = s.no_room;
  tight = s.tight;
}
count_dropped-IsStalled {m} {c} false s =
    with_outbox (blocked_send c) s.rest s refl s.is_open.mapped s.opened s.pending

enqueue-IsStalled :
    {m : List ℕ} {c : Channel} (x : List ℕ) → IsStalled m c → IsStalled m (enqueue c x).1
unfolding enqueue
enqueue-IsStalled {m} {c} x s =
    elim (Bool-cases (leb (local_outbox_limit c.options.capacity) (length c.outbox))) [
      | inl full ↦ rw full (count_dropped-IsStalled c.options.drop_when_full s)
      | inr room ↦ rw room (
          process_io_once-IsStalled (max 1 (min 8 (local_outbox_limit c.options.capacity)))
            (with_outbox (set_outbox c (c.outbox ++ x ∷ [])) (s.rest ++ x ∷ []) s refl
              s.is_open.mapped s.opened (ap (λ o. o ++ x ∷ []) s.pending))
            (omega arith))
    ]

try_send-IsStalled :
    {m : List ℕ} {c : Channel} (bytes : Option (List ℕ)) (size : ℕ)
    → IsStalled m c
    → IsStalled m (try_send c bytes size).1
unfolding try_send
try_send-IsStalled {m} {c} bytes size s =
    let moved =
      enqueue-IsStalled (payload bytes size) (process_io_once-IsStalled 1 s (omega arith)) in
    simp (s.opened, s.is_open.mapped)
      (elim (Bool-cases (ltb 0 size && is_null bytes)) [
        | inl null ↦ rw null s
        | inr given ↦ rw given (elim (Bool-cases (ltb c.options.message_max_bytes size)) [
          | inl long ↦ rw long s
          | inr short ↦ rw short moved
        ])
      ])

-- Both ends of a stalled channel, with a receiver that sends nothing itself.
pub record Stalled (m : List ℕ) (l : Link) : Type 0 where
  pub sender : IsStalled m l.sender
  pub same : l.receiver.shared ≡ l.sender.shared
  pub mapped : l.receiver.mapped ≡ true
  pub opened : l.receiver.opened ≡ true
  pub idle : l.receiver.outbox ≡ []

call-Stalled :
    {m : List ℕ} {l : Link} (x : Call)
    → Stalled m l
    → Stalled m (call l x).link × ((call l x).delivered ≡ [])
unfolding call
call-Stalled {m} {l} (sends x) s = (
  record {
    sender = try_send-IsStalled (some x) (length x) s.sender;
    same = refl;
    mapped = s.mapped;
    opened = s.opened;
    idle = s.idle;
  },
  refl,
)
call-Stalled {m} {l} (receives n) s =
    subst (λ o. Stalled m (received l o).link × ((received l o).delivered ≡ [])) (sym nothing_there)
      (
        record {
          sender =
              with_outbox (seen_by l.sender l.receiver) s.sender.rest s.sender s.same
                s.sender.is_open.mapped s.sender.opened s.sender.pending;
          same = refl;
          mapped = s.mapped;
          opened = s.opened;
          idle = s.idle;
        },
        refl,
      )
  where
    nothing_there : try_recv l.receiver false n ≡ some (no_message l.receiver)
    nothing_there =
        let not_null : (ltb 0 n && false) ≡ false = ground arith in
        let end : leb l.receiver.shared.write_index l.receiver.shared.read_index ≡ true =
          rw s.same (ground (arith, s.sender.empty)) in
        unfold try_recv recv_frame in
        simp (s.opened, s.mapped, not_null, process_io_once-idle 1 l.receiver s.idle, end)

-- From a stalled channel on nothing is ever delivered, whatever both sides call: the ring stays empty
-- and the pending message stays pending.
pub run-Stalled :
    {m : List ℕ} {l : Link} (calls : List Call)
    → Stalled m l
    → Stalled m (run l calls).link × ((run l calls).delivered ≡ [])
unfolding run
run-Stalled [] s = (s, refl)
run-Stalled {l = l} (x ∷ xs) s =
    let first = call-Stalled x s in
    let rest = run-Stalled {l = (call l x).link} xs first.0 in (rest.0, rw (first.1, rest.1))
