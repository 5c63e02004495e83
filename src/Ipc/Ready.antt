-- ===== src/Ipc/Ready.antt =====
-- A channel as a queue: the messages in its ring, then those in its outbox. `TrySend` adds one at the
-- end or none, and `ProcessIoOnce` moves none out.
use corekit.Base.{
  ℕ, ◌^◌, ◌≤◌, ◌<◌, ◌≡◌, inl, inr, refl, sym, ap, ◌∙◌, true, false, some, List, [], ◌∷◌, ◌++◌,
  length, take, ltb, leb, min, max, append_assoc, Bool, Bool-cases, ◌&&◌, arith,
}
use corekit.Api.Status.{Status, status_ok}
use corekit.Ipc.Layout.{frame_bytes, local_outbox_limit, add64}
use corekit.Ipc.Channel.{Channel, set_outbox, blocked_send}
use corekit.Ipc.Send.{flush, process_io_once, count_dropped, pending_full, enqueue, try_send}
use corekit.Ipc.Write.{IsOpen}
use corekit.Ipc.Read.{AllShort}
use corekit.Ipc.Flush.{Sends, Sends-trans, flush-Flushed, set_outbox-IsOpen}

-- `flight` is all that was accepted and not yet received, oldest first.
pub record Ready (limit : ℕ) (flight : List (List ℕ)) (c : Channel) : Type 0 where
  pub in_ring : List (List ℕ)
  pub is_open : IsOpen c in_ring
  pub queued : flight ≡ in_ring ++ c.outbox
  pub opened : c.opened ≡ true
  pub max_bytes : c.options.message_max_bytes ≡ limit
  pub small : limit < 2 ^ 32
  pub fits : frame_bytes limit ≤ c.shared.ring_bytes
  pub short : AllShort limit in_ring
  pub short_outbox : AllShort limit c.outbox

AllShort-append :
    (limit : ℕ) (xs ys : List (List ℕ))
    → AllShort limit xs
    → AllShort limit ys
    → AllShort limit (xs ++ ys)
AllShort-append limit [] ys p q = q
AllShort-append limit (x ∷ xs) ys p q = (p.0, AllShort-append limit xs ys p.1 q)

AllShort-split :
    (limit : ℕ) (xs ys : List (List ℕ))
    → AllShort limit (xs ++ ys)
    → AllShort limit xs × AllShort limit ys
AllShort-split limit [] ys p = (tt, p)
AllShort-split limit (x ∷ xs) ys p =
    let rest = AllShort-split limit xs ys p.1 in ((p.0, rest.0), rest.1)

pub take-length {ℓ} : {A : Type ℓ} (xs : List A) → take (length xs) xs ≡ xs
take-length [] = refl
take-length (x ∷ xs) = ap (◌∷◌ x) (take-length xs)

-- Moving messages on changes nothing of the queue.
pub process_io_once-Ready :
    (budget : ℕ) {limit : ℕ} {flight : List (List ℕ)} {c : Channel}
    → Ready limit flight c
    → c.shared.read_index < 2 ^ 62
    → Ready limit flight (process_io_once budget c) × Sends c (process_io_once budget c)
unfolding process_io_once
process_io_once-Ready budget {limit} {flight} {c} r far =
    let f = flush-Flushed limit r.small budget c.outbox r.is_open r.short_outbox r.fits far in
    let shorts : AllShort limit (f.sent ++ f.waiting) = rw (← f.split) r.short_outbox in
    let parts = AllShort-split limit f.sent f.waiting shorts in
    (
      record {
        in_ring = r.in_ring ++ f.sent;
        is_open = f.is_open;
        queued =
            r.queued
            ∙ ap (◌++◌ r.in_ring) (f.split ∙ ap (◌++◌ f.sent) (sym f.outbox))
            ∙ sym (append_assoc r.in_ring f.sent (flush budget c.outbox c).outbox);
        opened = f.keeps.opened ∙ r.opened;
        max_bytes = ap (λ o. o.message_max_bytes) f.keeps.options ∙ r.max_bytes;
        small = r.small;
        fits = rw f.keeps.ring_bytes r.fits;
        short = AllShort-append limit r.in_ring f.sent r.short parts.0;
        short_outbox = rw f.outbox parts.1;
      },
      f.keeps,
    )

-- A message at the end of the outbox is one at the end of the queue.
push-Ready :
    {limit : ℕ} {flight : List (List ℕ)} {c : Channel} (m : List ℕ)
    → Ready limit flight c
    → length m ≤ limit
    → Ready limit (flight ++ m ∷ []) (set_outbox c (c.outbox ++ m ∷ []))
push-Ready {limit} {flight} {c} m r short = record {
  in_ring = r.in_ring;
  is_open = set_outbox-IsOpen (c.outbox ++ m ∷ []) r.is_open;
  queued = ap (λ f. f ++ m ∷ []) r.queued ∙ append_assoc r.in_ring c.outbox (m ∷ []);
  opened = r.opened;
  max_bytes = r.max_bytes;
  small = r.small;
  fits = r.fits;
  short = r.short;
  short_outbox = AllShort-append limit c.outbox (m ∷ []) r.short_outbox (short, tt);
}

-- Only counters move.
abbrev counted : Channel → ℕ → ℕ → ℕ → Channel
counted c blocked pending dropped = record c {
  would_block_send = blocked;
  pending_drop = pending;
  shared = record c.shared { dropped_when_full = dropped };
}

counted-Ready :
    {limit : ℕ} {flight : List (List ℕ)} {c : Channel} (blocked pending dropped : ℕ)
    → Ready limit flight c
    → Ready limit flight (counted c blocked pending dropped)
counted-Ready blocked pending dropped r = record {
  in_ring = r.in_ring;
  is_open = record {
    mapped = r.is_open.mapped;
    ring = r.is_open.ring;
    order = r.is_open.order;
    span = r.is_open.span;
    aligned = r.is_open.aligned;
    holds = r.is_open.holds;
  };
  queued = r.queued;
  opened = r.opened;
  max_bytes = r.max_bytes;
  small = r.small;
  fits = r.fits;
  short = r.short;
  short_outbox = r.short_outbox;
}

count_dropped-Ready :
    {limit : ℕ} {flight : List (List ℕ)} {c : Channel} (drop : Bool)
    → Ready limit flight c
    → Ready limit flight (count_dropped drop (blocked_send c))
      × Sends c (count_dropped drop (blocked_send c))
unfolding count_dropped
count_dropped-Ready {c = c} true r = (
  counted-Ready (add64 c.would_block_send 1) (add64 c.pending_drop 1)
      (add64 c.shared.dropped_when_full 1) r,
  record { options = refl; opened = refl; read_index = refl; ring_bytes = refl },
)
count_dropped-Ready {c = c} false r = (
  counted-Ready (add64 c.would_block_send 1) c.pending_drop c.shared.dropped_when_full r,
  record { options = refl; opened = refl; read_index = refl; ring_bytes = refl },
)

-- What a send does: the message is at the end of the queue, or the queue is as it was.
pub data Sent (limit : ℕ) (flight : List (List ℕ)) (m : List ℕ) (c : Channel)
    : Status × Channel → Type 0 where
  accepted :
      {c' : Channel}
      → Ready limit (flight ++ m ∷ []) c'
      → Sends c c'
      → Sent limit flight m c (status_ok, c')
  refused :
      {c' : Channel} → Ready limit flight c' → Sends c c' → Sent limit flight m c (pending_full, c')

enqueue-Sent :
    {limit : ℕ} {flight : List (List ℕ)} {c : Channel} (m : List ℕ)
    → Ready limit flight c
    → c.shared.read_index < 2 ^ 62
    → length m ≤ limit
    → Sent limit flight m c (enqueue c m)
unfolding enqueue
enqueue-Sent {c = c} m r far short =
    let limit = local_outbox_limit c.options.capacity in
    elim (Bool-cases (leb limit (length c.outbox))) [
      | inl full ↦
          let counted = count_dropped-Ready c.options.drop_when_full r in
          rw full (refused counted.0 counted.1)
      | inr room ↦
          let moved = process_io_once-Ready (max 1 (min 8 limit)) (push-Ready m r short) far in
          rw room (
            accepted moved.0 (record {
              options = moved.1.options;
              opened = moved.1.opened;
              read_index = moved.1.read_index;
              ring_bytes = moved.1.ring_bytes;
            }))
    ]

Sent-after :
    {limit : ℕ} {flight : List (List ℕ)} {m : List ℕ} {c c1 : Channel} {out : Status × Channel}
    → Sends c c1
    → Sent limit flight m c1 out
    → Sent limit flight m c out
Sent-after s (accepted r k) = accepted r (Sends-trans s k)
Sent-after s (refused r k) = refused r (Sends-trans s k)

-- On an open channel whose ring holds a frame of the largest message, whose waiting messages are none
-- larger, and whose read index is below 2^62: `TrySend` of a message that is not too long puts it at
-- the end of the queue of ring and outbox and returns `kOk`, or returns `kWouldBlock` and keeps the
-- queue.
pub try_send-Sent :
    {limit : ℕ} {flight : List (List ℕ)} {c : Channel} (m : List ℕ)
    → Ready limit flight c
    → c.shared.read_index < 2 ^ 62
    → length m ≤ limit
    → Sent limit flight m c (try_send c (some m) (length m))
unfolding try_send
try_send-Sent {c = c} m r far short =
    let moved = process_io_once-Ready 1 r far in
    let not_long : ltb c.options.message_max_bytes (length m) ≡ false =
      ground (arith, r.max_bytes) in
    let not_null : (ltb 0 (length m) && false) ≡ false = ground arith in
    simp (r.opened, r.is_open.mapped, not_long, not_null, take-length)
      (Sent-after moved.1 (enqueue-Sent m moved.0 (rw moved.1.read_index far) short))
