-- ===== src/Ipc/Flush.antt =====
-- `ProcessIoOnce` moves messages from the outbox into the ring, in order.
use corekit.Base.{
  ℕ, zero, suc, ◌^◌, ◌≤◌, ◌<◌, ◌≡◌, inl, inr, refl, ap, sym, ◌∙◌, subst, List, [], ◌∷◌, ◌++◌,
  length, append-nil, append_assoc, arith,
}
use corekit.Api.Status.{StatusCode, Status}
use corekit.Ipc.Layout.{frame_bytes}
use corekit.Ipc.Geometry.{ring-bounds}
use corekit.Ipc.Channel.{Channel, set_outbox, blocked_send}
use corekit.Ipc.Send.{put_frame, mark_wrap, try_write_one_to_shared, flush}
use corekit.Ipc.Write.{IsOpen, placed}
use corekit.Ipc.Append.{try_write-placed_or_full}
use corekit.Ipc.Read.{AllShort}

-- What a write leaves alone.
pub record Sends (c c' : Channel) : Type 0 where
  pub options : c'.options ≡ c.options
  pub opened : c'.opened ≡ c.opened
  pub read_index : c'.shared.read_index ≡ c.shared.read_index
  pub ring_bytes : c'.shared.ring_bytes ≡ c.shared.ring_bytes

placed-Sends : (c : Channel) (m : List ℕ) → Sends c (placed c m)
unfolding placed put_frame mark_wrap
placed-Sends c m = ground arith

pub Sends-trans : {a b c : Channel} → Sends a b → Sends b c → Sends a c
Sends-trans p q = record {
  options = q.options ∙ p.options;
  opened = q.opened ∙ p.opened;
  read_index = q.read_index ∙ p.read_index;
  ring_bytes = q.ring_bytes ∙ p.ring_bytes;
}

pub frame_bytes_mono : (a b : ℕ) → a ≤ b → b < 2 ^ 32 → frame_bytes a ≤ frame_bytes b
unfolding frame_bytes
frame_bytes_mono a b h k = omega arith

-- The pending messages split into those that went into the ring and those that wait on.
pub record Flushed (c : Channel) (in_ring pending : List (List ℕ)) (c' : Channel) : Type 0 where
  pub sent : List (List ℕ)
  pub waiting : List (List ℕ)
  pub split : pending ≡ sent ++ waiting
  pub outbox : c'.outbox ≡ waiting
  pub is_open : IsOpen c' (in_ring ++ sent)
  pub keeps : Sends c c'

pub set_outbox-IsOpen :
    {c : Channel} {ms : List (List ℕ)} (pending : List (List ℕ))
    → IsOpen c ms
    → IsOpen (set_outbox c pending) ms
set_outbox-IsOpen pending o = record {
  mapped = o.mapped;
  ring = o.ring;
  order = o.order;
  span = o.span;
  aligned = o.aligned;
  holds = o.holds;
}

blocked_send-IsOpen : {c : Channel} {ms : List (List ℕ)} → IsOpen c ms → IsOpen (blocked_send c) ms
blocked_send-IsOpen o = record {
  mapped = o.mapped;
  ring = o.ring;
  order = o.order;
  span = o.span;
  aligned = o.aligned;
  holds = o.holds;
}

stopped :
    {c c' : Channel} {in_ring : List (List ℕ)} (pending : List (List ℕ))
    → IsOpen c' in_ring
    → c'.outbox ≡ pending
    → Sends c c'
    → Flushed c in_ring pending c'
stopped {c' = c'} {in_ring = in_ring} pending o e keeps = record {
  sent = [];
  waiting = pending;
  split = refl;
  outbox = e;
  is_open = subst (IsOpen c') (sym (append-nil in_ring)) o;
  keeps = keeps;
}

-- One more message went into the ring before the rest was flushed.
sent_first :
    {c c1 c' : Channel} {in_ring ms : List (List ℕ)} (m : List ℕ)
    → Sends c c1
    → Flushed c1 (in_ring ++ m ∷ []) ms c'
    → Flushed c in_ring (m ∷ ms) c'
sent_first {c' = c'} {in_ring = in_ring} m keeps f = record {
  sent = m ∷ f.sent;
  waiting = f.waiting;
  split = ap (◌∷◌ m) f.split;
  outbox = f.outbox;
  is_open = subst (IsOpen c') (append_assoc in_ring (m ∷ []) f.sent) f.is_open;
  keeps = Sends-trans keeps f.keeps;
}

-- One round of the loop, for a write that is known.
pub flush-round :
    (remaining : ℕ) (m : List ℕ) (ms : List (List ℕ)) (c : Channel) {out : Status × Channel}
    → try_write_one_to_shared c m ≡ out
    → flush (suc remaining) (m ∷ ms) c ≡ elim out.0.code [
      | StatusCode.ok ↦ flush remaining ms out.1
      | StatusCode.would_block ↦ set_outbox out.1 (m ∷ ms)
      | _ ↦ flush (suc remaining) ms out.1
    ]
unfolding flush
flush-round remaining m ms c e = λ i. elim (e i).0.code [
  | StatusCode.ok ↦ flush remaining ms (e i).1
  | StatusCode.would_block ↦ set_outbox (e i).1 (m ∷ ms)
  | _ ↦ flush (suc remaining) ms (e i).1
]

module _ (limit : ℕ) (small : limit < 2 ^ 32) where
  pub flush-Flushed :
      (remaining : ℕ) (pending : List (List ℕ)) {c : Channel} {in_ring : List (List ℕ)}
      → IsOpen c in_ring
      → AllShort limit pending
      → frame_bytes limit ≤ c.shared.ring_bytes
      → c.shared.read_index < 2 ^ 62
      → Flushed c in_ring pending (flush remaining pending c)
  unfolding flush
  flush-Flushed remaining [] {c} o short fits far =
      stopped [] (set_outbox-IsOpen [] o) refl
        (record { options = refl; opened = refl; read_index = refl; ring_bytes = refl })
  flush-Flushed zero (m ∷ ms) o short fits far =
      stopped (m ∷ ms) (set_outbox-IsOpen (m ∷ ms) o) refl
        (record { options = refl; opened = refl; read_index = refl; ring_bytes = refl })
  flush-Flushed (suc remaining) (m ∷ ms) {c} {in_ring} o short fits far =
      let near : c.shared.write_index < 2 ^ 63 = omega (arith, o.span, ring-bounds o.ring) in
      let fits_m = frame_bytes_mono (length m) limit short.0 small in
      let keeps = placed-Sends c m in
      elim (try_write-placed_or_full o m (omega (arith, short.0)) near (omega arith)) [
        | inl (e, o') ↦ rw (flush-round remaining m ms c e) (
            sent_first m keeps (
              flush-Flushed remaining ms o' short.1 (rw keeps.ring_bytes fits)
                (rw keeps.read_index far)))
        | inr e ↦ rw (flush-round remaining m ms c e) (
            stopped (m ∷ ms) (set_outbox-IsOpen (m ∷ ms) (blocked_send-IsOpen o)) refl
              (record { options = refl; opened = refl; read_index = refl; ring_bytes = refl }))
      ]
