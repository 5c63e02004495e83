-- ===== src/Ipc/Link/Fifo.antt =====
-- No history of calls loses, repeats, reorders or changes a message.
use corekit.Base.{
  ℕ, ◌+◌, ◌*◌, ◌^◌, ◌≤◌, ◌<◌, ◌≡◌, refl, sym, ap, ap₂, ◌∙◌, subst, true, false, some, List, [], ◌∷◌,
  ◌++◌, length, ltb, if◌then◌else◌, append-nil, append_assoc, arith, ◌&&◌,
}
use native.Mathlib.Decide.{dec_le}
use corekit.Api.Status.{Status, is_ok, status, invalid_argument}
use corekit.Ipc.Geometry.{ring-bounds}
use corekit.Ipc.Channel.{Channel, set_outbox}
use corekit.Ipc.Send.{flush, process_io_once, try_send}
use corekit.Ipc.Recv.{Received, recv_frame, try_recv}
use corekit.Ipc.Write.{IsOpen}
use corekit.Ipc.Read.{Outcome, nothing, delivered, too_small, Keeps, AllShort, recv_frame-Outcome}
use corekit.Ipc.Ready.{Ready, Sent, accepted, refused, try_send-Sent}
use corekit.Ipc.Link.{
  Link, Call, sends, receives, History, handed, seen_by, after_receive, received, call, run,
}

-- The two sides of an open channel, with these messages accepted and not yet delivered.
pub record Connected (limit : ℕ) (flight : List (List ℕ)) (l : Link) : Type 0 where
  pub sending : Ready limit flight l.sender
  pub same : l.receiver.shared ≡ l.sender.shared
  pub mapped : l.receiver.mapped ≡ true
  pub opened : l.receiver.opened ≡ true
  pub idle : l.receiver.outbox ≡ []
  pub max_bytes : l.receiver.options.message_max_bytes ≡ limit

IsOpen-same :
    {c : Channel} {ms : List (List ℕ)} (c' : Channel)
    → IsOpen c ms
    → c'.mapped ≡ true
    → c'.shared ≡ c.shared
    → IsOpen c' ms
IsOpen-same {c} {ms} c' o mapped e =
    subst (λ s. IsOpen (record c' { shared = s }) ms) (sym e)
      (record {
        mapped = mapped;
        ring = o.ring;
        order = o.order;
        span = o.span;
        aligned = o.aligned;
        holds = o.holds;
      })

-- A side that sends nothing has nothing to move on.
pub process_io_once-idle : (n : ℕ) (c : Channel) → c.outbox ≡ [] → process_io_once n c ≡ c
unfolding process_io_once flush
process_io_once-idle n c e = ap (λ o. flush n o c) e ∙ ap (set_outbox c) (sym e)

-- What one call does to the messages in flight.
pub record Steps (limit : ℕ) (flight : List (List ℕ)) (l : Link) (h : History) : Type 0 where
  pub flight' : List (List ℕ)
  pub connected : Connected limit flight' h.link
  pub fifo : flight ++ h.accepted ≡ h.delivered ++ flight'
  pub advance : h.link.sender.shared.read_index ≤ l.sender.shared.read_index + 2 ^ 31

module _ {limit : ℕ} {flight : List (List ℕ)} {l : Link} (k : Connected limit flight l)
    (far : l.sender.shared.read_index < 2 ^ 62) where
  Sent-Steps :
      (m : List ℕ) {out : Status × Channel}
      → Sent limit flight m l.sender out
      → Steps limit flight l (record {
        link = record { sender = out.1; receiver = seen_by l.receiver out.1 };
        accepted = if is_ok out.0 then m ∷ [] else [];
        delivered = [];
      })
  Sent-Steps m (accepted r s) = record {
    flight' = flight ++ m ∷ [];
    connected = record {
      sending = r;
      same = refl;
      mapped = k.mapped;
      opened = k.opened;
      idle = k.idle;
      max_bytes = k.max_bytes;
    };
    fifo = refl;
    advance = omega (arith, s.read_index);
  }
  Sent-Steps m (refused r s) = record {
    flight' = flight;
    connected = record {
      sending = r;
      same = refl;
      mapped = k.mapped;
      opened = k.opened;
      idle = k.idle;
      max_bytes = k.max_bytes;
    };
    fifo = append-nil flight;
    advance = omega (arith, s.read_index);
  }

  too_long :
      (m : List ℕ)
      → limit < length m
      → try_send l.sender (some m) (length m)
        ≡ (status invalid_argument "message exceeds max bytes", l.sender)
  unfolding try_send
  too_long m h =
      let long : ltb l.sender.options.message_max_bytes (length m) ≡ true =
        ground (arith, k.sending.max_bytes) in
      let not_null : (ltb 0 (length m) && false) ≡ false = ground arith in
      simp (k.sending.opened, k.sending.is_open.mapped, long, not_null)

  send-Steps : (m : List ℕ) → Steps limit flight l (call l (sends m))
  unfolding call
  send-Steps m = elim (dec_le (length m) limit) [
    | yes short ↦ Sent-Steps m (try_send-Sent m k.sending far short)
    | no long ↦ rw (too_long m (omega arith)) (record {
      flight' = flight;
      connected = record {
        sending = k.sending;
        same = refl;
        mapped = k.mapped;
        opened = k.opened;
        idle = k.idle;
        max_bytes = k.max_bytes;
      };
      fifo = append-nil flight;
      advance = omega arith;
    })
  ]

  -- The receiver's view of the ring.
  receiving : IsOpen l.receiver k.sending.in_ring
  receiving = IsOpen-same l.receiver k.sending.is_open k.mapped k.same

  try_recv-frame :
      (n : ℕ)
      → try_recv l.receiver false n ≡ recv_frame (l.receiver.shared.write_index + 1) l.receiver n
  unfolding try_recv
  try_recv-frame n =
      let not_null : (ltb 0 n && false) ≡ false = ground arith in
      simp (k.opened, k.mapped, not_null, process_io_once-idle 1 l.receiver k.idle)

  after-Connected :
      {rest : List (List ℕ)} (r : Received)
      → IsOpen r.channel rest
      → Keeps l.receiver r.channel
      → AllShort limit rest
      → Connected limit (rest ++ l.sender.outbox) (after_receive l r).link
  after-Connected {rest} r o keeps short = record {
    sending = record {
      in_ring = rest;
      is_open = IsOpen-same (seen_by l.sender r.channel) o k.sending.is_open.mapped refl;
      queued = refl;
      opened = k.sending.opened;
      max_bytes = k.sending.max_bytes;
      small = k.sending.small;
      fits = rw (keeps.ring_bytes, k.same) k.sending.fits;
      short = short;
      short_outbox = k.sending.short_outbox;
    };
    same = refl;
    mapped = o.mapped;
    opened = keeps.opened ∙ k.opened;
    idle = keeps.outbox ∙ k.idle;
    max_bytes = ap (λ o. o.message_max_bytes) keeps.options ∙ k.max_bytes;
  }

  read-advance :
      {rest : List (List ℕ)} (r : Received)
      → IsOpen r.channel rest
      → Keeps l.receiver r.channel
      → r.channel.shared.read_index ≤ l.sender.shared.read_index + 2 ^ 31
  read-advance r o keeps = omega (
    arith,
    o.order,
    keeps.write_index,
    ap (λ s. s.write_index) k.same,
    k.sending.is_open.span,
    ring-bounds k.sending.is_open.ring,
  )

  received-Steps :
      (n : ℕ) {ms : List (List ℕ)} {r : Received}
      → Outcome l.receiver n ms r
      → AllShort limit ms
      → flight ≡ ms ++ l.sender.outbox
      → Steps limit flight l (after_receive l r)
  received-Steps n {r = r} (nothing e copied o keeps) short queued = record {
    flight' = l.sender.outbox;
    connected = after-Connected r o keeps short;
    fifo = append-nil flight ∙ queued ∙ ap (λ d. d ++ l.sender.outbox) (sym (ap₂ handed e copied));
    advance = read-advance r o keeps;
  }
  received-Steps n {r = r} (delivered {m = m} {ms = ms} enough e copied o keeps) short queued =
      record {
        flight' = ms ++ l.sender.outbox;
        connected = after-Connected r o keeps short.1;
        fifo =
            append-nil flight
            ∙ queued
            ∙ ap (λ d. d ++ (ms ++ l.sender.outbox)) (sym (ap₂ handed e copied));
        advance = read-advance r o keeps;
      }
  received-Steps n {r = r} (too_small {m = m} {ms = ms} small e copied o keeps) short queued =
      record {
        flight' = (m ∷ ms) ++ l.sender.outbox;
        connected = after-Connected r o keeps short;
        fifo =
            append-nil flight
            ∙ queued
            ∙ ap (λ d. d ++ ((m ∷ ms) ++ l.sender.outbox)) (sym (ap₂ handed e copied));
        advance = read-advance r o keeps;
      }

  receive-Steps : (n : ℕ) → Steps limit flight l (call l (receives n))
  unfolding call
  receive-Steps n =
      let near : l.receiver.shared.write_index < 2 ^ 63 = omega (
        arith,
        ap (λ s. s.write_index) k.same,
        k.sending.is_open.span,
        ring-bounds k.sending.is_open.ring,
      ) in
      let found = recv_frame-Outcome n receiving near (rw k.max_bytes k.sending.short) in
      subst (λ o. Steps limit flight l (received l o)) (sym (try_recv-frame n ∙ found.1))
        (received-Steps n found.2 k.sending.short k.sending.queued)

  call-Steps : (x : Call) → Steps limit flight l (call l x)
  call-Steps (sends m) = send-Steps m
  call-Steps (receives n) = receive-Steps n

-- After any history of sends and receives, with buffers of any size, what was in flight followed by
-- what was accepted is what was delivered followed by what is in flight now: the receiver gets the
-- accepted messages, whole, in order and once each. The history is short enough for the 64-bit
-- indices: a call moves them by less than 2^31.
pub run-fifo :
    {limit : ℕ} {flight : List (List ℕ)} {l : Link} (calls : List Call)
    → Connected limit flight l
    → l.sender.shared.read_index + length calls * 2 ^ 31 < 2 ^ 62
    → let h = run l calls in
      (flight' : List (List ℕ)) × Connected limit flight' h.link
      × (flight ++ h.accepted ≡ h.delivered ++ flight')
unfolding run
run-fifo {flight = flight} [] k far = (flight, k, append-nil flight)
run-fifo {flight = flight} {l = l} (x ∷ xs) k far =
    let s = call-Steps k (omega arith) x in
    let rest =
      run-fifo {flight = s.flight'} {l = (call l x).link} xs s.connected
        (omega (arith, s.advance)) in
    (
      rest.0,
      rest.1,
      sym (append_assoc flight (call l x).accepted _)
          ∙ ap (λ f. f ++ (run (call l x).link xs).accepted) s.fifo
          ∙ append_assoc (call l x).delivered s.flight' _
          ∙ ap (◌++◌ (call l x).delivered) rest.2
          ∙ sym (append_assoc (call l x).delivered (run (call l x).link xs).delivered rest.0),
    )
