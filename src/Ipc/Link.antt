-- ===== src/Ipc/Link.antt =====
-- Two processes on one channel: the server sends, the client receives, and both see one shared
-- region. Calls of the two sides come in any order, each as one step.
pub mod Fifo
use corekit.Base.{
  ℕ, Bool, true, false, Option, none, some, List, [], ◌∷◌, ◌++◌, length, if◌then◌else◌,
}
use corekit.Api.Status.{Result, value, error, is_ok}
use corekit.Ipc.Channel.{Channel}
use corekit.Ipc.Send.{try_send}
use corekit.Ipc.Recv.{Received, try_recv}

pub record Link : Type 0 where
  pub sender : Channel
  pub receiver : Channel

-- A call of `TrySend` with these bytes, or of `TryRecv` with a buffer of this size.
pub data Call : Type 0 where
  sends : List ℕ → Call
  receives : ℕ → Call

-- What a history of calls leaves: the link, the messages that `TrySend` accepted, and those that
-- `TryRecv` delivered, oldest first.
pub record History : Type 0 where
  pub link : Link
  pub accepted : List (List ℕ)
  pub delivered : List (List ℕ)

-- The other side sees the region as this side left it.
abbrev pub seen_by : Channel → Channel → Channel
seen_by c other = record c { shared = other.shared }

abbrev pub handed : Result ℕ → List ℕ → List (List ℕ)
handed (value n) copied = copied ∷ []
handed (error s) copied = []

abbrev pub after_receive : Link → Received → History
after_receive l r = record {
  link = record { sender = seen_by l.sender r.channel; receiver = r.channel };
  accepted = [];
  delivered = handed r.result r.copied;
}

abbrev pub received : Link → Option Received → History
received l none = record { link = l; accepted = []; delivered = [] }
received l (some r) = after_receive l r

unfoldable pub call : Link → Call → History
call l (sends m) =
    let (st, c) = try_send l.sender (some m) (length m) in
    record {
      link = record { sender = c; receiver = seen_by l.receiver c };
      accepted = if is_ok st then m ∷ [] else [];
      delivered = [];
    }
call l (receives n) = received l (try_recv l.receiver false n)

unfoldable pub run : Link → List Call → History
run l [] = record { link = l; accepted = []; delivered = [] }
run l (x ∷ xs) =
    let first = call l x in
    let rest = run first.link xs in
    record {
      link = rest.link;
      accepted = first.accepted ++ rest.accepted;
      delivered = first.delivered ++ rest.delivered;
    }
