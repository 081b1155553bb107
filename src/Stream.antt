-- ===== src/Stream.antt =====
-- crates/detersim-net/src/lib.rs: the deterministic ordered-frame stream.
-- Transcript labels are data in place of formatted text.
pub mod Delivery
pub mod Order
pub mod Stall
pub mod Transcript
use detersim.Prelude.{
  ℕ, zero, suc, ◌+◌, ◌≤◌, ◌<◌, ◌≡◌, Bool, true, false, not, ◌&&◌, ◌||◌, Option, none, some, List,
  [], ◌∷◌, ◌++◌, any, length, Map, lookup, insert, remove, member, set_insert, ltb, leb, ◌==◌,
  if◌then◌else◌,
}

pub record StreamEndpoint : Type 0 where
  pub node : ℕ
  pub connection : ℕ

pub record Frame : Type 0 where
  pub seq : ℕ
  pub bytes : List ℕ

pub data StreamFault : Type 0 where
  drop : (seq : ℕ) → StreamFault
  duplicate : (seq : ℕ) → StreamFault
  delay : (seq after_seq : ℕ) → StreamFault
  disconnect reconnect : StreamFault

pub data StreamEvent : Type 0 where
  disconnected reconnected : StreamEvent
  blocked dropped enqueued duplicated : (seq : ℕ) → StreamEvent
  delayed : (seq after_seq : ℕ) → StreamEvent
  delivered : (from to seq : ℕ) → StreamEvent

pub record StreamTranscript : Type 0 where
  pub events : List StreamEvent
  pub delivered : List Frame

pub record DeterministicStream : Type 0 where
  pub source : StreamEndpoint
  pub target : StreamEndpoint
  pub next_send : ℕ
  pub next_deliver : ℕ
  pub connected : Bool
  pub buffered : Map Frame
  pub delivered_once : List ℕ
  pub transcript : StreamTranscript

unfoldable pub new : StreamEndpoint → StreamEndpoint → DeterministicStream
new source target = record {
  source = source;
  target = target;
  next_send = 0;
  next_deliver = 0;
  connected = true;
  buffered = [];
  delivered_once = [];
  transcript = record { events = []; delivered = [] };
}

-- `connect_pair`.
pub connect_pair : ℕ → ℕ → ℕ → DeterministicStream
unfolding new
connect_pair left right connection =
    new (record { node = left; connection = connection })
      (record { node = right; connection = connection })

-- `StreamTranscript::record`.
abbrev pub note : StreamEvent → DeterministicStream → DeterministicStream
note e s = record s {
  transcript = record {
    events = s.transcript.events ++ e ∷ [];
    delivered = s.transcript.delivered;
  };
}

abbrev pub is_disconnect : StreamFault → Bool
is_disconnect disconnect = true
is_disconnect _ = false

abbrev pub is_reconnect : StreamFault → Bool
is_reconnect reconnect = true
is_reconnect _ = false

abbrev pub is_drop : ℕ → StreamFault → Bool
is_drop n (drop seq) = seq == n
is_drop n _ = false

abbrev pub is_duplicate : ℕ → StreamFault → Bool
is_duplicate n (duplicate seq) = seq == n
is_duplicate n _ = false

-- `find_map` of the delay fault on the frame.
delay_of : ℕ → List StreamFault → Option ℕ
delay_of n [] = none
delay_of n (delay seq after_seq ∷ fs) = if seq == n then some after_seq else delay_of n fs
delay_of n (_ ∷ fs) = delay_of n fs

-- One turn of the loop of `drain_ordered`, for the frame that `remove` found.
deliver : Frame → DeterministicStream → DeterministicStream
deliver f s =
    let rest = remove s.next_deliver s.buffered in
    if member f.seq s.delivered_once
    then record s { buffered = rest; next_deliver = suc s.next_deliver }
    else record s {
      buffered = rest;
      next_deliver = suc s.next_deliver;
      delivered_once = set_insert f.seq s.delivered_once;
      transcript = record {
        events =
            s.transcript.events ++ StreamEvent.delivered s.source.node s.target.node f.seq ∷ [];
        delivered = s.transcript.delivered ++ f ∷ [];
      };
    }

-- The loop, at most `n` turns.
drain_loop : ℕ → DeterministicStream → DeterministicStream
drain_loop zero s = s
drain_loop (suc n) s = elim (lookup s.next_deliver s.buffered) [
  | none ↦ s
  | some f ↦ drain_loop n (deliver f s)
]

-- Each turn removes a buffered frame, so one turn more than there are frames is enough.
pub drain_ordered : DeterministicStream → DeterministicStream
drain_ordered s = drain_loop (suc (length s.buffered)) s

pub flush : DeterministicStream → DeterministicStream
flush s = drain_ordered s

-- `into_transcript`.
pub into_transcript : DeterministicStream → StreamTranscript
into_transcript s = (flush s).transcript

-- The connection faults of a send, in the order in which the code tests them.
pub connection_faults : List StreamFault → DeterministicStream → DeterministicStream
connection_faults faults s =
    let s1 =
      if any is_disconnect faults then note disconnected (record s { connected = false }) else s in
    if any is_reconnect faults then note reconnected (record s1 { connected = true }) else s1

-- The part of `send` that buffers the frame and delivers what is in order.
enqueue : Frame → List StreamFault → DeterministicStream → DeterministicStream
enqueue f faults s =
    let s1 = note (enqueued f.seq) (record s { buffered = insert f.seq f s.buffered }) in
    let s2 =
      if any (is_duplicate f.seq) faults
      then note (duplicated f.seq) (record s1 { buffered = insert f.seq f s1.buffered })
      else s1 in
    elim (delay_of f.seq faults) [
      | none ↦ drain_ordered s2
      | some after_seq ↦
          if leb s2.next_deliver after_seq
          then note (delayed f.seq after_seq) s2
          else drain_ordered (note (delayed f.seq after_seq) s2)
    ]

pub send : List ℕ → List StreamFault → DeterministicStream → DeterministicStream
send bytes faults s =
    let f : Frame = record { seq = s.next_send; bytes = bytes } in
    let s1 = connection_faults faults (record s { next_send = suc s.next_send }) in
    if not s1.connected
    then note (blocked f.seq) s1
    else if any (is_drop f.seq) faults
    then note (dropped f.seq) s1
    else enqueue f faults s1

-- A client's calls, in order.
pub data Call : Type 0 where
  sends : (bytes : List ℕ) (faults : List StreamFault) → Call
  flushes : Call

pub step : Call → DeterministicStream → DeterministicStream
step (sends bytes faults) s = send bytes faults s
step flushes s = flush s

pub run : List Call → DeterministicStream → DeterministicStream
run [] s = s
run (c ∷ cs) s = run cs (step c s)

-- The payloads that the calls hand to the stream, by sequence number.
abbrev pub payloads : List Call → List (List ℕ)
payloads [] = []
payloads (sends bytes faults ∷ cs) = bytes ∷ payloads cs
payloads (flushes ∷ cs) = payloads cs
