-- ===== src/Tape.antt =====
-- crates/detersim-sim/src/tape.rs: the entropy tape, the one source of control-plane randomness.
pub mod Replay
pub mod Record
pub mod Padding
use Prim.Native.Nat.{bit_xor}
use Prim.Native.String.{String}
use detersim.Prelude.{
  ℕ, suc, ◌+◌, ◌≤◌, ◌<◌, ◌≡◌, Bool, true, false, Option, none, some, List, [], ◌∷◌, ◌++◌, length,
  get_or, ltb, leb,
}
use detersim.Rng
use detersim.Rng.{SplitMix64, next_u64}

pub data TapeLabel : Type 0 where
  net_delay drop_decision duplicate_decision extra_delay crash_point partition restart : TapeLabel
  clock_skew jitter nemesis other : TapeLabel

-- `TapeLabel::as_str`.
unfoldable pub as_str : TapeLabel → String
as_str net_delay = "net-delay"
as_str drop_decision = "drop-decision"
as_str duplicate_decision = "duplicate-decision"
as_str extra_delay = "extra-delay"
as_str crash_point = "crash-point"
as_str partition = "partition"
as_str restart = "restart"
as_str clock_skew = "clock-skew"
as_str jitter = "jitter"
as_str nemesis = "nemesis"
as_str other = "other"

pub record TapeEvent : Type 0 where
  pub index : ℕ
  pub label : TapeLabel
  pub value : ℕ

pub data EntropyTape : Type 0 where
  generating : (rng : SplitMix64) (log : List ℕ) (events : List TapeEvent) → EntropyTape
  replaying : (tape : List ℕ) (cursor : ℕ) (log : List ℕ) (events : List TapeEvent) → EntropyTape

pub record TapeDiagnostics : Type 0 where
  pub is_replaying : Bool
  pub input_len : Option ℕ
  pub cursor : ℕ
  pub consumed_all : Bool
  pub exhausted : Bool

unfoldable pub generate : ℕ → EntropyTape
unfolding Rng.new
generate seed = generating (Rng.new (bit_xor seed 0xA5A5_5A5A_DEAD_BEEF)) [] []

unfoldable pub replay : List ℕ → EntropyTape
replay tape = replaying tape 0 [] []

-- The drawn value and the tape after the draw. Past the end of a replayed tape the value is 0.
unfoldable pub draw : TapeLabel → EntropyTape → ℕ × EntropyTape
draw label (generating rng log events) =
    let (v, rng') = next_u64 rng in
    let event : TapeEvent = record { index = length log; label = label; value = v } in
    (v, generating rng' (log ++ v ∷ []) (events ++ event ∷ []))
draw label (replaying tape cursor log events) =
    let v = get_or tape cursor 0 in
    let event : TapeEvent = record { index = cursor; label = label; value = v } in
    (v, replaying tape (suc cursor) (log ++ v ∷ []) (events ++ event ∷ []))

abbrev pub log : EntropyTape → List ℕ
log (generating rng l events) = l
log (replaying tape cursor l events) = l

abbrev pub events : EntropyTape → List TapeEvent
events (generating rng l es) = es
events (replaying tape cursor l es) = es

unfoldable pub diagnostics : EntropyTape → TapeDiagnostics
diagnostics (generating rng l es) = record {
  is_replaying = false;
  input_len = none;
  cursor = length l;
  consumed_all = true;
  exhausted = false;
}
diagnostics (replaying tape cursor l es) = record {
  is_replaying = true;
  input_len = some (length tape);
  cursor = cursor;
  consumed_all = leb (length tape) cursor;
  exhausted = ltb (length tape) cursor;
}

-- A run that draws from the tape: it picks the next label, or stops, from the values drawn so far.
abbrev pub Client : Type 0
Client = List ℕ → Option TapeLabel

-- At most `n` draws of a client that has drawn `seen`; the values drawn and the tape left.
unfoldable pub run_client : ℕ → Client → List ℕ → EntropyTape → List ℕ × EntropyTape
run_client ℕ.zero client seen t = (seen, t)
run_client (suc n) client seen t = elim (client seen) [
  | none ↦ (seen, t)
  | some label ↦ run_client n client (seen ++ (draw label t).0 ∷ []) (draw label t).1
]
