-- ===== src/World.antt =====
-- crates/detersim-sim/src/lib.rs: the state of the simulator, `Inner`, and its parts. A future of
-- the system under test is a value of a type `Fut`, and a node's factory is the future it makes.
pub mod Events
pub mod Clock
pub mod Faults
pub mod Dispatch
pub mod Handles
pub mod Replay
pub mod Report
pub mod Setup
pub mod Joins
use Prim.Native.String.{String}
use detersim.Prelude.{ℕ, ℤ, Bool, true, false, Option, none, some, List, [], ◌∷◌, Map}
use detersim.Time.{SimTime}
use detersim.Tape.{EntropyTape}
use detersim.Storage.{PageStore}
use detersim.Nemesis.{NemesisAction}
use detersim.Nemesis.Connectivity
use detersim.Nemesis.Connectivity.{ConnectivityMatrix}

pub record WorldConfig : Type 0 where
  pub horizon_ns : ℕ
  pub max_events : ℕ

-- `WorldConfig::default()`.
abbrev pub default_world : WorldConfig
default_world = record { horizon_ns = 60_000_000_000; max_events = 5_000_000 }

abbrev pub Message : Type 0
Message = List ℕ

pub data EventKind : Type 0 where
  poll_task : (task : ℕ) → EventKind
  timer_fire : (timer : ℕ) → EventKind
  deliver_msg : (from to : ℕ) (msg : Message) → EventKind
  nemesis : (action : NemesisAction) → EventKind

pub record Keyed : Type 0 where
  pub time : ℕ
  pub seq : ℕ
  pub kind : EventKind

pub record TaskSlot (Fut : Type 0) : Type 0 where
  pub node : ℕ
  pub future : Option Fut

pub record FaultConfig : Type 0 where
  pub connectivity : ConnectivityMatrix
  pub drop_percent : ℕ
  pub duplicate_percent : ℕ
  pub extra_delay_ms : ℕ
  pub clock_skew_ns : Map ℤ
  pub bit_rot_nodes : List ℕ
  pub torn_write_nodes : List ℕ
  pub lost_on_crash_nodes : List ℕ
  pub pre_fsync_reorder_nodes : List ℕ

-- `FaultConfig::default()`.
abbrev pub no_faults : FaultConfig
no_faults = record {
  connectivity = Connectivity.new;
  drop_percent = 0;
  duplicate_percent = 0;
  extra_delay_ms = 0;
  clock_skew_ns = [];
  bit_rot_nodes = [];
  torn_write_nodes = [];
  lost_on_crash_nodes = [];
  pre_fsync_reorder_nodes = [];
}

pub data RestartOutcome : Type 0 where
  restarted node_missing node_not_crashed missing_factory : (node : ℕ) → RestartOutcome

-- Why a message is dropped.
pub data DropKind : Type 0 where
  unregistered crashed_end partitioned random_drop : DropKind

-- Trace and history lines are data in place of formatted text.
pub data TraceLine : Type 0 where
  send_from_crashed : (from to : ℕ) → TraceLine
  dropped : (why : DropKind) (time seq from to : ℕ) → TraceLine
  rendered : (event : Keyed) → TraceLine

pub data HistoryLine : Type 0 where
  recorded : (text : String) → HistoryLine
  restart_line : (outcome : RestartOutcome) → HistoryLine

-- The priority queue is the list of its events sorted by key. A timer is the task that waits for it.
pub record Inner (Fut : Type 0) : Type 0 where
  pub now : SimTime
  pub seq : ℕ
  pub queue : List Keyed
  pub tasks : Map (TaskSlot Fut)
  pub next_task_id : ℕ
  pub current_task : Option ℕ
  pub nodes : List ℕ
  pub factories : Map Fut
  pub crashed : List ℕ
  pub inboxes : Map (List (ℕ × Message))
  pub recv_waiters : Map (List ℕ)
  pub timers : Map ℕ
  pub next_timer_id : ℕ
  pub storage : Map PageStore
  pub faults : FaultConfig
  pub tape : EntropyTape
  pub rng_counter : Map ℕ
  pub last_local_now : Map SimTime
  pub config : WorldConfig
  pub seed : ℕ
  pub trace : List TraceLine
  pub nemesis_trace : List NemesisAction
  pub history : List HistoryLine
  pub dispatched : ℕ

-- `World::from_tape`.
unfoldable pub from_tape : {Fut : Type 0} → ℕ → WorldConfig → EntropyTape → Inner Fut
from_tape seed config tape = record {
  now = 0;
  seq = 0;
  queue = [];
  tasks = [];
  next_task_id = 0;
  current_task = none;
  nodes = [];
  factories = [];
  crashed = [];
  inboxes = [];
  recv_waiters = [];
  timers = [];
  next_timer_id = 0;
  storage = [];
  faults = no_faults;
  tape = tape;
  rng_counter = [];
  last_local_now = [];
  config = config;
  seed = seed;
  trace = [];
  nemesis_trace = [];
  history = [];
  dispatched = 0;
}
