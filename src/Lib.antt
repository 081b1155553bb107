-- ===== src/Lib.antt =====
-- detersim, a deterministic simulation runtime for distributed systems, and its tools.
--
-- The program runs a system under test on one priority queue of events. All randomness of the
-- simulator comes from an entropy tape, so a run can be replayed from the tape's log and made
-- smaller by a shrinker; fault plans schedule crashes, partitions and storage faults; the client
-- histories of a run are checked against sequential models.
--
--   Prelude: the shared names, Boolean tests, lists, maps and sets over the native numbers, integers,
--     equality as an interface, subsequences, the stable sort.
--   Rng, Time: crates/detersim-core/src/rng.rs and time.rs. A u64 is a number below 2 ^ 64, its
--     wrap-around written out.
--   Tape: crates/detersim-sim/src/tape.rs, EntropyTape with both modes.
--   Storage: PageStore of crates/detersim-sim/src/lib.rs, a device with an explicit flush.
--   World: Inner and World of crates/detersim-sim/src/lib.rs. World.antt is the state; World/Events
--     the queue, tasks, timers and draws; World/Clock the skewed clocks; World/Faults apply_nemesis,
--     crashes and restarts; World/Dispatch the loop pop_until_poll and run; World/Handles what a node
--     does to the world (send, recv, sleep, storage), World/Joins spawned tasks and their handles,
--     World/Setup the constructors, the setters and the schedule of faults.
--   Nemesis: crates/detersim-nemesis/src/lib.rs: Nemesis/Connectivity the matrix of links,
--     Nemesis/View the snapshot, Nemesis/Plans the four fault plans.
--   Stream: crates/detersim-net/src/lib.rs, the ordered-frame stream.
--   Shrink: crates/detersim-shrink/src/lib.rs, with Shrink/Labels the label-aware shrinker and
--     Shrink/Signature the signature-preserving one.
--   SeedSearch: crates/detersim-search/src/lib.rs, run_search with its strategies, and
--     SeedSearch/Compare their comparison on a case and on a suite of the test kit.
--   Text: text as the program's format!, split, join and parse see it, lists of character codes.
--   World/Report: RunReport, the text of its lines and semantic_coverage; World/Replay what it takes
--     for a step of the simulator to be reproduced from the log of the tape.
--   Protocols: crates/detersim-protocols/src: Protocols/History is history.rs, history lines and their
--     parsers; Protocols/PrimaryBackup is primary_backup_kv.rs, its nodes as machines that receive, and
--     Protocols/PrimaryBackup/Network the network between them as a step relation.
--   TestKit: crates/detersim-testkit/src/lib.rs: TestKit.antt an experiment case, TestKit/Suite suites
--     and policies, TestKit/Replays the assertions, TestKit/Signature the failure signatures.
--   Check: crates/detersim-check/src/lib.rs: Check/Precedence the real-time order,
--     Check/Linearizability the search and its verdicts, Check/Serializability the same for
--     transactions, Check/Search what both share, Check/Models the sequential models, Check/Space
--     what a legal order is, apart from the code, Check/Artifacts the artifacts and their JSON.
--   Examples: tests, and the theorems at concrete inputs.
--
-- The parts meet in World: its faults hold a ConnectivityMatrix, its nodes PageStores, its draws
-- go to an EntropyTape, and its actions come from the Nemesis plans. Handlers are functions from
-- state to state; a panic is none, or a constructor of its own. BTreeMap and BTreeSet are sorted
-- lists, and so is the event queue. Lines of traces, histories and transcripts are data in the state,
-- and text in a run report. The test kit runs, replays and shrinks worlds through their reports.
--
-- Parameters stand for code outside the repository: the futures of the system under test are a type
-- with a poll function, the failure predicate of the shrinker and the classifier are functions, the
-- entropy of a plan is a draw function over a source, and an experiment case gives its own runs. The
-- test kit takes the rendering of artifacts, which crates/detersim-viz does, as functions of a report.
--
-- Bounds: every loop that is not structural runs on fuel. Where the program's loop has no bound of
-- its own, the fuel is computed from the state and the theorems named _fuel show that more of it
-- changes nothing: the event loop takes one turn for each event, timer and waiter; the shrinker one
-- for each attempt left and each halving; the minimization of a history one for each operation; the
-- drain of a stream one for each buffered frame. The search of the checker has one level for each
-- operation. A whole run takes its number of polls as an argument, as a system under test may
-- never come to rest. Sums of
-- delays and of byte offsets are not cut at 2 ^ 64: an extra delay below u64::MAX milliseconds, delays
-- whose sum fits a u64 and writes whose end fits a usize are taken for granted.
--
-- Not modelled: the JSON of reports, the HTML, floating-point numbers, mini_raft and the clients of the
-- protocols, which are example systems under test, and the command line.
pub mod Prelude
pub mod Text
pub mod Rng
pub mod Time
pub mod Tape
pub mod Storage
pub mod Nemesis
pub mod Stream
pub mod TestKit
pub mod SeedSearch
pub mod Shrink
pub mod Check
pub mod Protocols
pub mod World
pub mod Examples
