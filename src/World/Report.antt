-- ===== src/World/Report.antt =====
-- The text of trace and history lines, the semantic coverage of a run, and `RunReport`.
pub mod Outcome
use Prim.Native.String.{String}
use detersim.Prelude.{
  ℕ, Bool, true, false, not, ◌&&◌, ◌||◌, Option, none, some, List, [], ◌∷◌, ◌++◌, map, filter_map,
  length, ltb, leb, ◌==◌, if◌then◌else◌, ◌>>=◌, ℤ,
}
use detersim.Tape.{TapeEvent, TapeDiagnostics, as_str, log, events, diagnostics}
use detersim.Text.{Text, codes, show_ℕ, show_ℤ}
use detersim.Text.Search.{
  split_once, contains_text, strip_prefix, first_word, is_alphanumeric, is_space, pad_left,
  insert_text, insert_texts,
}
use detersim.Nemesis.{NemesisAction}
use detersim.World.{
  EventKind, Keyed, Inner, Message, TraceLine, DropKind, HistoryLine, RestartOutcome, poll_task,
  timer_fire, deliver_msg, nemesis, unregistered, crashed_end, partitioned, random_drop,
  send_from_crashed, dropped, rendered, recorded, restart_line, restarted, node_missing,
  node_not_crashed, missing_factory,
}

pub record RunReport : Type 0 where
  pub seed : ℕ
  pub trace : List Text
  pub nemesis_trace : List Text
  pub history : List Text
  pub coverage_signals : List Text
  pub tape_log : List ℕ
  pub tape_events : List TapeEvent
  pub tape_replaying : Bool
  pub tape_input_len : Option ℕ
  pub tape_cursor : ℕ
  pub tape_consumed_all : Bool
  pub tape_exhausted : Bool
  pub dispatched : ℕ
  pub aborted : Bool
  pub deadlocked : Bool
  pub parked_tasks : ℕ
  pub tape_log_len : ℕ

-- The derived `Debug` of the actions.
abbrev comma_list : List Text → Text
comma_list [] = []
comma_list (t ∷ []) = t
comma_list (t ∷ u ∷ ts) = t ++ (codes ", " ++ comma_list (u ∷ ts))

abbrev bracketed : List Text → Text
bracketed ts = codes "[" ++ (comma_list ts ++ codes "]")

abbrev of_node : String → ℕ → Text
of_node name node = codes name ++ (codes " { node: " ++ (show_ℕ node ++ codes " }"))

abbrev of_link : String → ℕ → ℕ → Text
of_link name from to =
    codes name ++ (codes " { from: " ++ (show_ℕ from ++ (codes ", to: " ++ show_ℕ to)))

unfoldable pub debug_action : NemesisAction → Text
debug_action (NemesisAction.partition groups) =
    codes "Partition { groups: "
    ++ (bracketed (map (λ group. bracketed (map show_ℕ group)) groups) ++ codes " }")
debug_action (NemesisAction.asymmetric_partition from to) =
    of_link "AsymmetricPartition" from to ++ codes " }"
debug_action (NemesisAction.set_link from to up) =
    of_link "SetLink" from to
    ++ (codes ", up: " ++ (codes (if up then "true" else "false") ++ codes " }"))
debug_action NemesisAction.heal_all = codes "HealAll"
debug_action (NemesisAction.crash node) = of_node "Crash" node
debug_action (NemesisAction.restart node) = of_node "Restart" node
debug_action (NemesisAction.clock_skew node offset_ns) =
    codes "ClockSkew { node: "
    ++ (show_ℕ node ++ (codes ", offset_ns: " ++ (show_ℤ offset_ns ++ codes " }")))
debug_action (NemesisAction.bit_rot node) = of_node "BitRot" node
debug_action (NemesisAction.torn_write node) = of_node "TornWrite" node
debug_action (NemesisAction.lost_on_crash node) = of_node "LostOnCrash" node
debug_action (NemesisAction.pre_fsync_reorder node) = of_node "PreFsyncReorder" node

-- `[t={time:>10} #{seq:>6}] `.
abbrev stamp : ℕ → ℕ → Text
stamp time seq =
    codes "[t="
    ++ (pad_left 10 (show_ℕ time) ++ (codes " #" ++ (pad_left 6 (show_ℕ seq) ++ codes "] ")))

abbrev pub edge : ℕ → ℕ → Text
edge from to = show_ℕ from ++ (codes "->" ++ show_ℕ to)

abbrev drop_name : DropKind → String
drop_name unregistered = "drop-unregistered "
drop_name crashed_end = "drop-crashed "
drop_name partitioned = "drop-partition "
drop_name random_drop = "drop-random "

unfoldable pub format_restart_outcome : RestartOutcome → Text
format_restart_outcome (restarted node) = codes "restart:" ++ (show_ℕ node ++ codes ":restarted")
format_restart_outcome (node_missing node) =
    codes "restart:" ++ (show_ℕ node ++ codes ":node-missing")
format_restart_outcome (node_not_crashed node) =
    codes "restart:" ++ (show_ℕ node ++ codes ":node-not-crashed")
format_restart_outcome (missing_factory node) =
    codes "restart:" ++ (show_ℕ node ++ codes ":missing-factory")

unfoldable pub history_text : HistoryLine → Text
unfolding format_restart_outcome
history_text (recorded text) = codes text
history_text (restart_line outcome) = format_restart_outcome outcome

unfoldable pub trace_edge : Text → Option Text
trace_edge line =
    split_once (codes "deliver ") line >>= λ parts. first_word (λ c. not (is_space c)) parts.1

unfoldable pub trace_drop_kind : Text → Option Text
trace_drop_kind line = split_once (codes "] ") line >>= λ parts.
    first_word (λ c. not (is_space c)) parts.1 >>= strip_prefix (codes "drop-")

abbrev named : String → Option Text → List Text
named prefix none = []
named prefix (some name) = (codes prefix ++ name) ∷ []

abbrev noted : Bool → String → List Text
noted true signal = codes signal ∷ []
noted false signal = []

-- The signals of one trace line.
unfoldable pub line_signals : Text → List Text
unfolding trace_edge trace_drop_kind
line_signals line =
    named "message-edge:" (trace_edge line)
    ++ (named "network:" (trace_drop_kind line)
        ++ (noted (contains_text (codes "timer fire=") line) "timer:fire"
            ++ (noted (contains_text (codes "poll task=") line) "task:poll"
                ++ noted (contains_text (codes " nemesis ") line) "nemesis:event")))

unfoldable pub nemesis_signal : Text → Option Text
nemesis_signal entry = first_word (λ c. is_alphanumeric c || (c == b'_')) entry >>= λ kind.
    some (codes "nemesis:" ++ kind)

unfoldable pub history_signal : Text → Text
history_signal entry = elim (split_once (codes ":") entry) [
  | some (kind, rest) ↦ codes "history:" ++ kind
  | none ↦ codes "history:" ++ entry
]

abbrev pub tape_signal : TapeEvent → Text
tape_signal event = codes "tape:" ++ codes (as_str event.label)

abbrev pub all_lines : List Text → List Text
all_lines [] = []
all_lines (line ∷ lines) = line_signals line ++ all_lines lines

abbrev pub is_nil {ℓ} : {A : Type ℓ} → List A → Bool
is_nil [] = true
is_nil (a ∷ rest) = false

-- `{:?}` of the text of a message is a parameter, as it depends on tables of the standard library.
module _ (debug_message : Message → Text) where
  unfoldable pub render : Keyed → EventKind → Text
  unfolding debug_action
  render event (poll_task task) = stamp event.time event.seq ++ (codes "poll task=" ++ show_ℕ task)
  render event (timer_fire timer) =
      stamp event.time event.seq ++ (codes "timer fire=" ++ show_ℕ timer)
  render event (deliver_msg from to msg) =
      stamp event.time event.seq
      ++ (codes "deliver " ++ (edge from to ++ (codes " " ++ debug_message msg)))
  render event (nemesis action) =
      stamp event.time event.seq ++ (codes "nemesis " ++ debug_action action)

  unfoldable pub trace_text : TraceLine → Text
  unfolding render
  trace_text (send_from_crashed from to) = codes "send-from-crashed:" ++ edge from to
  trace_text (dropped why time seq from to) =
      stamp time seq ++ (codes (drop_name why) ++ edge from to)
  trace_text (rendered event) = render event event.kind

  module _ {Fut : Type 0} where
    abbrev pub is_aborted : Inner Fut → Bool
    is_aborted g = leb g.config.max_events g.dispatched || ltb g.config.horizon_ns g.now

    abbrev pub is_deadlocked : Inner Fut → Bool
    is_deadlocked g = is_nil g.queue && not (is_nil g.tasks)

    unfoldable pub outcome_signal : Inner Fut → Text
    outcome_signal g =
        if is_aborted g
        then codes "outcome:aborted"
        else if is_deadlocked g
        then codes "outcome:deadlocked"
        else codes "outcome:quiesced"

    unfoldable pub semantic_coverage : Inner Fut → List Text
    unfolding trace_text line_signals nemesis_signal history_signal outcome_signal history_text
    semantic_coverage g =
        let s1 = insert_text (outcome_signal g) [] in
        let s2 = insert_texts (map tape_signal (events g.tape)) s1 in
        let s3 = insert_texts (filter_map nemesis_signal (map debug_action g.nemesis_trace)) s2 in
        let s4 = insert_texts (map history_signal (map history_text g.history)) s3 in
        insert_texts (all_lines (map trace_text g.trace)) s4

    -- The end of `World::run`.
    unfoldable pub run_report : Inner Fut → RunReport
    unfolding semantic_coverage
    run_report g =
        let tape = diagnostics g.tape in
        record {
          seed = g.seed;
          trace = map trace_text g.trace;
          nemesis_trace = map debug_action g.nemesis_trace;
          history = map history_text g.history;
          coverage_signals = semantic_coverage g;
          tape_log = log g.tape;
          tape_events = events g.tape;
          tape_replaying = tape.is_replaying;
          tape_input_len = tape.input_len;
          tape_cursor = tape.cursor;
          tape_consumed_all = tape.consumed_all;
          tape_exhausted = tape.exhausted;
          dispatched = g.dispatched;
          aborted = is_aborted g;
          deadlocked = is_deadlocked g;
          parked_tasks = length g.tasks;
          tape_log_len = length (log g.tape);
        }
