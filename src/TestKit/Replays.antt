-- ===== src/TestKit/Replays.antt =====
-- The assertions of the test kit: a run that panics is `none`.
pub mod Simulated
pub mod Shrinks
use Prim.Native.String.{String}
use detersim.Prelude.{
  ℕ, ◌≡◌, ◌↔◌, ◌∙◌, sym, ap, refl, Bool, true, false, not, ◌&&◌, Option, none, some, List, [], ◌∷◌,
  map, length, range, all, Eq, nat_eq, same_option, ◌==◌, if◌then◌else◌, arith,
}
use detersim.Tape.{
  TapeLabel, TapeEvent, net_delay, drop_decision, duplicate_decision, extra_delay, crash_point,
  partition, restart, clock_skew, jitter, nemesis, other, as_str,
}
use detersim.Text.{Text, join, same_text, same_texts}
use detersim.Shrink.{ShrinkConfig, ShrinkReport}
use detersim.Shrink.Removed.{RemovedLabel, label_aware_report}
use detersim.Check.Linearizability.{LinearizabilityResult}
use detersim.World.Report.{RunReport}
use detersim.TestKit.{
  ExperimentCase, ExperimentReport, RecallResult, recalled, not_recalled, run_experiment_case,
}
use detersim.TestKit.Signature.{FailureSignature}

-- The derived equality of labels, by the place of the constructor.
abbrev pub label_rank : TapeLabel → ℕ
label_rank net_delay = 0
label_rank drop_decision = 1
label_rank duplicate_decision = 2
label_rank extra_delay = 3
label_rank crash_point = 4
label_rank partition = 5
label_rank restart = 6
label_rank clock_skew = 7
label_rank jitter = 8
label_rank nemesis = 9
label_rank other = 10

abbrev pub same_event : TapeEvent → TapeEvent → Bool
same_event a b =
    (a.index == b.index) && (label_rank a.label == label_rank b.label) && (a.value == b.value)

abbrev pub same_events : List TapeEvent → List TapeEvent → Bool
same_events [] [] = true
same_events [] (b ∷ bs) = false
same_events (a ∷ as') [] = false
same_events (a ∷ as') (b ∷ bs) = same_event a b && same_events as' bs

unfoldable pub assert_reports_equal : RunReport → RunReport → Bool
assert_reports_equal a b =
    same_texts a.trace b.trace
    && same_text (join b'\n' a.trace) (join b'\n' b.trace)
    && same_texts a.history b.history
    && same_texts a.nemesis_trace b.nemesis_trace
    && same_texts a.coverage_signals b.coverage_signals
    && same_events a.tape_events b.tape_events

unfoldable pub assert_deterministic : (ℕ → RunReport) → ℕ → Option RunReport
unfolding assert_reports_equal
assert_deterministic run seed =
    if assert_reports_equal (run seed) (run seed) then some (run seed) else none

unfoldable pub assert_replay_identical :
    (ℕ → RunReport) → (ℕ → List ℕ → RunReport) → ℕ → Option (RunReport × RunReport)
unfolding assert_reports_equal
assert_replay_identical generate replay seed =
    let generated = generate seed in
    let replayed = replay seed generated.tape_log in
    if replayed.tape_replaying
      && same_option replayed.tape_input_len (some (length generated.tape_log))
      && replayed.tape_consumed_all
      && not replayed.tape_exhausted
      && assert_reports_equal generated replayed
    then some (generated, replayed)
    else none

pub record FailureDebugArtifact : Type 0 where
  pub seed : ℕ
  pub generated : RunReport
  pub minimized_replay : RunReport
  pub shrink : ShrinkReport
  pub removed_labels : List RemovedLabel
  pub minimized_json : Text
  pub minimized_html : Text

module _ (run_report_to_json timeline_html : RunReport → Text) (generate : ℕ → RunReport)
    (replay : ℕ → List ℕ → RunReport) (still_fails : RunReport → Bool) where
  unfoldable pub shrink_replay_failure : ℕ → ShrinkConfig → Option FailureDebugArtifact
  shrink_replay_failure seed config =
      let generated = generate seed in
      let original_replay = replay seed generated.tape_log in
      let labels = map (λ event. as_str event.label) generated.tape_events in
      let s =
        label_aware_report labels (λ candidate. still_fails (replay seed candidate)) config
          generated.tape_log in
      let minimized_replay = replay seed s.shrink.minimized in
      let artifact : FailureDebugArtifact = record {
        seed = seed;
        generated = generated;
        minimized_replay = minimized_replay;
        shrink = s.shrink;
        removed_labels = s.removed_labels;
        minimized_json = run_report_to_json minimized_replay;
        minimized_html = timeline_html minimized_replay;
      } in
      if not (still_fails generated)
      then none
      else if not (still_fails original_replay)
      then none
      else if not s.shrink.reproduced
      then none
      else if not (still_fails minimized_replay)
      then none
      else some artifact

unfoldable pub linearizability_signature : Text → LinearizabilityResult → Option FailureSignature
linearizability_signature model
      (LinearizabilityResult.not_linearizable conflict minimal_subhistory explored_states
        budget_exhausted) =
    some (FailureSignature.not_linearizable conflict model)
linearizability_signature model _ = none

unfoldable pub assert_recall :
    (RunReport → ℕ) → (RunReport → ℕ) → ExperimentCase → Option ExperimentReport
assert_recall json_bytes html_bytes case = elim (run_experiment_case json_bytes html_bytes case) [
  | recalled report ↦ some report
  | not_recalled report ↦ none
]
