-- ===== src/TestKit.antt =====
-- crates/detersim-testkit/src/lib.rs: experiment cases, which look for a failure, replay it and
-- shrink it. The functions of a case are parameters, and so are the sizes of the artifacts that
-- crates/detersim-viz writes. Ratios, which are floating-point numbers, are left out.
pub mod Signature
pub mod Search
pub mod Recall
pub mod Suite
pub mod Replays
use Prim.Native.String.{String}
use detersim.Prelude.{
  ℕ, suc, Bool, true, false, not, ◌||◌, Option, none, some, List, [], ◌∷◌, map, length, range,
  same_option, if◌then◌else◌,
}
use detersim.Tape.{as_str}
use detersim.Text.{Text, join, same_text, same_texts}
use detersim.World.Report.{RunReport}
use detersim.Shrink.{ShrinkConfig}
use detersim.Shrink.Removed.{RemovedLabel, LabelAwareShrinkReport, label_aware_report}
use detersim.TestKit.Signature.{FailureSignature, signature_eq}

pub record ExperimentBudget : Type 0 where
  pub seed_count : ℕ
  pub shrink : ShrinkConfig

pub record ExperimentCase : Type 0 where
  pub name : Text
  pub budget : ExperimentBudget
  pub generate : ℕ → RunReport
  pub replay : ℕ → List ℕ → RunReport
  pub oracle : RunReport → Option FailureSignature

pub record ExperimentReport : Type 0 where
  pub name : Text
  pub seeds_attempted : ℕ
  pub first_failing_seed : Option ℕ
  pub failures_observed : ℕ
  pub recalled : Bool
  pub failure_signature : Option FailureSignature
  pub original_tape_len : Option ℕ
  pub minimized_tape_len : Option ℕ
  pub shrink_attempts : Option ℕ
  pub accepted_removals : Option ℕ
  pub removed_labels : List RemovedLabel
  pub artifact_json_bytes : Option ℕ
  pub artifact_html_bytes : Option ℕ
  pub replay_tape_input_len : Option ℕ
  pub replay_tape_cursor : Option ℕ
  pub replay_tape_consumed_all : Option Bool
  pub replay_tape_exhausted : Option Bool
  pub replay_trace_identical : Bool
  pub replay_history_identical : Bool
  pub replay_nemesis_identical : Bool
  pub replay_byte_identical : Bool
  pub replay_matched_signature : Bool
  pub minimized_matched_signature : Bool

pub data RecallResult : Type 0 where
  recalled : (report : ExperimentReport) → RecallResult
  not_recalled : (report : ExperimentReport) → RecallResult

abbrev pub report_of : RecallResult → ExperimentReport
report_of (recalled report) = report
report_of (not_recalled report) = report

-- The first failure, with its seed and its signature, and the number of failures.
pub record Failures : Type 0 where
  pub first : Option (ℕ × RunReport × FailureSignature)
  pub failures_observed : ℕ

abbrev pub or_else {ℓ} : {A : Type ℓ} → Option A → A → Option A
or_else none a = some a
or_else (some b) a = some b

abbrev pub no_failures : Failures
no_failures = record { first = none; failures_observed = 0 }

module _ (json_bytes html_bytes : RunReport → ℕ) (case : ExperimentCase) where
  -- One turn of the loop over the seeds.
  unfoldable pub try_seed : ℕ → Failures → Failures
  try_seed seed f = elim (case.oracle (case.generate seed)) [
    | none ↦ f
    | some signature ↦ record {
      first = or_else f.first (seed, case.generate seed, signature);
      failures_observed = suc f.failures_observed;
    }
  ]

  unfoldable pub try_seeds : List ℕ → Failures → Failures
  try_seeds [] f = f
  try_seeds (seed ∷ seeds) f = try_seeds seeds (try_seed seed f)

  -- The report of a case without failures.
  unfoldable pub nothing_found : ℕ → ExperimentReport
  nothing_found failures_observed = record {
    name = case.name;
    seeds_attempted = case.budget.seed_count;
    first_failing_seed = none;
    failures_observed = failures_observed;
    recalled = false;
    failure_signature = none;
    original_tape_len = none;
    minimized_tape_len = none;
    shrink_attempts = none;
    accepted_removals = none;
    removed_labels = [];
    artifact_json_bytes = none;
    artifact_html_bytes = none;
    replay_tape_input_len = none;
    replay_tape_cursor = none;
    replay_tape_consumed_all = none;
    replay_tape_exhausted = none;
    replay_trace_identical = false;
    replay_history_identical = false;
    replay_nemesis_identical = false;
    replay_byte_identical = false;
    replay_matched_signature = false;
    minimized_matched_signature = false;
  }

  -- Whether a report shows the signature.
  abbrev pub shows : FailureSignature → RunReport → Bool
  shows signature report = same_option (case.oracle report) (some signature)

  -- The report on a failure and its replay, before it is shrunk.
  unfoldable pub replay_report : ℕ → ℕ → RunReport → FailureSignature → RunReport → ExperimentReport
  replay_report failures_observed seed generated signature replayed = record {
    name = case.name;
    seeds_attempted = case.budget.seed_count;
    first_failing_seed = some seed;
    failures_observed = failures_observed;
    recalled = false;
    failure_signature = some signature;
    original_tape_len = some (length generated.tape_log);
    minimized_tape_len = none;
    shrink_attempts = none;
    accepted_removals = none;
    removed_labels = [];
    artifact_json_bytes = none;
    artifact_html_bytes = none;
    replay_tape_input_len = replayed.tape_input_len;
    replay_tape_cursor = some replayed.tape_cursor;
    replay_tape_consumed_all = some replayed.tape_consumed_all;
    replay_tape_exhausted = some replayed.tape_exhausted;
    replay_trace_identical = same_texts generated.trace replayed.trace;
    replay_history_identical = same_texts generated.history replayed.history;
    replay_nemesis_identical = same_texts generated.nemesis_trace replayed.nemesis_trace;
    replay_byte_identical = same_text (join b'\n' generated.trace) (join b'\n' replayed.trace);
    replay_matched_signature = shows signature replayed;
    minimized_matched_signature = false;
  }

  -- The replay differs from the run, or fails in another way.
  abbrev pub differs : ExperimentReport → Bool
  differs r =
      not r.replay_matched_signature
      || not r.replay_trace_identical
      || not r.replay_history_identical
      || not r.replay_nemesis_identical
      || not r.replay_byte_identical

  abbrev pub shrink_of : ℕ → RunReport → FailureSignature → LabelAwareShrinkReport
  shrink_of seed generated signature =
      label_aware_report (map (λ event. as_str event.label) generated.tape_events)
        (λ candidate. shows signature (case.replay seed candidate)) case.budget.shrink
        generated.tape_log

  -- The report completed after shrinking.
  unfoldable pub shrunk_report :
      LabelAwareShrinkReport → RunReport → Bool → ExperimentReport → ExperimentReport
  shrunk_report s minimized matched r = record r {
    minimized_tape_len = some (length s.shrink.minimized);
    shrink_attempts = some s.shrink.attempts;
    accepted_removals = some s.shrink.accepted_removals;
    removed_labels = s.removed_labels;
    artifact_json_bytes = some (json_bytes minimized);
    artifact_html_bytes = some (html_bytes minimized);
    minimized_matched_signature = matched;
    recalled = matched;
  }

  unfoldable pub recall : ℕ → ℕ → RunReport → FailureSignature → RecallResult
  unfolding replay_report shrunk_report
  recall failures_observed seed generated signature =
      let replayed = case.replay seed generated.tape_log in
      let r = replay_report failures_observed seed generated signature replayed in
      let s = shrink_of seed generated signature in
      let minimized = case.replay seed s.shrink.minimized in
      let matched = shows signature minimized in
      let done = shrunk_report s minimized matched r in
      if differs r then not_recalled r else if matched then recalled done else not_recalled done

  unfoldable pub run_experiment_case : RecallResult
  unfolding try_seeds try_seed nothing_found recall
  run_experiment_case =
      let f = try_seeds (range 0 case.budget.seed_count) no_failures in
      elim f.first [
        | none ↦ not_recalled (nothing_found f.failures_observed)
        | some (seed, generated, signature) ↦ recall f.failures_observed seed generated signature
      ]
