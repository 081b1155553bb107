-- ===== src/TestKit/Suite.antt =====
-- Suites of experiment cases, their policies and the summary over their results, without the
-- averages, which are floating-point numbers.
pub mod Policy
use detersim.Prelude.{
  ℕ, zero, suc, ◌+◌, ◌-◌, min, max, Bool, true, false, not, Option, none, some, List, [], ◌∷◌, map,
  filter, filter_map, length, ◌==◌, if◌then◌else◌,
}
use detersim.Text.{Text}
use detersim.World.Report.{RunReport}
use detersim.TestKit.{
  ExperimentCase, ExperimentReport, RecallResult, recalled, not_recalled, report_of,
  run_experiment_case,
}
use detersim.TestKit.Signature.{FailureSignature, same_signature, signature_lt}

pub data RecallPolicy : Type 0 where
  must_recall : RecallPolicy
  must_not_recall : RecallPolicy
  informational : RecallPolicy

pub record ExperimentSuite : Type 0 where
  pub name : Text
  pub cases : List (ExperimentCase × RecallPolicy)

pub record ExperimentArtifact : Type 0 where
  pub case_name : Text
  pub seed : Option ℕ
  pub json_bytes : Option ℕ
  pub html_bytes : Option ℕ
  pub signature : Option FailureSignature

pub record ExperimentMatrixReport : Type 0 where
  pub total_cases : ℕ
  pub recalled_cases : ℕ
  pub failed_cases : ℕ
  pub min_original_tape_len : Option ℕ
  pub max_original_tape_len : Option ℕ
  pub min_minimized_tape_len : Option ℕ
  pub max_minimized_tape_len : Option ℕ
  pub signatures : List (FailureSignature × ℕ)

pub record ExperimentSummary : Type 0 where
  pub name : Text
  pub total_cases : ℕ
  pub required_recalled : ℕ
  pub required_not_recalled : ℕ
  pub policy_failures : ℕ
  pub matrix : ExperimentMatrixReport
  pub artifacts : List ExperimentArtifact
  pub results : List RecallResult

abbrev pub is_recalled : RecallResult → Bool
is_recalled (recalled report) = true
is_recalled (not_recalled report) = false

-- `Iterator::min` and `Iterator::max`.
abbrev min_of : List ℕ → Option ℕ
min_of [] = none
min_of (n ∷ ns) = elim (min_of ns) [ none ↦ some n | some m ↦ some (min n m) ]

abbrev max_of : List ℕ → Option ℕ
max_of [] = none
max_of (n ∷ ns) = elim (max_of ns) [ none ↦ some n | some m ↦ some (max n m) ]

-- `*signatures.entry(signature).or_insert(0) += 1` on an ordered map.
unfoldable pub count_signature :
    FailureSignature → List (FailureSignature × ℕ) → List (FailureSignature × ℕ)
count_signature s [] = (s, 1) ∷ []
count_signature s ((t, n) ∷ counts) =
    let rest = count_signature s counts in
    if same_signature s t
    then (t, suc n) ∷ counts
    else if signature_lt s t
    then (s, 1) ∷ (t, n) ∷ counts
    else (t, n) ∷ rest

unfoldable pub count_signatures :
    List RecallResult → List (FailureSignature × ℕ) → List (FailureSignature × ℕ)
count_signatures [] counts = counts
count_signatures (result ∷ results) counts = elim ((report_of result).failure_signature) [
  | none ↦ count_signatures results counts
  | some signature ↦ count_signatures results (count_signature signature counts)
]

unfoldable pub summarize_experiment_matrix : List RecallResult → ExperimentMatrixReport
unfolding count_signatures count_signature
summarize_experiment_matrix results =
    let total_cases = length results in
    let recalled_cases = length (filter is_recalled results) in
    let original_lengths = filter_map (λ result. (report_of result).original_tape_len) results in
    let minimized_lengths = filter_map (λ result. (report_of result).minimized_tape_len) results in
    record {
      total_cases = total_cases;
      recalled_cases = recalled_cases;
      failed_cases = total_cases - recalled_cases;
      min_original_tape_len = min_of original_lengths;
      max_original_tape_len = max_of original_lengths;
      min_minimized_tape_len = min_of minimized_lengths;
      max_minimized_tape_len = max_of minimized_lengths;
      signatures = count_signatures results [];
    }

-- The counters of the loop over the results.
pub record Counters : Type 0 where
  pub required_recalled : ℕ
  pub required_not_recalled : ℕ
  pub policy_failures : ℕ

abbrev pub no_counters : Counters
no_counters = record { required_recalled = 0; required_not_recalled = 0; policy_failures = 0 }

unfoldable pub apply_policy : RecallResult → RecallPolicy → Counters → Counters
apply_policy result must_recall c = record c {
  required_recalled = suc c.required_recalled;
  policy_failures = if not (is_recalled result) then suc c.policy_failures else c.policy_failures;
}
apply_policy result must_not_recall c = record c {
  required_not_recalled = suc c.required_not_recalled;
  policy_failures =
      if not ((report_of result).failures_observed == 0)
      then suc c.policy_failures
      else c.policy_failures;
}
apply_policy result informational c = c

unfoldable pub apply_policies : List RecallResult → List RecallPolicy → Counters → Counters
apply_policies [] policies c = c
apply_policies (result ∷ results) [] c = c
apply_policies (result ∷ results) (policy ∷ policies) c =
    apply_policies results policies (apply_policy result policy c)

unfoldable pub artifact_of : RecallResult → ExperimentArtifact
artifact_of result =
    let report = report_of result in
    record {
      case_name = report.name;
      seed = report.first_failing_seed;
      json_bytes = report.artifact_json_bytes;
      html_bytes = report.artifact_html_bytes;
      signature = report.failure_signature;
    }

module _ (json_bytes html_bytes : RunReport → ℕ) where
  unfoldable pub run_experiment_matrix : List ExperimentCase → List RecallResult
  run_experiment_matrix cases = map (run_experiment_case json_bytes html_bytes) cases

  unfoldable pub run_experiment_suite : ExperimentSuite → ExperimentSummary
  unfolding summarize_experiment_matrix apply_policies apply_policy artifact_of
  run_experiment_suite suite =
      let results = map (λ entry. run_experiment_case json_bytes html_bytes entry.0) suite.cases in
      let policies = map (λ entry. entry.1) suite.cases in
      let c = apply_policies results policies no_counters in
      record {
        name = suite.name;
        total_cases = length results;
        required_recalled = c.required_recalled;
        required_not_recalled = c.required_not_recalled;
        policy_failures = c.policy_failures;
        matrix = summarize_experiment_matrix results;
        artifacts = map artifact_of results;
        results = results;
      }
