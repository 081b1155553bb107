-- ===== src/TestKit/Suite/Policy.antt =====
-- What it means that a suite has no policy failures.
use detersim.Prelude.{
  ℕ, suc, ◌≤◌, ◌≡◌, refl, sym, ◌∙◌, true, ◌↔◌, ◌⊎◌, Option, none, some, List, [], ◌∷◌, map, filter,
  length, range, Option-cases, All, ◌==◌, arith, Bool-cases, inl, inr,
}
use detersim.World.Report.{RunReport}
use detersim.TestKit.{
  ExperimentCase, RecallResult, recalled, not_recalled, report_of, run_experiment_case, no_failures,
  try_seeds, nothing_found, recall, replay_report, shrunk_report, shrink_of, shows, differs,
}
use detersim.TestKit.Signature.{FailureSignature}
use detersim.TestKit.Search.{Passes, is_failing, try_seeds-IsFirst}
use detersim.TestKit.Recall.{IsRecalled, IsRecalled-excludes, Meaning, run_experiment_case-Meaning}
use detersim.TestKit.Suite.{
  RecallPolicy, must_recall, must_not_recall, informational, ExperimentSuite, Counters, no_counters,
  is_recalled, apply_policy, apply_policies, run_experiment_suite,
}

module _ (json_bytes html_bytes : RunReport → ℕ) where
  abbrev run : ExperimentCase → RecallResult
  run case = run_experiment_case json_bytes html_bytes case

  -- The case does what its policy asks.
  abbrev pub IsMet : ExperimentCase × RecallPolicy → Type 0
  IsMet (case, must_recall) = IsRecalled json_bytes html_bytes case (report_of (run case))
  IsMet (case, must_not_recall) =
      All (Passes json_bytes html_bytes case) (range 0 case.budget.seed_count)
  IsMet (case, informational) = Unit

  recall_failures :
      (case : ExperimentCase) (n seed : ℕ) (generated : RunReport) (signature : FailureSignature)
      → (report_of (recall json_bytes html_bytes case n seed generated signature)).failures_observed
        ≡ n
  unfolding recall replay_report shrunk_report
  recall_failures case n seed generated signature =
      let first =
        replay_report json_bytes html_bytes case n seed generated signature
          (case.replay seed generated.tape_log) in
      let s = shrink_of json_bytes html_bytes case seed generated signature in
      let matched =
        shows json_bytes html_bytes case signature (case.replay seed s.shrink.minimized) in
      elim (Bool-cases (differs json_bytes html_bytes case first)) [
        | inl different ↦ rw different refl
        | inr same ↦ elim (Bool-cases matched) [
          | inl fails ↦ rw (same, fails) refl
          | inr passes ↦ rw (same, passes) refl
        ]
      ]

  verdict_failures :
      (case : ExperimentCase) (o : Option (ℕ × RunReport × FailureSignature)) (n : ℕ)
      → (report_of (elim o [
        | none ↦ not_recalled (nothing_found json_bytes html_bytes case n)
        | some (seed, generated, signature) ↦
            recall json_bytes html_bytes case n seed generated signature
      ])).failures_observed
        ≡ n
  unfolding nothing_found
  verdict_failures case none n = refl
  verdict_failures case (some (seed, generated, signature)) n =
      recall_failures case n seed generated signature

  none_failing :
      (case : ExperimentCase) (seeds : List ℕ)
      → (length (filter (is_failing json_bytes html_bytes case) seeds) ≡ 0)
        ↔ All (Passes json_bytes html_bytes case) seeds
  none_failing case [] = (λ _. tt, λ _. refl)
  none_failing case (s ∷ seeds) = elim (Option-cases (case.oracle (case.generate s))) [
    | inl good ↦
        let later = none_failing case seeds in
        (λ h. (good, later.0 (rw good at h)), λ a. rw good (later.1 a.1))
    | inr (signature, bad) ↦
        (λ h. absurd (ground (arith, bad, h)), λ a. absurd (ground (arith, bad, a.0)))
  ]

  -- The report holds the number of failing seeds.
  failures_observed_lem :
      (case : ExperimentCase)
      → ((report_of (run case)).failures_observed ≡ 0)
        ↔ All (Passes json_bytes html_bytes case) (range 0 case.budget.seed_count)
  unfolding run_experiment_case
  failures_observed_lem case =
      let seeds = range 0 case.budget.seed_count in
      let f = try_seeds json_bytes html_bytes case seeds no_failures in
      let count =
        verdict_failures case f.first f.failures_observed
        ∙ (try_seeds-IsFirst json_bytes html_bytes case seeds).1 in
      let none_fails = none_failing case seeds in
      (λ h. none_fails.0 (sym count ∙ h), λ a. count ∙ none_fails.1 a)

  Meaning-is_recalled :
      (case : ExperimentCase) (result : RecallResult)
      → Meaning json_bytes html_bytes case result
      → (is_recalled result ≡ true) ↔ IsRecalled json_bytes html_bytes case (report_of result)
  Meaning-is_recalled case (recalled r) (flag, good) = (λ _. good, λ _. refl)
  Meaning-is_recalled case (not_recalled r) (flag, bad) = (
    λ h. absurd (ground (arith, h)),
    λ good. absurd (IsRecalled-excludes json_bytes html_bytes case r good bad),
  )

  apply_policy_cases :
      (entry : ExperimentCase × RecallPolicy) (c : Counters)
      → let d = apply_policy (run entry.0) entry.1 c in
        ((d.policy_failures ≡ c.policy_failures) × IsMet entry)
        ⊎ ((d.policy_failures ≡ suc c.policy_failures) × ¬ IsMet entry)
  unfolding apply_policy
  apply_policy_cases (case, must_recall) c =
      let iff =
        Meaning-is_recalled case (run case)
          (run_experiment_case-Meaning json_bytes html_bytes case) in
      elim (Bool-cases (is_recalled (run case))) [
        | inl good ↦ inl (rw good refl, iff.0 good)
        | inr bad ↦ inr (rw bad refl, λ met. absurd (ground (arith, iff.1 met, bad)))
      ]
  apply_policy_cases (case, must_not_recall) c =
      let iff = failures_observed_lem case in
      let failures = (report_of (run case)).failures_observed in
      elim (Bool-cases (failures == 0)) [
        | inl good ↦ inl (rw good refl, iff.0 (ground (arith, good)))
        | inr bad ↦ inr (rw bad refl, λ met. absurd (ground (arith, iff.1 met, bad)))
      ]
  apply_policy_cases (case, informational) c = inl (refl, tt)

  apply_policies_lem :
      (entries : List (ExperimentCase × RecallPolicy)) (c : Counters)
      → let d =
          apply_policies (map (λ entry. run entry.0) entries) (map (λ entry. entry.1) entries) c in
        (c.policy_failures ≤ d.policy_failures)
        × ((d.policy_failures ≡ c.policy_failures) ↔ All IsMet entries)
  unfolding apply_policies
  apply_policies_lem [] c = (omega arith, (λ _. tt, λ _. refl))
  apply_policies_lem (entry ∷ entries) c =
      let next = apply_policy (run entry.0) entry.1 c in
      let (grows, iff) = apply_policies_lem entries next in
      elim (apply_policy_cases entry c) [
        | inl (same, met) ↦ (
          omega (arith, grows, same),
          (λ e. (met, iff.0 (omega (arith, e, same))), λ a. iff.1 a.1 ∙ same),
        )
        | inr (more, broken) ↦ (
          omega (arith, grows, more),
          (λ e. absurd (omega (arith, e, grows, more)), λ a. absurd (broken a.0)),
        )
      ]

  -- A suite has no policy failures just when every case that must be recalled is recalled, and no
  -- seed of a case that must not be recalled fails.
  pub run_experiment_suite-IsMet :
      (suite : ExperimentSuite)
      → ((run_experiment_suite json_bytes html_bytes suite).policy_failures ≡ 0)
        ↔ All IsMet suite.cases
  unfolding run_experiment_suite
  run_experiment_suite-IsMet suite = (apply_policies_lem suite.cases no_counters).1
