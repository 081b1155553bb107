-- ===== src/TestKit/Recall.antt =====
-- What the verdict on an experiment case means.
use Prim.Native.String.{String}
use detersim.Prelude.{
  ℕ, ◌≡◌, refl, sym, subst₂, ap, Bool, true, false, not, ◌||◌, ◌⊎◌, ◌↔◌, inl, inr, Option, none,
  some, List, map, length, range, get_or, All, same_option, same_option→eq, eq→same_option, arith,
  Bool-cases,
}
use detersim.Prelude.Subseq.{Subseq}
use detersim.Tape.{as_str}
use detersim.Text.{join, same_text, same_text_iff, same_texts, same_texts_iff}
use detersim.World.Report.{RunReport}
use detersim.Shrink.Labels.{shrink_tape_label_aware_report}
use detersim.Shrink.Removed.{LabelAwareShrinkReport, label_aware_report}
use detersim.TestKit.{
  ExperimentCase, ExperimentReport, RecallResult, recalled, not_recalled, no_failures, try_seeds,
  replay_report, shrunk_report, shows, differs, shrink_of, recall, run_experiment_case,
  nothing_found,
}
use detersim.TestKit.Signature.{FailureSignature, signature_eq}
use detersim.TestKit.Search.{IsFirst, Passes, try_seeds-IsFirst}

module _ (json_bytes html_bytes : RunReport → ℕ) (case : ExperimentCase) where
  -- The replay of a seed's tape shows the same failure and records the same run.
  pub record IsFaithful (seed : ℕ) (signature : FailureSignature) : Type 0 where
    pub fails_so : case.oracle (case.replay seed (case.generate seed).tape_log) ≡ some signature
    pub trace : (case.generate seed).trace ≡ (case.replay seed (case.generate seed).tape_log).trace
    pub history :
        (case.generate seed).history ≡ (case.replay seed (case.generate seed).tape_log).history
    pub nemesis_trace :
        (case.generate seed).nemesis_trace
        ≡ (case.replay seed (case.generate seed).tape_log).nemesis_trace

  abbrev first_report : ℕ → ℕ → FailureSignature → ExperimentReport
  first_report failures seed signature =
      replay_report json_bytes html_bytes case failures seed (case.generate seed) signature
        (case.replay seed (case.generate seed).tape_log)

  five :
      (m t h n b : Bool)
      → ((not m || not t || not h || not n || not b) ≡ false)
        ↔ ((m ≡ true) × (t ≡ true) × (h ≡ true) × (n ≡ true) × (b ≡ true))
  five m t h n b = ground arith

  IsFaithful-iff :
      (failures seed : ℕ) (signature : FailureSignature)
      → (differs json_bytes html_bytes case (first_report failures seed signature) ≡ false)
        ↔ IsFaithful seed signature
  unfolding replay_report
  IsFaithful-iff failures seed signature =
      let g = case.generate seed in
      let r = case.replay seed g.tape_log in
      let trace_iff = same_texts_iff g.trace r.trace in
      let history_iff = same_texts_iff g.history r.history in
      let nemesis_iff = same_texts_iff g.nemesis_trace r.nemesis_trace in
      let byte_iff = same_text_iff (join b'\n' g.trace) (join b'\n' r.trace) in
      let all_five =
        five (same_option (case.oracle r) (some signature)) (same_texts g.trace r.trace)
          (same_texts g.history r.history) (same_texts g.nemesis_trace r.nemesis_trace)
          (same_text (join b'\n' g.trace) (join b'\n' r.trace)) in
      (
        λ h.
            let (m, t, y, n, b) = all_five.0 h in
            record {
              fails_so = same_option→eq _ _ m;
              trace = trace_iff.0 t;
              history = history_iff.0 y;
              nemesis_trace = nemesis_iff.0 n;
            },
        λ f. all_five.1 (
          eq→same_option _ _ f.fails_so,
          trace_iff.1 f.trace,
          history_iff.1 f.history,
          nemesis_iff.1 f.nemesis_trace,
          byte_iff.1 (ap (join b'\n') f.trace),
        ),
      )

  -- A recalled case: its first failing seed, the kept part of that seed's tape, and what the report
  -- holds of them.
  pub record IsRecalled (r : ExperimentReport) : Type 0 where
    pub seed : ℕ
    pub signature : FailureSignature
    pub kept_indices : List ℕ
    pub minimized : List ℕ
    pub first :
        IsFirst json_bytes html_bytes case
          (range 0 case.budget.seed_count)
          (some (seed, case.generate seed, signature))
    pub faithful : IsFaithful seed signature
    pub ordered : Subseq kept_indices (range 0 (length (case.generate seed).tape_log))
    pub selected : minimized ≡ map (λ i. get_or (case.generate seed).tape_log i 0) kept_indices
    pub still_fails : case.oracle (case.replay seed minimized) ≡ some signature
    pub seed_reported : r.first_failing_seed ≡ some seed
    pub signature_reported : r.failure_signature ≡ some signature
    pub len_reported : r.minimized_tape_len ≡ some (length minimized)

  -- A case not recalled: no seed fails, or the replay of the first failure is not faithful.
  abbrev pub IsUnreproduced : ExperimentReport → Type 0
  IsUnreproduced r =
      (r.first_failing_seed ≡ none)
        × All (Passes json_bytes html_bytes case) (range 0 case.budget.seed_count)
      ⊎ (seed : ℕ) × (signature : FailureSignature) × (r.first_failing_seed ≡ some seed)
        × IsFirst json_bytes html_bytes case (range 0 case.budget.seed_count)
            (some (seed, case.generate seed, signature))
        × ¬ IsFaithful seed signature

  -- No report is both.
  pub IsRecalled-excludes : (r : ExperimentReport) → IsRecalled r → IsUnreproduced r → ⊥
  IsRecalled-excludes r good (inl (none_reported, passes)) =
      ground (arith, good.seed_reported, none_reported)
  IsRecalled-excludes r good
        (inr (seed, signature, reported, (i, at, before, run, shown), broken)) =
      let (j, at', before', run', shown') = good.first in
      let same_seed : seed ≡ good.seed = ground (arith, reported, good.seed_reported) in
      let same_signature : signature ≡ good.signature =
        ground (arith, rw same_seed at shown, shown') in
      broken (subst₂ IsFaithful (sym same_seed) (sym same_signature) good.faithful)

  abbrev pub Meaning : RecallResult → Type 0
  Meaning (recalled r) = (r.recalled ≡ true) × IsRecalled r
  Meaning (not_recalled r) = (r.recalled ≡ false) × IsUnreproduced r

  abbrev labels_of : RunReport → List String
  labels_of g = map (λ event. as_str event.label) g.tape_events

  abbrev fails : ℕ → FailureSignature → List ℕ → Bool
  fails seed signature candidate =
      shows json_bytes html_bytes case signature (case.replay seed candidate)

  abbrev shrunk : ℕ → FailureSignature → LabelAwareShrinkReport
  shrunk seed signature = shrink_of json_bytes html_bytes case seed (case.generate seed) signature

  -- The minimized tape of a faithful failure still fails.
  shrunk-fails :
      (seed : ℕ) (signature : FailureSignature)
      → IsFaithful seed signature
      → fails seed signature (shrunk seed signature).shrink.minimized ≡ true
  unfolding label_aware_report
  shrunk-fails seed signature faithful =
      let g = case.generate seed in
      let promise =
        shrink_tape_label_aware_report (labels_of g) (fails seed signature) case.budget.shrink
          g.tape_log in
      promise.2 (eq→same_option _ _ faithful.fails_so)

  recalled-IsRecalled :
      (failures seed : ℕ) (signature : FailureSignature)
      → IsFirst json_bytes html_bytes case
          (range 0 case.budget.seed_count)
          (some (seed, case.generate seed, signature))
      → IsFaithful seed signature
      → let s = shrunk seed signature in
        IsRecalled (
          shrunk_report json_bytes html_bytes case s
            (case.replay seed s.shrink.minimized)
            true
            (first_report failures seed signature))
  unfolding shrunk_report replay_report label_aware_report
  recalled-IsRecalled failures seed signature first faithful =
      let g = case.generate seed in
      let promise =
        shrink_tape_label_aware_report (labels_of g) (fails seed signature) case.budget.shrink
          g.tape_log in
      record {
        seed = seed;
        signature = signature;
        kept_indices = (shrunk seed signature).shrink.kept_indices;
        minimized = (shrunk seed signature).shrink.minimized;
        first = first;
        faithful = faithful;
        ordered = promise.4;
        selected = promise.3;
        still_fails = same_option→eq _ _ (shrunk-fails seed signature faithful);
        seed_reported = refl;
        signature_reported = refl;
        len_reported = refl;
      }

  recall-Meaning :
      (failures seed : ℕ) (signature : FailureSignature)
      → IsFirst json_bytes html_bytes case
          (range 0 case.budget.seed_count)
          (some (seed, case.generate seed, signature))
      → Meaning (recall json_bytes html_bytes case failures seed (case.generate seed) signature)
  unfolding recall
  recall-Meaning failures seed signature first =
      let iff = IsFaithful-iff failures seed signature in
      elim (Bool-cases
        (differs json_bytes html_bytes case (first_report failures seed signature))) [
          | inl different ↦
              unfold replay_report in
              rw different (
                refl,
                inr (
                  seed,
                  signature,
                  refl,
                  first,
                  λ f. absurd (ground (arith, iff.1 f, different)),
                ),
              )
          | inr same ↦
              let faithful = iff.0 same in
              rw (same, shrunk-fails seed signature faithful)
                (
                  unfold shrunk_report in refl,
                  recalled-IsRecalled failures seed signature first faithful,
                )
        ]

  verdict-Meaning :
      (o : Option (ℕ × RunReport × FailureSignature)) (failures : ℕ)
      → IsFirst json_bytes html_bytes case (range 0 case.budget.seed_count) o
      → Meaning (elim o [
        | none ↦ not_recalled (nothing_found json_bytes html_bytes case failures)
        | some (seed, generated, signature) ↦
            recall json_bytes html_bytes case failures seed generated signature
      ])
  verdict-Meaning none failures good = unfold nothing_found in (refl, inl (refl, good))
  verdict-Meaning (some (seed, generated, signature)) failures (i, at, before, run, shown) =
      rw run (recall-Meaning failures seed signature (i, at, before, refl, rw run at shown))

  -- A case is recalled just when some seed fails, the replay of the first failing seed's tape fails
  -- with the same signature and records the same run; then the minimized tape is the reported
  -- part of that tape, and its replay still fails with that signature.
  pub run_experiment_case-Meaning : Meaning (run_experiment_case json_bytes html_bytes case)
  unfolding run_experiment_case
  run_experiment_case-Meaning =
      let seeds = range 0 case.budget.seed_count in
      let f = try_seeds json_bytes html_bytes case seeds no_failures in
      verdict-Meaning f.first f.failures_observed
        (try_seeds-IsFirst json_bytes html_bytes case seeds).0
