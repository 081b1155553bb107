-- ===== src/TestKit/Replays/Simulated.antt =====
-- The test kit on runs of the simulator.
use detersim.Prelude.{
  ℕ, ◌≡◌, refl, sym, ap, subst, ◌∙◌, Bool, true, false, ◌⊎◌, inl, inr, Option, some, List, [], ◌∷◌,
  append-nil, length, range, leb, ltb, arith, ==_refl, All,
}
use detersim.Tape.{EntropyTape, TapeEvent, log, events, replay, diagnostics}
use detersim.Tape.Record.{CursorFits}
use detersim.Text.{Text, join, same_text, same_text_iff, same_texts, same_texts_iff}
use detersim.World.{Inner, Message}
use detersim.World.Dispatch.{run_loop}
use detersim.World.Replay.{Op, with_tape, IsReplayable}
use detersim.World.Replay.Runs.{replay-run_loop}
use detersim.World.Report.{RunReport, run_report, semantic_coverage, outcome_signal}
use detersim.TestKit.Signature.{FailureSignature}
use detersim.TestKit.{
  ExperimentBudget, ExperimentCase, RecallResult, recalled, not_recalled, report_of,
  run_experiment_case,
}
use detersim.TestKit.Search.{Passes}
use detersim.TestKit.Recall.{IsFaithful, IsRecalled, Meaning, run_experiment_case-Meaning}
use detersim.TestKit.Replays.{
  same_events, label_rank, assert_reports_equal, assert_replay_identical,
}

-- The report with other diagnostics of the tape.
abbrev pub with_diagnostics : Bool → Option ℕ → ℕ → Bool → Bool → RunReport → RunReport
with_diagnostics is_replaying input_len cursor consumed_all exhausted r = record r {
  tape_replaying = is_replaying;
  tape_input_len = input_len;
  tape_cursor = cursor;
  tape_consumed_all = consumed_all;
  tape_exhausted = exhausted;
}

same_events_refl : (es : List TapeEvent) → same_events es es ≡ true
same_events_refl [] = refl
same_events_refl (e ∷ es) =
    rw (==_refl e.index, ==_refl (label_rank e.label), ==_refl e.value) (same_events_refl es)

same_text_refl : (t : Text) → same_text t t ≡ true
same_text_refl t = (same_text_iff t t).1 refl

same_texts_refl : (ts : List Text) → same_texts ts ts ≡ true
same_texts_refl ts = (same_texts_iff ts ts).1 refl

module _ (is_replaying : Bool) (input_len : Option ℕ) (cursor : ℕ)
    (consumed_all exhausted : Bool) where
  -- The reports are equal as far as the assertion reads them.
  assert_reports_equal_lem :
      (r : RunReport)
      → assert_reports_equal r
          (with_diagnostics is_replaying input_len cursor consumed_all exhausted r)
        ≡ true
  unfolding assert_reports_equal
  assert_reports_equal_lem r =
      rw
        (
          same_texts_refl r.trace,
          same_text_refl (join b'\n' r.trace),
          same_texts_refl r.history,
          same_texts_refl r.nemesis_trace,
          same_texts_refl r.coverage_signals,
          same_events_refl r.tape_events,
        )
        refl

module _ {Fut : Type 0} (debug_message : Message → Text) (poll_future : Fut → Op Fut (Option Fut))
    (poll_future-IsReplayable : (fut : Fut) → IsReplayable (poll_future fut)) where
  abbrev run_of : ℕ → Inner Fut → RunReport
  run_of n g = run_report debug_message (run_loop poll_future n g).1

  -- The report of a run only depends on the tape by its log, its events and its diagnostics.
  run_report-with_tape :
      (g : Inner Fut)
      → let l = log g.tape in
        run_report debug_message
          (with_tape (EntropyTape.replaying l (length l) l (events g.tape)) g)
        ≡ with_diagnostics true (some (length l)) (length l) true false (run_report debug_message g)
  unfolding run_report semantic_coverage outcome_signal diagnostics
  run_report-with_tape g =
      let l = log g.tape in
      let all_read : leb (length l) (length l) ≡ true = ground arith in
      let not_more : ltb (length l) (length l) ≡ false = ground arith in
      rw (all_read, not_more) refl

  replay-run_of :
      (n : ℕ) (g : Inner Fut)
      → log g.tape ≡ []
      → events g.tape ≡ []
      → CursorFits g.tape
      → let r = run_of n g in
        run_of n (with_tape (replay r.tape_log) g)
        ≡ with_diagnostics true (some (length r.tape_log)) (length r.tape_log) true false r
  unfolding run_report
  replay-run_of n g l0 e0 fits =
      let out = (run_loop poll_future n g).1 in
      let again = replay-run_loop poll_future poll_future-IsReplayable n g [] l0 e0 fits in
      ap (λ r. run_report debug_message r.1)
        (subst
          (λ t. run_loop poll_future n (with_tape (replay t) g) ≡ (
            (run_loop poll_future n g).0,
            with_tape
                (EntropyTape.replaying t (length (log out.tape)) (log out.tape) (events out.tape))
                out,
          ))
          (append-nil (log out.tape)) again)
      ∙ run_report-with_tape out

  -- The world that is set up for each seed, before it runs; a run takes at most `n` turns.
  module _ (n : ℕ) (world : ℕ → Inner Fut) where
    abbrev pub IsFresh : ℕ → Type 0
    IsFresh seed =
        (log (world seed).tape ≡ [])
        × (events (world seed).tape ≡ [])
        × CursorFits (world seed).tape

    abbrev pub generated : ℕ → RunReport
    generated seed = run_of n (world seed)

    abbrev pub replayed : ℕ → List ℕ → RunReport
    replayed seed tape = run_of n (with_tape (replay tape) (world seed))

    replayed-generated :
        (seed : ℕ)
        → IsFresh seed
        → let r = generated seed in
          replayed seed r.tape_log
          ≡ with_diagnostics true (some (length r.tape_log)) (length r.tape_log) true false r
    replayed-generated seed (l0, e0, fits) = replay-run_of n (world seed) l0 e0 fits

    -- For a run of the simulator on a fresh tape, the assertion that its replay is identical holds: the
    -- replay has consumed just the log of the run, and the two reports differ in the diagnostics of
    -- the tape alone.
    pub assert_replay_identical_lem :
        (seed : ℕ)
        → IsFresh seed
        → let r = generated seed in
          let len = length r.tape_log in
          assert_replay_identical generated replayed seed
          ≡ some (r, with_diagnostics true (some len) len true false r)
    unfolding assert_replay_identical
    assert_replay_identical_lem seed fresh =
        let r = generated seed in
        let len = length r.tape_log in
        rw
          (
            replayed-generated seed fresh,
            ==_refl len,
            assert_reports_equal_lem true (some len) len true false r,
          )
          refl

    module _ (json_bytes html_bytes : RunReport → ℕ) (name : Text) (budget : ExperimentBudget)
        (oracle : RunReport → Option FailureSignature) where
      abbrev pub simulated : ExperimentCase
      simulated = record {
        name = name;
        budget = budget;
        generate = generated;
        replay = replayed;
        oracle = oracle;
      }

      -- The oracle does not read the diagnostics of the tape.
      abbrev pub IsBlind : Type 0
      IsBlind =
          (r : RunReport) (is_replaying : Bool) (input_len : Option ℕ) (cursor : ℕ)
          (consumed_all exhausted : Bool)
          → oracle (with_diagnostics is_replaying input_len cursor consumed_all exhausted r)
            ≡ oracle r

      simulated-IsFaithful :
          (seed : ℕ) (signature : FailureSignature)
          → IsFresh seed
          → IsBlind
          → oracle (generated seed) ≡ some signature
          → IsFaithful json_bytes html_bytes simulated seed signature
      simulated-IsFaithful seed signature fresh blind shown =
          let r = generated seed in
          let again = replayed-generated seed fresh in
          record {
            fails_so =
                ap oracle again
                ∙ blind r true (some (length r.tape_log)) (length r.tape_log) true false
                ∙ shown;
            trace = sym (ap (λ s. s.trace) again);
            history = sym (ap (λ s. s.history) again);
            nemesis_trace = sym (ap (λ s. s.nemesis_trace) again);
          }

      settle :
          ((seed : ℕ) → IsFresh seed)
          → IsBlind
          → (result : RecallResult) → Meaning json_bytes html_bytes simulated result
          → ((report_of result).recalled ≡ true)
              × IsRecalled json_bytes html_bytes simulated (report_of result)
            ⊎ ((report_of result).recalled ≡ false)
              × All (Passes json_bytes html_bytes simulated) (range 0 budget.seed_count)
      settle fresh blind (recalled r) (flag, good) = inl (flag, good)
      settle fresh blind (not_recalled r) (flag, inl (none_reported, passes)) = inr (flag, passes)
      settle fresh blind (not_recalled r)
            (flag, inr (seed, signature, reported, (i, at, before, run, shown), broken)) =
          absurd (
            broken (
              simulated-IsFaithful seed signature (fresh seed) blind (ap oracle (sym run) ∙ shown)))

      -- A case whose runs are the simulator's, on fresh tapes, and whose oracle does not read the
      -- diagnostics of the tape, is recalled as soon as one of its seeds fails.
      pub run_experiment_case-IsRecalled :
          ((seed : ℕ) → IsFresh seed)
          → IsBlind
          → let result = run_experiment_case json_bytes html_bytes simulated in
            ((report_of result).recalled ≡ true)
              × IsRecalled json_bytes html_bytes simulated (report_of result)
            ⊎ ((report_of result).recalled ≡ false)
              × All (Passes json_bytes html_bytes simulated) (range 0 budget.seed_count)
      run_experiment_case-IsRecalled fresh blind =
          settle fresh blind (run_experiment_case json_bytes html_bytes simulated)
            (run_experiment_case-Meaning json_bytes html_bytes simulated)
