-- ===== src/Examples/Recalls.antt =====
-- Experiment cases over runs in which node 0 sends a message to node 1.
use detersim.Prelude.{
  ℕ, ◌≡◌, refl, not, ◌&&◌, ◌⊎◌, ◌↔◌, Bool, true, false, Option, none, some, List, [], ◌∷◌, All,
  length, range, is_some, sum_by, ltb, if◌then◌else◌,
}
use Prim.Native.String.{String}
use detersim.Tape.{generate}
use detersim.Text.{Text, codes}
use detersim.Text.Search.{member_text}
use detersim.Shrink.{default_config}
use detersim.Shrink.Removed.{
  count_of, entries_of, lost_draws, label_aware_report, removed_labels_count,
}
use detersim.World.{Inner, Message, default_world, from_tape}
use detersim.World.Faults.{spawn_registered_node}
use detersim.World.Events.{add_task, enqueue_poll_now, push_event}
use detersim.World.Report.{RunReport, run_report}
use detersim.World.Report.Outcome.{run_report_outcome}
use detersim.TestKit.{ExperimentBudget, ExperimentCase, report_of, run_experiment_case}
use detersim.TestKit.Signature.{FailureSignature, deadlock}
use detersim.TestKit.Search.{Passes}
use detersim.TestKit.Recall.{IsRecalled, Meaning, run_experiment_case-Meaning}
use detersim.TestKit.Suite.{ExperimentSuite, must_recall, must_not_recall, run_experiment_suite}
use detersim.TestKit.Suite.Policy.{IsMet, run_experiment_suite-IsMet}
use detersim.TestKit.Replays.{assert_replay_identical, shrink_replay_failure}
use detersim.TestKit.Replays.Shrinks.{Outcome, shrink_replay_failure_lem}
use detersim.TestKit.Replays.Simulated.{
  with_diagnostics, generated, replayed, simulated, assert_replay_identical_lem,
  run_experiment_case-IsRecalled,
}
use detersim.Examples.Replays.{poll_sender, poll_sender-IsReplayable}

abbrev world : ℕ → Inner Bool
world seed =
    let g = spawn_registered_node 0 false (from_tape seed default_world (generate seed)) in
    record g { nodes = 0 ∷ 1 ∷ [] }

abbrev debug_message : Message → Text
debug_message msg = []

abbrev bytes : RunReport → ℕ
bytes r = length r.trace

abbrev budget : ExperimentBudget
budget = record { seed_count = 2; shrink = default_config }

-- A run fails when anything is traced.
abbrev oracle : RunReport → Option FailureSignature
oracle r = elim r.trace [ [] ↦ none | line ∷ lines ↦ some deadlock ]

abbrev made : ℕ → RunReport
made = generated debug_message poll_sender poll_sender-IsReplayable 9 world

abbrev again : ℕ → List ℕ → RunReport
again = replayed debug_message poll_sender poll_sender-IsReplayable 9 world

abbrev case : ExperimentCase
case =
    simulated debug_message poll_sender poll_sender-IsReplayable 9 world bytes bytes (codes "send")
      budget oracle

assert_replay_identical_lem_example :
    assert_replay_identical made again 1
    ≡ some (
      made 1,
      with_diagnostics true
          (some (length (made 1).tape_log))
          (length (made 1).tape_log)
          true
          false
          (made 1),
    )
unfolding spawn_registered_node add_task enqueue_poll_now push_event from_tape generate
assert_replay_identical_lem_example =
    assert_replay_identical_lem debug_message poll_sender poll_sender-IsReplayable 9 world 1
      (refl, refl, tt)

run_experiment_case-IsRecalled_example :
    ((report_of (run_experiment_case bytes bytes case)).recalled ≡ true)
      × IsRecalled bytes bytes case (report_of (run_experiment_case bytes bytes case))
    ⊎ ((report_of (run_experiment_case bytes bytes case)).recalled ≡ false)
      × All (Passes bytes bytes case) (range 0 2)
unfolding spawn_registered_node add_task enqueue_poll_now push_event from_tape generate
run_experiment_case-IsRecalled_example =
    run_experiment_case-IsRecalled debug_message poll_sender poll_sender-IsReplayable 9 world bytes
      bytes (codes "send") budget oracle (λ seed. (refl, refl, tt))
      (λ r is_replaying input_len cursor consumed_all exhausted. refl)

run_experiment_case-Meaning_example :
    Meaning bytes bytes case (run_experiment_case bytes bytes case)
run_experiment_case-Meaning_example = run_experiment_case-Meaning bytes bytes case

abbrev suite : ExperimentSuite
suite = record { name = codes "suite"; cases = (case, must_recall) ∷ (case, must_not_recall) ∷ [] }

run_experiment_suite-IsMet_example :
    ((run_experiment_suite bytes bytes suite).policy_failures ≡ 0)
    ↔ All (IsMet bytes bytes) suite.cases
run_experiment_suite-IsMet_example = run_experiment_suite-IsMet bytes bytes suite

abbrev still_fails : RunReport → Bool
still_fails r = is_some (oracle r)

abbrev text_of : RunReport → Text
text_of r = []

shrink_replay_failure_lem_example :
    (is_some (shrink_replay_failure text_of text_of made again still_fails 1 default_config)
      ≡ (still_fails (made 1) && still_fails (again 1 (made 1).tape_log)))
    × Outcome text_of text_of made again still_fails 1
        (shrink_replay_failure text_of text_of made again still_fails 1 default_config)
shrink_replay_failure_lem_example =
    shrink_replay_failure_lem text_of text_of made again still_fails 1 default_config

run_report_outcome_example :
    let r = run_report debug_message (world 1) in
    (member_text (codes "outcome:aborted") r.coverage_signals ≡ r.aborted)
    × (member_text (codes "outcome:deadlocked") r.coverage_signals
        ≡ (not r.aborted && r.deadlocked))
    × (member_text (codes "outcome:quiesced") r.coverage_signals
        ≡ (not r.aborted && not r.deadlocked))
run_report_outcome_example = run_report_outcome debug_message (world 1)

abbrev labels : List String
labels = "net-delay" ∷ "drop-decision" ∷ "net-delay" ∷ []

abbrev holds_seven : List ℕ → Bool
holds_seven tape = elim tape [ [] ↦ false | v ∷ rest ↦ true ]

removed_labels_count_example :
    let r = label_aware_report labels holds_seven default_config (4 ∷ 7 ∷ 9 ∷ []) in
    let lost = lost_draws r.shrink.kept_indices 0 "net-delay" labels in
    (sum_by (count_of "net-delay") r.removed_labels ≡ lost)
    × (entries_of "net-delay" r.removed_labels ≡ (if ltb 0 lost then 1 else 0))
    × All (λ entry. entry.label ≡ "net-delay" → entry.count ≡ lost) r.removed_labels
removed_labels_count_example =
    removed_labels_count labels holds_seven default_config (4 ∷ 7 ∷ 9 ∷ []) "net-delay" refl
