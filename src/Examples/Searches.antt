-- ===== src/Examples/Searches.antt =====
-- A search over six seeds, of which the multiples of three but zero fail.
use detersim.Prelude.{
  ℕ, ◌+◌, ◌%◌, ◌≡◌, refl, true, false, none, some, List, [], ◌∷◌, length, take, filter, map, ltb,
  if◌then◌else◌, ◌==◌, ◌&&◌, sort_by, place,
}
use detersim.Text.{codes}
use detersim.Text.Search.{insert_text, insert_texts}
use detersim.Shrink.{default_config}
use detersim.World.Report.{RunReport}
use detersim.TestKit.{ExperimentCase}
use detersim.TestKit.Suite.{ExperimentSuite, must_recall}
use detersim.TestKit.Signature.{deadlock}
use detersim.SeedSearch.Compare.{row_of, compare_search_strategies}
use detersim.SeedSearch.Compare.Winner.{IsBest, compare_search_strategies-IsBest}
use detersim.SeedSearch.{
  SearchStrategy, random, coverage_from_run, SearchBudget, coverage_guided, failure_directed,
  seed_order, run_search, attempt_all, attempt, note_failure, candidate_of, candidate_score,
  is_failure, retain_best, is_better, add_signals, by_stress, stress_score,
}
use detersim.SeedSearch.First.{IsFirst, is_failing, run_search-IsFirst}
use detersim.SeedSearch.Best.{all_candidates, run_search_best}

-- A run that covers whether its seed is odd.
abbrev run : ℕ → RunReport
run seed = record {
  seed = seed;
  trace = [];
  nemesis_trace = [];
  history = [];
  coverage_signals = ((b'0' + seed % 2) ∷ []) ∷ [];
  tape_log = 4 ∷ 4 ∷ [];
  tape_events = [];
  tape_replaying = false;
  tape_input_len = none;
  tape_cursor = 2;
  tape_consumed_all = true;
  tape_exhausted = false;
  dispatched = 1;
  aborted = false;
  deadlocked = false;
  parked_tasks = 0;
  tape_log_len = 2;
}

abbrev case : ExperimentCase
case = record {
  name = codes "thirds";
  budget = record { seed_count = 6; shrink = default_config };
  generate = run;
  replay = λ seed tape. run seed;
  oracle = λ report. if (report.seed % 3 == 0) && ltb 0 report.seed then some deadlock else none;
}

abbrev budget : SearchBudget
budget = record { seed_count = 6; retain_candidates = 3 }

stressful : seed_order failure_directed 5 ≡ 0 ∷ 2 ∷ 1 ∷ 4 ∷ 3 ∷ []
unfolding seed_order sort_by place by_stress stress_score
stressful = refl

kept_seeds :
    map (λ c. c.seed) (run_search case coverage_guided budget).corpus.candidates ≡ 1 ∷ 0 ∷ 3 ∷ []
unfolding run_search seed_order attempt_all attempt note_failure candidate_of candidate_score
    is_failure retain_best is_better add_signals insert_text insert_texts coverage_from_run sort_by
    place
kept_seeds = refl

run_search-IsFirst_example :
    let r = run_search case coverage_guided budget in
    IsFirst case coverage_guided 0
      (seed_order coverage_guided 6)
      r.first_failing_rank
      r.first_failing_seed
    × (r.failures_observed
        ≡ length (filter (is_failing case coverage_guided) (seed_order coverage_guided 6)))
run_search-IsFirst_example = run_search-IsFirst case coverage_guided budget

run_search_best_example :
    (run_search case coverage_guided budget).corpus.candidates
    ≡ take 3 (
        sort_by is_better (all_candidates case coverage_guided 0 (seed_order coverage_guided 6) []))
run_search_best_example = run_search_best case coverage_guided budget

abbrev strategies : List SearchStrategy
strategies = failure_directed ∷ random ∷ []

compare_search_strategies-IsBest_example :
    IsBest
      (map (row_of case budget) strategies)
      (compare_search_strategies case strategies budget).best_strategy
compare_search_strategies-IsBest_example = compare_search_strategies-IsBest case strategies budget

abbrev suite : ExperimentSuite
suite = record { name = codes "suite"; cases = (case, must_recall) ∷ [] }
