-- ===== src/SeedSearch/Compare.antt =====
-- The comparison of search strategies on a case and on a suite.
mod Picks
pub mod Winner
pub mod Wins
use detersim.Prelude.{
  ℕ, zero, suc, ◌+◌, ◌≡◌, refl, sym, ap, ◌∙◌, Bool, true, false, not, ◌&&◌, ◌||◌, ◌⊎◌, inl, inr,
  Option, none, some, List, [], ◌∷◌, map, filter, length, ltb, ◌==◌, if◌then◌else◌, arith,
  Bool-cases, Option-cases, List-cases, All, is_some, sort_by, sort_by_sum, sum_by, get_elem?,
}
use detersim.Text.{Text}
use detersim.TestKit.{ExperimentCase}
use detersim.TestKit.Suite.{ExperimentSuite}
use detersim.SeedSearch.{
  SearchStrategy, random, coverage_guided, failure_directed, SearchBudget, SearchReport, run_search,
}

pub record StrategyComparison : Type 0 where
  pub strategy : SearchStrategy
  pub seeds_attempted : ℕ
  pub first_failing_seed : Option ℕ
  pub first_failing_rank : Option ℕ
  pub failures_observed : ℕ
  pub unique_coverage : ℕ
  pub retained_candidates : ℕ

pub record SearchComparisonReport : Type 0 where
  pub case_name : Text
  pub budget : SearchBudget
  pub rows : List StrategyComparison
  pub best_strategy : Option SearchStrategy

pub record SuiteSearchComparisonReport : Type 0 where
  pub suite_name : Text
  pub budget : SearchBudget
  pub case_reports : List SearchComparisonReport
  pub strategy_wins : List (SearchStrategy × ℕ)

abbrev pub strategy_rank : SearchStrategy → ℕ
strategy_rank random = 0
strategy_rank coverage_guided = 1
strategy_rank failure_directed = 2

unfoldable pub row_of : ExperimentCase → SearchBudget → SearchStrategy → StrategyComparison
row_of case budget strategy =
    let report = run_search case strategy budget in
    record {
      strategy = strategy;
      seeds_attempted = report.seeds_attempted;
      first_failing_seed = report.first_failing_seed;
      first_failing_rank = report.first_failing_rank;
      failures_observed = report.failures_observed;
      unique_coverage = length report.corpus.unique_coverage;
      retained_candidates = length report.corpus.candidates;
    }

-- `min_by_key`, which keeps the first of equal keys, and `max_by_key`, which keeps the last. The
-- keys are compared by `lt`.
abbrev pub min_first :
    (StrategyComparison → StrategyComparison → Bool)
    → List StrategyComparison
    → Option StrategyComparison
min_first lt [] = none
min_first lt (row ∷ rows) = elim (min_first lt rows) [
  | none ↦ some row
  | some m ↦ if lt m row then some m else some row
]

abbrev pub max_last :
    (StrategyComparison → StrategyComparison → Bool)
    → List StrategyComparison
    → Option StrategyComparison
max_last lt [] = none
max_last lt (row ∷ rows) = elim (max_last lt rows) [
  | none ↦ some row
  | some m ↦ if lt m row then some row else some m
]

abbrev pub rank_of : StrategyComparison → ℕ
rank_of row = strategy_rank row.strategy

-- `unwrap_or(u64::MAX)`.
abbrev pub failing_rank : StrategyComparison → ℕ
failing_rank row = elim row.first_failing_rank [ none ↦ 0xffff_ffff_ffff_ffff | some rank ↦ rank ]

abbrev pub fails_sooner : StrategyComparison → StrategyComparison → Bool
fails_sooner a b =
    ltb (failing_rank a) (failing_rank b)
    || (failing_rank a == failing_rank b) && ltb (rank_of a) (rank_of b)

abbrev pub covers_less : StrategyComparison → StrategyComparison → Bool
covers_less a b =
    ltb a.unique_coverage b.unique_coverage
    || (a.unique_coverage == b.unique_coverage) && ltb (rank_of b) (rank_of a)

abbrev pub found : StrategyComparison → Bool
found row = is_some row.first_failing_rank

unfoldable pub best_row : List StrategyComparison → Option StrategyComparison
best_row rows = elim (min_first fails_sooner (filter found rows)) [
  | some row ↦ some row
  | none ↦ max_last covers_less rows
]

abbrev pub strategy_of : Option StrategyComparison → Option SearchStrategy
strategy_of none = none
strategy_of (some row) = some row.strategy

unfoldable pub compare_search_strategies :
    ExperimentCase → List SearchStrategy → SearchBudget → SearchComparisonReport
unfolding row_of best_row
compare_search_strategies case strategies budget =
    let rows = map (row_of case budget) strategies in
    record {
      case_name = case.name;
      budget = budget;
      rows = rows;
      best_strategy = strategy_of (best_row rows);
    }

-- One more win: in its entry, or in a new one at the end.
unfoldable pub count_win : SearchStrategy → List (SearchStrategy × ℕ) → List (SearchStrategy × ℕ)
count_win strategy [] = (strategy, 1) ∷ []
count_win strategy ((s, n) ∷ wins) =
    let rest = count_win strategy wins in
    if strategy_rank s == strategy_rank strategy then (s, suc n) ∷ wins else (s, n) ∷ rest

unfoldable pub count_wins :
    List SearchComparisonReport → List (SearchStrategy × ℕ) → List (SearchStrategy × ℕ)
unfolding count_win
count_wins [] wins = wins
count_wins (report ∷ reports) wins = elim report.best_strategy [
  | none ↦ count_wins reports wins
  | some strategy ↦ count_wins reports (count_win strategy wins)
]

abbrev pub by_strategy : SearchStrategy × ℕ → SearchStrategy × ℕ → Bool
by_strategy a b = ltb (strategy_rank a.0) (strategy_rank b.0)

unfoldable pub compare_search_suite :
    ExperimentSuite → List SearchStrategy → SearchBudget → SuiteSearchComparisonReport
unfolding compare_search_strategies count_wins
compare_search_suite suite strategies budget =
    let case_reports =
      map (λ entry. compare_search_strategies entry.0 strategies budget) suite.cases in
    record {
      suite_name = suite.name;
      budget = budget;
      case_reports = case_reports;
      strategy_wins = sort_by by_strategy (count_wins case_reports []);
    }
