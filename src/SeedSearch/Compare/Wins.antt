-- ===== src/SeedSearch/Compare/Wins.antt =====
-- How often a strategy wins in the comparison of a suite.
use detersim.Prelude.{
  ℕ, ◌+◌, ◌≡◌, ◌∙◌, Bool, false, none, some, List, [], ◌∷◌, map, filter, length, ◌==◌,
  if◌then◌else◌, arith, Option-cases, inl, inr, sort_by_sum, sum_by,
}
use detersim.TestKit.Suite.{ExperimentSuite}
use detersim.SeedSearch.{SearchStrategy, SearchBudget}
use detersim.SeedSearch.Compare.{
  SearchComparisonReport, strategy_rank, compare_search_strategies, count_win, count_wins,
  by_strategy, compare_search_suite,
}

abbrev pub wins_of : SearchStrategy → SearchStrategy × ℕ → ℕ
wins_of s entry = if strategy_rank entry.0 == strategy_rank s then entry.1 else 0

abbrev pub is_won_by : SearchStrategy → SearchComparisonReport → Bool
is_won_by s report = elim report.best_strategy [
  | none ↦ false
  | some t ↦ strategy_rank t == strategy_rank s
]

sum_by-count_win :
    (s t : SearchStrategy) (wins : List (SearchStrategy × ℕ))
    → sum_by (wins_of s) (count_win t wins)
      ≡ (if strategy_rank t == strategy_rank s then 1 else 0) + sum_by (wins_of s) wins
unfolding count_win
sum_by-count_win s t [] = ground arith
sum_by-count_win s t ((u, n) ∷ wins) = ground (arith, sum_by-count_win s t wins)

sum_by-count_wins :
    (s : SearchStrategy) (reports : List SearchComparisonReport) (wins : List (SearchStrategy × ℕ))
    → sum_by (wins_of s) (count_wins reports wins)
      ≡ sum_by (wins_of s) wins + length (filter (is_won_by s) reports)
unfolding count_wins
sum_by-count_wins s [] wins = omega arith
sum_by-count_wins s (report ∷ reports) wins = elim (Option-cases report.best_strategy) [
  | inl e ↦ ground (arith, e, sum_by-count_wins s reports wins)
  | inr (t, e) ↦
      ground (arith, e, sum_by-count_win s t wins, sum_by-count_wins s reports (count_win t wins))
]

-- The wins that the comparison of a suite reports for a strategy are the cases whose comparison
-- calls that strategy the best.
pub compare_search_suite_wins :
    (suite : ExperimentSuite) (strategies : List SearchStrategy) (budget : SearchBudget)
    (s : SearchStrategy)
    → sum_by (wins_of s) (compare_search_suite suite strategies budget).strategy_wins
      ≡ length (
          filter
            (is_won_by s)
            (map (λ entry. compare_search_strategies entry.0 strategies budget) suite.cases))
unfolding compare_search_suite
compare_search_suite_wins suite strategies budget s =
    let reports = map (λ entry. compare_search_strategies entry.0 strategies budget) suite.cases in
    sort_by_sum by_strategy (wins_of s) (count_wins reports [])
    ∙ omega (arith, sum_by-count_wins s reports [])
