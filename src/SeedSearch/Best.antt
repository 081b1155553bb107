-- ===== src/SeedSearch/Best.antt =====
-- `retain_best` in the loop of `run_search`: cutting the list after every run loses nothing.
use detersim.Prelude.{
  ℕ, zero, suc, ◌≡◌, refl, sym, ap, ◌∙◌, List, [], ◌∷◌, ◌++◌, append_assoc, append-nil, take, arith,
  sort_by, IsWeakOrder, take-sort_by-append, take-sort_by_nil,
}
use detersim.TestKit.{ExperimentCase}
use detersim.Text.{Text}
use detersim.SeedSearch.{
  SearchStrategy, SearchBudget, SearchCandidate, Progress, is_better, retain_best, candidate_of,
  add_signals, coverage_from_run, attempt, attempt_all, run_search, seed_order, no_progress,
}

is_better-IsWeakOrder : IsWeakOrder is_better
unfolding is_better
is_better-IsWeakOrder = record {
  asym = λ a b h. ground (arith, h);
  cotrans = λ a b c h. ground (arith, h);
}

retain_best_lem :
    (candidates : List SearchCandidate) (retain : ℕ)
    → retain_best candidates retain ≡ take retain (sort_by is_better candidates)
unfolding retain_best
retain_best_lem candidates zero = refl
retain_best_lem candidates (suc n) = refl

module _ (case : ExperimentCase) (strategy : SearchStrategy) where
  -- All candidates of a search, in the order of the attempts, none left out.
  pub all_candidates : ℕ → List ℕ → List Text → List SearchCandidate
  all_candidates rank [] seen = []
  all_candidates rank (seed ∷ seeds) seen =
      candidate_of case strategy rank seed seen
      ∷ all_candidates (suc rank) seeds (add_signals (coverage_from_run (case.generate seed)) seen)

  attempt_all_best :
      (retain rank : ℕ) (seeds : List ℕ) (p : Progress) (tried : List (SearchCandidate))
      → p.candidates ≡ take retain (sort_by is_better tried)
      → (attempt_all case strategy retain rank seeds p).candidates
        ≡ take retain (sort_by is_better (tried ++ all_candidates rank seeds p.seen_coverage))
  unfolding attempt_all attempt all_candidates
  attempt_all_best retain rank [] p tried h =
      h ∙ ap (λ xs. take retain (sort_by is_better xs)) (sym (append-nil tried))
  attempt_all_best retain rank (seed ∷ seeds) p tried h =
      let now = candidate_of case strategy rank seed p.seen_coverage in
      let next = attempt case strategy retain rank seed p in
      let kept : next.candidates ≡ take retain (sort_by is_better (tried ++ now ∷ [])) =
        retain_best_lem (p.candidates ++ now ∷ []) retain
        ∙ ap (λ xs. take retain (sort_by is_better (xs ++ now ∷ []))) h
        ∙ take-sort_by-append is_better is_better-IsWeakOrder retain tried now in
      let ih = attempt_all_best retain (suc rank) seeds next (tried ++ now ∷ []) kept in
      ih ∙ ap (λ xs. take retain (sort_by is_better xs)) (append_assoc tried (now ∷ []) _)

  -- A search keeps the best candidates of all its attempts, as many as its budget says, best
  -- first: the same as if it kept every candidate, sorted them at the end and cut the list then.
  pub run_search_best :
      (budget : SearchBudget)
      → (run_search case strategy budget).corpus.candidates
        ≡ take budget.retain_candidates
            (sort_by is_better (all_candidates 0 (seed_order strategy budget.seed_count) []))
  unfolding run_search
  run_search_best budget =
      attempt_all_best budget.retain_candidates 0 (seed_order strategy budget.seed_count)
        (no_progress case strategy) [] (sym (take-sort_by_nil is_better budget.retain_candidates))
