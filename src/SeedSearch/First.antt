-- ===== src/SeedSearch/First.antt =====
-- What `run_search` reports of the failures that it met.
use detersim.Prelude.{
  ℕ, suc, ◌+◌, ◌≡◌, refl, sym, subst₂, ◌∙◌, Bool, true, false, Option, none, some, List, [], ◌∷◌,
  length, take, filter, All, get_elem?, arith, Bool-cases, inl, inr, if◌then◌else◌,
}
use detersim.TestKit.{ExperimentCase}
use detersim.SeedSearch.{
  SearchStrategy, SearchBudget, Progress, fails, note_failure, attempt, attempt_all, run_search,
  seed_order, no_progress,
}

module _ (case : ExperimentCase) (strategy : SearchStrategy) where
  abbrev pub is_failing : ℕ → Bool
  is_failing = fails case strategy

  abbrev Passes : ℕ → Type 0
  Passes seed = is_failing seed ≡ false

  -- The first failing seed of a list and its rank, counted from the given one, if there is one.
  abbrev pub IsFirst : ℕ → List ℕ → Option ℕ → Option ℕ → Type 0
  IsFirst start seeds none none = All Passes seeds
  IsFirst start seeds none (some seed) = ⊥
  IsFirst start seeds (some rank) none = ⊥
  IsFirst start seeds (some rank) (some seed) =
      (i : ℕ) × (rank ≡ start + i)
      × (get_elem? seeds i ≡ some seed)
      × (is_failing seed ≡ true)
      × All Passes (take i seeds)

  IsFirst-cons :
      (start s : ℕ) (seeds : List ℕ) (rank seed : Option ℕ)
      → Passes s
      → IsFirst (suc start) seeds rank seed
      → IsFirst start (s ∷ seeds) rank seed
  IsFirst-cons start s seeds none none good h = (good, h)
  IsFirst-cons start s seeds none (some seed) good h = h
  IsFirst-cons start s seeds (some rank) none good h = h
  IsFirst-cons start s seeds (some rank) (some seed) good (i, at, seed_at, bad, before) =
      (suc i, omega (arith, at), seed_at, bad, (good, before))

  abbrev go : ℕ → ℕ → List ℕ → Progress → Progress
  go = attempt_all case strategy

  -- Once a failure is noted, it stays the first one.
  attempt_all_kept :
      (retain start : ℕ) (seeds : List ℕ) (p : Progress) (seed : ℕ)
      → p.first_failing_seed ≡ some seed
      → ((go retain start seeds p).first_failing_seed ≡ p.first_failing_seed)
        × ((go retain start seeds p).first_failing_rank ≡ p.first_failing_rank)
  unfolding attempt_all attempt note_failure
  attempt_all_kept retain start [] p seed h = (refl, refl)
  attempt_all_kept retain start (s ∷ seeds) p seed h =
      let next = attempt case strategy retain start s p in
      let same : (next.first_failing_seed ≡ p.first_failing_seed)
          × (next.first_failing_rank ≡ p.first_failing_rank) =
        ground (arith, h) in
      let rest = attempt_all_kept retain (suc start) seeds next seed (same.0 ∙ h) in
      (rest.0 ∙ same.0, rest.1 ∙ same.1)

  attempt_all-IsFirst :
      (retain start : ℕ) (seeds : List ℕ) (p : Progress)
      → p.first_failing_seed ≡ none
      → p.first_failing_rank ≡ none
      → let r = go retain start seeds p in
        IsFirst start seeds r.first_failing_rank r.first_failing_seed
  unfolding attempt_all attempt note_failure
  attempt_all-IsFirst retain start [] p h k = rw (h, k) tt
  attempt_all-IsFirst retain start (s ∷ seeds) p h k =
      let next = attempt case strategy retain start s p in
      elim (Bool-cases (is_failing s)) [
        | inl bad ↦
            let now : next.first_failing_seed ≡ some s = ground (arith, h, bad) in
            let now_rank : next.first_failing_rank ≡ some start = ground (arith, h, bad) in
            let kept = attempt_all_kept retain (suc start) seeds next s now in
            let found : IsFirst start (s ∷ seeds) (some start) (some s) =
              (0, omega arith, refl, bad, tt) in
            subst₂ (IsFirst start (s ∷ seeds)) (sym (kept.1 ∙ now_rank)) (sym (kept.0 ∙ now)) found
        | inr good ↦
            let ih =
              attempt_all-IsFirst retain (suc start) seeds next (ground (arith, h, good))
                (ground (arith, k, good)) in
            IsFirst-cons start s seeds _ _ good ih
      ]

  attempt_all_count :
      (retain start : ℕ) (seeds : List ℕ) (p : Progress)
      → (go retain start seeds p).failures_observed
        ≡ p.failures_observed + length (filter is_failing seeds)
  unfolding attempt_all attempt note_failure
  attempt_all_count retain start [] p = omega arith
  attempt_all_count retain start (s ∷ seeds) p =
      let next = attempt case strategy retain start s p in
      let ih = attempt_all_count retain (suc start) seeds next in
      let one : next.failures_observed ≡ p.failures_observed + (if is_failing s then 1 else 0) =
        ground arith in
      ground (arith, ih, one)

  -- The report counts the failing seeds among those tried, and names the first of them in the
  -- order of the strategy, with its rank: none before it fails, and if there is no first one, none
  -- fails at all.
  pub run_search-IsFirst :
      (budget : SearchBudget)
      → let seeds = seed_order strategy budget.seed_count in
        let r = run_search case strategy budget in
        IsFirst 0 seeds r.first_failing_rank r.first_failing_seed
        × (r.failures_observed ≡ length (filter is_failing seeds))
  unfolding run_search
  run_search-IsFirst budget =
      let seeds = seed_order strategy budget.seed_count in
      let start = no_progress case strategy in
      let count = attempt_all_count budget.retain_candidates 0 seeds start in
      (attempt_all-IsFirst budget.retain_candidates 0 seeds start refl refl, (omega (arith, count)))
