-- ===== src/SeedSearch/Compare/Winner.antt =====
-- Which strategy a comparison calls the best.
use detersim.Prelude.{
  ℕ, zero, suc, ◌<◌, ◌≡◌, ◌⊎◌, All-imp, refl, subst, true, false, inl, inr, Option, none, some,
  List, [], ◌∷◌, map, filter, if◌then◌else◌, arith, Bool-cases, All, get_elem?, IsWeakOrder,
}
use detersim.TestKit.{ExperimentCase}
use detersim.SeedSearch.{SearchStrategy, random, coverage_guided, failure_directed, SearchBudget}
use detersim.SeedSearch.Compare.{
  StrategyComparison, strategy_rank, row_of, min_first, max_last, fails_sooner, covers_less, found,
  best_row, strategy_of, compare_search_strategies,
}
use detersim.SeedSearch.Compare.Picks.{Order, IsIn, IsPicked, min_first-IsPicked, max_last-IsPicked}

fails_sooner-IsWeakOrder : IsWeakOrder fails_sooner
fails_sooner-IsWeakOrder = record {
  asym = λ a b h. ground (arith, h);
  cotrans = λ a b c h. ground (arith, h);
}

covers_less-IsWeakOrder : IsWeakOrder covers_less
covers_less-IsWeakOrder = record {
  asym = λ a b h. ground (arith, h);
  cotrans = λ a b c h. ground (arith, h);
}

-- Random stands before coverage-guided, and that before failure-directed.
abbrev pub Precedes : SearchStrategy → SearchStrategy → Type 0
Precedes random random = ⊥
Precedes random coverage_guided = Unit
Precedes random failure_directed = Unit
Precedes coverage_guided failure_directed = Unit
Precedes coverage_guided random = ⊥
Precedes coverage_guided coverage_guided = ⊥
Precedes failure_directed b = ⊥

-- One row is better than another by the ranks of the first seeds that fail, or, if none does, by the
-- signals covered, and at a tie by the order of the strategies.
abbrev pub BetterBy : Option ℕ → Option ℕ → StrategyComparison → StrategyComparison → Type 0
BetterBy (some r) (some q) a b = (r < q) ⊎ ((r ≡ q) × Precedes a.strategy b.strategy)
BetterBy (some r) none a b = Unit
BetterBy none (some q) a b = ⊥
BetterBy none none a b =
    (b.unique_coverage < a.unique_coverage)
    ⊎ ((a.unique_coverage ≡ b.unique_coverage) × Precedes a.strategy b.strategy)

abbrev pub IsBetter : StrategyComparison → StrategyComparison → Type 0
IsBetter a b = BetterBy a.first_failing_rank b.first_failing_rank a b

abbrev pub IsBest : List StrategyComparison → Option SearchStrategy → Type 0
IsBest rows none = rows ≡ []
IsBest rows (some strategy) =
    (row : StrategyComparison) × (row.strategy ≡ strategy)
    × IsIn row rows
    × All (λ other. ¬ IsBetter other row) rows

-- The order in which the code compares rows.
beats : Order
beats a b =
    if found a
    then (if found b then fails_sooner a b else true)
    else (if found b then false else covers_less b a)

Precedes-rank : (a b : SearchStrategy) → Precedes a b → strategy_rank a < strategy_rank b
Precedes-rank random random p = absurd p
Precedes-rank random coverage_guided p = omega arith
Precedes-rank random failure_directed p = omega arith
Precedes-rank coverage_guided failure_directed p = omega arith
Precedes-rank coverage_guided random p = absurd p
Precedes-rank coverage_guided coverage_guided p = absurd p
Precedes-rank failure_directed b p = absurd p

-- What is better comes first in the order of the code.
better_first :
    (r q : Option ℕ) (a b : StrategyComparison)
    → a.first_failing_rank ≡ r
    → b.first_failing_rank ≡ q
    → BetterBy r q a b
    → beats a b ≡ true
unfolding beats
better_first (some r) (some q) a b x y (inl sooner) = ground (arith, x, y, sooner)
better_first (some r) (some q) a b x y (inr (tie, first)) =
    ground (arith, x, y, tie, Precedes-rank a.strategy b.strategy first)
better_first (some r) none a b x y h = ground (arith, x, y)
better_first none (some q) a b x y h = absurd h
better_first none none a b x y (inl more) = ground (arith, x, y, more)
better_first none none a b x y (inr (tie, first)) =
    ground (arith, x, y, tie, Precedes-rank a.strategy b.strategy first)

none_beats :
    (m : StrategyComparison) (rows : List StrategyComparison)
    → All (λ row. beats row m ≡ false) rows
    → All (λ row. ¬ IsBetter row m) rows
none_beats m rows h =
    All-imp _ _ rows
      (λ row worse better.
        let first =
          better_first row.first_failing_rank m.first_failing_rank row m refl refl better in
        absurd (ground (arith, worse, first)))
      h

filter-IsIn :
    (rows : List StrategyComparison) (m : StrategyComparison)
    → IsIn m (filter found rows)
    → IsIn m rows × (found m ≡ true)
filter-IsIn [] m (i, at) = absurd (ground (arith, at))
filter-IsIn (row ∷ rows) m (zero, at) = elim (Bool-cases (found row)) [
  | inr q ↦ let ((j, place), f) = filter-IsIn rows m (zero, rw q at at) in ((suc j, place), f)
  | inl q ↦ ((0, rw q at at), ground (arith, rw q at at, q))
]
filter-IsIn (row ∷ rows) m (suc i, at) = elim (Bool-cases (found row)) [
  | inr q ↦ let ((j, place), f) = filter-IsIn rows m (suc i, rw q at at) in ((suc j, place), f)
  | inl q ↦ let ((j, place), f) = filter-IsIn rows m (i, rw q at at) in ((suc j, place), f)
]

filter-beats :
    (rows : List StrategyComparison) (m : StrategyComparison)
    → found m ≡ true
    → All (λ row. fails_sooner row m ≡ false) (filter found rows)
    → All (λ row. beats row m ≡ false) rows
unfolding beats
filter-beats [] m f h = tt
filter-beats (row ∷ rows) m f h = elim (Bool-cases (found row)) [
  | inl q ↦ let (here, later) = rw q at h in (rw (q, f) here, filter-beats rows m f later)
  | inr q ↦ (rw (f, q) refl, filter-beats rows m f (rw q at h))
]

none_found :
    (rows : List StrategyComparison) → filter found rows ≡ [] → All (λ row. found row ≡ false) rows
none_found [] h = tt
none_found (row ∷ rows) h = elim (Bool-cases (found row)) [
  | inl q ↦ absurd (ground (arith, rw q at h))
  | inr q ↦ (q, none_found rows (rw q at h))
]

cover_beats :
    (rows : List StrategyComparison) (m : StrategyComparison)
    → found m ≡ false
    → All (λ row. found row ≡ false) rows
    → All (λ row. covers_less m row ≡ false) rows
    → All (λ row. beats row m ≡ false) rows
unfolding beats
cover_beats [] m f h c = tt
cover_beats (row ∷ rows) m f h c = (rw (f, h.0) c.0, cover_beats rows m f h.1 c.1)

All-get {κ} :
    (P : StrategyComparison → Type κ) (rows : List StrategyComparison) (i : ℕ)
    (m : StrategyComparison)
    → All P rows
    → get_elem? rows i ≡ some m
    → P m
All-get P [] i m h at = absurd (ground (arith, at))
All-get P (row ∷ rows) zero m h at = subst P (ground (arith, at)) h.0
All-get P (row ∷ rows) (suc i) m h at = All-get P rows i m h.1 at

-- Without a failure, the row with the most coverage is not beaten.
covered :
    (rows : List StrategyComparison) (o : Option StrategyComparison)
    → IsPicked (λ a b. covers_less b a) rows o
    → All (λ row. found row ≡ false) rows
    → IsBest rows (strategy_of o)
covered rows none h none_finds = h
covered rows (some m) ((i, at), h) none_finds =
    let f : found m ≡ false = All-get (λ row. found row ≡ false) rows i m none_finds at in
    (m, refl, (i, at), none_beats m rows (cover_beats rows m f none_finds h))

picked :
    (rows : List StrategyComparison) (o : Option StrategyComparison)
    → IsPicked fails_sooner (filter found rows) o
    → IsBest rows (strategy_of (elim o [ some row ↦ some row | none ↦ max_last covers_less rows ]))
picked rows none empty =
    covered rows (max_last covers_less rows)
      (max_last-IsPicked covers_less covers_less-IsWeakOrder rows) (none_found rows empty)
picked rows (some m) (place, h) =
    let (here, f) = filter-IsIn rows m place in
    (m, refl, here, none_beats m rows (filter-beats rows m f h))

best_row-IsBest : (rows : List StrategyComparison) → IsBest rows (strategy_of (best_row rows))
unfolding best_row
best_row-IsBest rows =
    picked rows (min_first fails_sooner (filter found rows))
      (min_first-IsPicked fails_sooner fails_sooner-IsWeakOrder (filter found rows))

-- The best strategy of a comparison is that of one of its rows, than which no other row is better, and
-- there is none only if no strategy was compared. A row that finds a failure is better than one that
-- finds none; of two that find one, that with the lower rank, of two that find none, that with the
-- larger coverage, and at a tie that whose strategy stands first in the order random, coverage-guided,
-- failure-directed, wherever the strategies stand in the list.
pub compare_search_strategies-IsBest :
    (case : ExperimentCase) (strategies : List SearchStrategy) (budget : SearchBudget)
    → IsBest
        (map (row_of case budget) strategies)
        (compare_search_strategies case strategies budget).best_strategy
unfolding compare_search_strategies
compare_search_strategies-IsBest case strategies budget =
    best_row-IsBest (map (row_of case budget) strategies)
