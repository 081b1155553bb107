-- ===== src/SeedSearch/Compare/Picks.antt =====
-- What `min_by_key` and `max_by_key` pick.
use detersim.Prelude.{
  ℕ, suc, ◌≡◌, refl, Bool, false, inl, inr, Option, none, some, List, [], ◌∷◌, if◌then◌else◌, arith,
  Bool-cases, All, get_elem?, IsWeakOrder,
}
use detersim.SeedSearch.Compare.{StrategyComparison, min_first, max_last}

abbrev pub Order : Type 0
Order = StrategyComparison → StrategyComparison → Bool

abbrev pub IsIn : StrategyComparison → List StrategyComparison → Type 0
IsIn row rows = (i : ℕ) × (get_elem? rows i ≡ some row)

-- The row that is picked is one of the rows, and no row comes before it.
abbrev pub IsPicked : Order → List StrategyComparison → Option StrategyComparison → Type 0
IsPicked before rows none = rows ≡ []
IsPicked before rows (some m) = IsIn m rows × All (λ row. before row m ≡ false) rows

All-before :
    (before : Order) (m m' : StrategyComparison) (rows : List StrategyComparison)
    → ((row : StrategyComparison) → before row m ≡ false → before row m' ≡ false)
    → All (λ row. before row m ≡ false) rows
    → All (λ row. before row m' ≡ false) rows
All-before before m m' [] f h = tt
All-before before m m' (row ∷ rows) f (h, hs) = (f row h, All-before before m m' rows f hs)

module _ (lt : Order) (w : IsWeakOrder lt) where
  lt_irrefl : (row : StrategyComparison) → lt row row ≡ false
  lt_irrefl row = elim (Bool-cases (lt row row)) [ inl h ↦ w.asym row row h | inr h ↦ h ]

  -- If `m` is not after `row`, what does not come before `m` does not come before `row`.
  not_before :
      (m row other : StrategyComparison)
      → lt m row ≡ false
      → lt other m ≡ false
      → lt other row ≡ false
  not_before m row other h k = elim (Bool-cases (lt other row)) [
    | inl bad ↦ absurd (ground (arith, w.cotrans other m row bad, h, k))
    | inr good ↦ good
  ]

  pub min_first-IsPicked : (rows : List StrategyComparison) → IsPicked lt rows (min_first lt rows)
  min_first-IsPicked [] = refl
  min_first-IsPicked (row ∷ rows) = min_step (min_first lt rows) (min_first-IsPicked rows)
    where
      min_step :
          (o : Option StrategyComparison)
          → IsPicked lt rows o
          → IsPicked lt
              (row ∷ rows)
              (elim o [ none ↦ some row | some m ↦ if lt m row then some m else some row ])
      min_step none empty = ((0, refl), rw empty (lt_irrefl row, tt))
      min_step (some m) ((i, at), h) = elim (Bool-cases (lt m row)) [
        | inl sooner ↦ rw sooner ((suc i, at), (w.asym m row sooner, h))
        | inr not_sooner ↦ rw not_sooner (
          (0, refl),
          (
            lt_irrefl row,
            All-before lt m row rows (λ other k. not_before m row other not_sooner k) h,
          ),
        )
      ]

  pub max_last-IsPicked :
      (rows : List StrategyComparison) → IsPicked (λ a b. lt b a) rows (max_last lt rows)
  max_last-IsPicked [] = refl
  max_last-IsPicked (row ∷ rows) = max_step (max_last lt rows) (max_last-IsPicked rows)
    where
      max_step :
          (o : Option StrategyComparison)
          → IsPicked (λ a b. lt b a) rows o
          → IsPicked
              (λ a b. lt b a)
              (row ∷ rows)
              (elim o [ none ↦ some row | some m ↦ if lt m row then some row else some m ])
      max_step none empty = ((0, refl), rw empty (lt_irrefl row, tt))
      max_step (some m) ((i, at), h) = elim (Bool-cases (lt m row)) [
        | inl less ↦ rw less (
          (0, refl),
          (
            lt_irrefl row,
            All-before (λ a b. lt b a) m row rows
                (λ other k. not_before m other row k (w.asym m row less)) h,
          ),
        )
        | inr not_less ↦ rw not_less ((suc i, at), (not_less, h))
      ]
