-- ===== src/Check/Linearizability/Verdict.antt =====
-- The three verdicts of `check_linearizable_with_budget`, each with what it means.
use detersim.Prelude.{
  ℕ, ◌≤◌, ◌≡◌, refl, subst, sym, true, false, List, map, length, filter, arith, Bool-cases, inl,
  inr, Option-cases, Eq,
}
use detersim.Prelude.Subseq.{Subseq}
use detersim.Check.{Model, CheckBudget, is_complete}
use detersim.Check.Space.{IsLegalOrder}
use detersim.Check.Linearizability.{
  Op, run_search, minimize_failure, apply_at, id_at, ids, conflict_of, LinearizabilityResult,
  linearizable, not_linearizable, inconclusive, check_linearizable_with_budget,
}
use detersim.Check.Linearizability.Memo.{before}
use detersim.Check.Linearizability.Sound.{run_search-IsSound}
use detersim.Check.Linearizability.Complete.{run_search-IsComplete}
use detersim.Check.Linearizability.Budget.{run_search-IsWithin}
use detersim.Check.Linearizability.Minimize.{minimize_failure-Part}

module _ (model : Model) ⦃same_state : Eq model.State⦄ ⦃same_output : Eq model.Output⦄
    (budget : CheckBudget) where
  -- An order of all these operations that the model accepts and that respects real time.
  abbrev pub IsLinearization : List (Op model) → List ℕ → Type 0
  IsLinearization ops =
      IsLegalOrder (length ops) (before model ops budget.max_steps)
        (apply_at model ops budget.max_steps) model.init

  abbrev check : List (Op model) → LinearizabilityResult
  check history = check_linearizable_with_budget model history budget

  abbrev pub completed_ops : List (Op model) → List (Op model)
  completed_ops history = filter is_complete history

  -- What a verdict claims of a history.
  abbrev pub Meaning : List (Op model) → LinearizabilityResult → Type 0
  Meaning history (linearizable order) =
      let ops = completed_ops history in
      (is : List ℕ) × IsLinearization ops is × (order ≡ map (id_at model ops budget.max_steps) is)
  Meaning history (not_linearizable conflict minimal_subhistory explored_states budget_exhausted) =
      ((is : List ℕ) → ¬ IsLinearization (completed_ops history) is)
      × ((keep : List (Op model)) × Subseq keep (completed_ops history)
          × ((is : List ℕ) → ¬ IsLinearization keep is)
          × (minimal_subhistory ≡ ids model keep))
      × (conflict ≡ conflict_of minimal_subhistory)
      × (explored_states ≤ budget.max_steps)
      × (budget_exhausted ≡ false)
  Meaning history (inconclusive explored_states budget_exhausted) =
      (explored_states ≡ budget.max_steps) × (budget_exhausted ≡ true)

  -- Whatever `check_linearizable_with_budget` answers is so. Linearizable: the returned order is
  -- that of the identities of a linearization of the completed operations. Not linearizable: the
  -- completed operations have no linearization, neither has the minimized part of them, whose
  -- identities are returned, and the budget was kept. Inconclusive: the whole budget was explored.
  pub check_linearizable-Meaning : (history : List (Op model)) → Meaning history (check history)
  unfolding check_linearizable_with_budget
  check_linearizable-Meaning history =
      let ops = completed_ops history in
      let within = run_search-IsWithin model ops budget.max_steps in
      let search = (run_search model ops budget.max_steps).1 in
      let by = λ (r : LinearizabilityResult) (e : check history ≡ r) (m : Meaning history r).
        subst (Meaning history) (sym e) m in
      elim (Bool-cases search.inconclusive) [
        | inl spent ↦
            let full = within.1 spent in
            by (inconclusive search.explored true) (rw (spent, check_linearizable_with_budget) refl)
              (omega (arith, full, within.0), refl)
        | inr in_budget ↦ elim (Option-cases (run_search model ops budget.max_steps).0) [
          | inr (order, hit) ↦
              by (linearizable order) (rw (in_budget, check_linearizable_with_budget, hit) refl)
                (run_search-IsSound model ops budget.max_steps order hit)
          | inl miss ↦
              let part = minimize_failure-Part model budget.max_steps ops (miss, in_budget) in
              let keep = minimize_failure model ops budget.max_steps in
              by
                (not_linearizable (conflict_of (ids model keep)) (ids model keep) search.explored
                  false)
                (rw (in_budget, check_linearizable_with_budget, miss) refl)
                (
                  run_search-IsComplete model ops budget.max_steps miss in_budget,
                  (
                    keep,
                    part.0,
                    run_search-IsComplete model keep budget.max_steps part.1.0 part.1.1,
                    refl,
                  ),
                  refl,
                  within.0,
                  refl,
                )
        ]
      ]
