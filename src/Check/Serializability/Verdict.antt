-- ===== src/Check/Serializability/Verdict.antt =====
-- The three verdicts of `check_serializable`, each with what it means.
use detersim.Prelude.{
  ℕ, ◌≤◌, ◌≡◌, refl, subst, sym, true, false, List, map, length, filter, Bool-cases, inl, inr,
  Option-cases, Eq, Map,
}
use detersim.Check.{CheckBudget}
use detersim.Check.Space.{IsLegalOrder}
use detersim.Check.Linearizability.{conflict_of}
use detersim.Check.Serializability.{
  TxnOpRecord, SerializableResult, serializable, not_serializable, inconclusive, run_search,
  apply_at, id_at, is_considered, check_serializable,
}
use detersim.Check.Serializability.Sound.{before, run_search-IsSound}
use detersim.Check.Serializability.Complete.{run_search-IsComplete}
use detersim.Check.Serializability.Budget.{run_search-IsSpent}

module _ {V : Type 0} ⦃same : Eq V⦄ (initial : Map V) (budget : CheckBudget) where
  -- A serial order of all these transactions, in which every read sees the value that it
  -- returned and which respects real time.
  abbrev pub IsSerialOrder : List (TxnOpRecord V) → List ℕ → Type 0
  IsSerialOrder txns =
      IsLegalOrder (length txns) (before txns budget.max_steps) (apply_at txns) initial

  abbrev check : List (TxnOpRecord V) → SerializableResult
  check history = check_serializable initial history budget

  abbrev considered : List (TxnOpRecord V) → List (TxnOpRecord V)
  considered history = filter is_considered history

  -- What a verdict claims of a history.
  abbrev pub IsTrue : List (TxnOpRecord V) → SerializableResult → Type 0
  IsTrue history (serializable order) =
      let txns = considered history in
      (is : List ℕ) × IsSerialOrder txns is × (order ≡ map (id_at txns) is)
  IsTrue history (not_serializable conflict minimal_subhistory explored_states budget_exhausted) =
      ((is : List ℕ) → ¬ IsSerialOrder (considered history) is)
      × (minimal_subhistory ≡ map (λ txn. txn.id) (considered history))
      × (conflict ≡ conflict_of minimal_subhistory)
      × (budget_exhausted ≡ false)
  IsTrue history (inconclusive explored_states budget_exhausted) =
      (budget.max_steps ≤ explored_states) × (budget_exhausted ≡ true)

  -- Whatever `check_serializable` answers is so. Serializable: the returned order is that of the
  -- identities of a serial order of the committed and completed transactions, in which every read
  -- returns what it saw and which respects real time. Not serializable: there is no such order,
  -- and all those identities are returned. Inconclusive: the steps of the budget are spent.
  pub check_serializable-IsTrue : (history : List (TxnOpRecord V)) → IsTrue history (check history)
  unfolding check_serializable
  check_serializable-IsTrue history =
      let txns = considered history in
      let found = run_search txns budget.max_steps initial in
      let by = λ (r : SerializableResult) (e : check history ≡ r) (m : IsTrue history r).
        subst (IsTrue history) (sym e) m in
      elim (Bool-cases found.1.inconclusive) [
        | inl spent ↦
            by (inconclusive found.1.explored true) (rw (spent, check_serializable) refl)
              (run_search-IsSpent txns budget.max_steps initial spent, refl)
        | inr in_budget ↦ elim (Option-cases found.0) [
          | inr (order, hit) ↦
              by (serializable order) (rw (in_budget, check_serializable, hit) refl)
                (run_search-IsSound txns budget.max_steps initial order hit)
          | inl miss ↦
              let ids = map (λ (txn : TxnOpRecord V). txn.id) txns in
              by (not_serializable (conflict_of ids) ids found.1.explored false)
                (rw (in_budget, check_serializable, miss) refl)
                (
                  run_search-IsComplete txns budget.max_steps initial miss in_budget,
                  refl,
                  refl,
                  refl,
                )
        ]
      ]
