-- ===== src/Examples/Histories.antt =====
-- The checker of crates/detersim-check on small register histories.
use detersim.Text.{codes}
use detersim.Text.Json.{read_string, between, escape_json, read_string-escape_json}
use detersim.Prelude.{ℕ, ◌≡◌, refl, true, false, none, some, List, [], ◌∷◌, nat_eq}
use detersim.Check.{OpRecord, completed_at, in_flight, CheckBudget, is_complete}
use detersim.Check.Models.{register, RegisterInput, RegisterOutput, read, write, output_eq}
use detersim.Check.Linearizability.{
  check_linearizable_with_budget, run_search, dfs, try_each, apply_at, matching, id_at,
  minimize_failure, minimize_from, linearizable, not_linearizable, inconclusive, conflict_of,
}
use detersim.Check.Search.{blocked, seen_before}
use detersim.Check.Linearizability.Verdict.{Meaning, check_linearizable-Meaning}
use detersim.Check.Serializability.{
  TxnOpRecord, TxnAction, check_serializable, serializable, not_serializable,
}
use detersim.Check.Serializability
use detersim.Check.Serializability.Verdict.{IsTrue, check_serializable-IsTrue}
use detersim.Check.Precedence.{Times, predecessors, push_rows, push_row}

abbrev RegisterOp : Type 0
RegisterOp = OpRecord (RegisterInput ℕ) (RegisterOutput ℕ)

-- Two overlapping operations, and a read of a value that was never written.
abbrev good : List RegisterOp
good =
    completed_at 7 0 (write 5) RegisterOutput.ok 0 10
    ∷ completed_at 8 1 read (RegisterOutput.value 5) 1 4
    ∷ in_flight 9 2 read 2
    ∷ []

abbrev stale : List RegisterOp
stale =
    completed_at 7 0 (write 5) RegisterOutput.ok 0 2
    ∷ completed_at 8 1 read (RegisterOutput.value 0) 3 4
    ∷ []

abbrev budget : CheckBudget
budget = record { max_steps = 100 }

good_result : check_linearizable_with_budget (register 0) good budget ≡ linearizable (7 ∷ 8 ∷ [])
unfolding check_linearizable_with_budget run_search dfs try_each apply_at matching id_at blocked
    seen_before predecessors push_rows push_row is_complete completed_at in_flight
good_result = refl

stale_result :
    check_linearizable_with_budget (register 0) stale budget
    ≡ not_linearizable (some (7, 8)) (7 ∷ 8 ∷ []) 2 false
unfolding check_linearizable_with_budget run_search dfs try_each apply_at matching id_at blocked
    seen_before predecessors push_rows push_row minimize_failure minimize_from conflict_of
    is_complete completed_at
stale_result = refl

spent_result :
    check_linearizable_with_budget (register 0) stale (record { max_steps = 1 })
    ≡ inconclusive 1 true
unfolding check_linearizable_with_budget run_search dfs try_each apply_at matching id_at blocked
    seen_before predecessors push_rows push_row is_complete completed_at
spent_result = refl

check_linearizable-Meaning_example :
    Meaning (register 0) budget good (check_linearizable_with_budget (register 0) good budget)
check_linearizable-Meaning_example = check_linearizable-Meaning (register 0) budget good

-- Two operations, one after the other.
abbrev times : List Times
times = (0, some 2) ∷ (3, none) ∷ []

-- Three transactions: a write, a read of it, and one that was not committed.
abbrev txns : List (TxnOpRecord ℕ)
txns =
    record {
      id = 4;
      process = 0;
      invoke = 0;
      complete = some 9;
      actions = TxnAction.read 1 (some 6) ∷ [];
      committed = true;
    }
    ∷ record {
      id = 5;
      process = 1;
      invoke = 1;
      complete = some 3;
      actions = TxnAction.read 1 none ∷ TxnAction.write 1 6 ∷ [];
      committed = true;
    }
    ∷ record {
      id = 6;
      process = 2;
      invoke = 2;
      complete = none;
      actions = TxnAction.write 1 7 ∷ [];
      committed = false;
    }
    ∷ []

serializable_result : check_serializable [] txns budget ≡ serializable (5 ∷ 4 ∷ [])
unfolding check_serializable Serializability.run_search Serializability.dfs Serializability.try_each
    Serializability.apply_at Serializability.apply_txn Serializability.apply_actions
    Serializability.id_at blocked seen_before predecessors push_rows push_row
serializable_result = refl

check_serializable-IsTrue_example : IsTrue [] budget txns (check_serializable [] txns budget)
check_serializable-IsTrue_example = check_serializable-IsTrue [] budget txns

-- A name with a quote and a line break, written and read back.
read_string-escape_json_example :
    read_string between (escape_json (codes "a\"b\n\u{1}")) ≡ some (codes "a\"b\n\u{1}")
read_string-escape_json_example = read_string-escape_json (codes "a\"b\n\u{1}")
