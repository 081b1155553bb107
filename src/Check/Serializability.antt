-- ===== src/Check/Serializability.antt =====
-- `check_serializable` of crates/detersim-check/src/lib.rs: the search for a serial order of
-- transactions over a key-value state.
pub mod Sound
pub mod Complete
pub mod Budget
pub mod Verdict
use detersim.Prelude.{
  is_some, ℕ, zero, suc, Bool, true, false, not, ◌&&◌, ◌||◌, Option, none, some, List, [], ◌∷◌,
  ◌++◌, map, length, replicate, get_elem?, set, all, range, leb, filter, if◌then◌else◌, Map, lookup,
  insert, Eq, same_option, map_eq,
}
use detersim.Check.{CheckBudget}
use detersim.Check.Precedence.{Times}
use detersim.Check.Search.{Search, Found, blocked, seen_before}
use detersim.Check.Linearizability.{conflict_of}

pub data TxnAction (V : Type 0) : Type 0 where
  read : (key : ℕ) (value : Option V) → TxnAction V
  write : (key : ℕ) (value : V) → TxnAction V

pub record TxnOpRecord (V : Type 0) : Type 0 where
  pub id : ℕ
  pub process : ℕ
  pub invoke : ℕ
  pub complete : Option ℕ
  pub actions : List (TxnAction V)
  pub committed : Bool

-- Without the text of the reason, which is constant.
pub data SerializableResult : Type 0 where
  serializable : (order : List ℕ) → SerializableResult
  not_serializable :
      (conflict : Option (ℕ × ℕ)) (minimal_subhistory : List ℕ) (explored_states : ℕ)
      (budget_exhausted : Bool)
      → SerializableResult
  inconclusive : (explored_states : ℕ) (budget_exhausted : Bool) → SerializableResult

abbrev pub txn_times : {V : Type 0} → TxnOpRecord V → Times
txn_times txn = (txn.invoke, txn.complete)

module _ {V : Type 0} ⦃same : Eq V⦄ where
  unfoldable pub apply_actions : List (TxnAction V) → Map V → Option (Map V)
  apply_actions [] local = some local
  apply_actions (read key value ∷ actions) local =
      if same_option (lookup key local) value then apply_actions actions local else none
  apply_actions (write key value ∷ actions) local = apply_actions actions (insert key value local)

  unfoldable pub apply_txn : Map V → TxnOpRecord V → Option (Map V)
  apply_txn state txn = apply_actions txn.actions state

  module _ (txns : List (TxnOpRecord V)) where
    unfoldable pub apply_at : ℕ → Map V → Option (Map V)
    apply_at idx state = elim (get_elem? txns idx) [ none ↦ none | some txn ↦ apply_txn state txn ]

    unfoldable pub id_at : ℕ → ℕ
    id_at idx = elim (get_elem? txns idx) [ none ↦ 0 | some txn ↦ txn.id ]

    abbrev pub Call : Type 0
    Call = List Bool → List ℕ → Map V → Search (Map V) → Found (Map V)

    abbrev pub count_step : Search (Map V) → Search (Map V)
    count_step s = record s { explored = suc s.explored }

    -- The loop of `dfs` over the transactions, `call` for its recursive call. A transaction that is
    -- tried counts as a step whether it applies or not.
    unfoldable pub try_each : Call → List ℕ → Call
    try_each call [] used order state s = (none, s)
    try_each call (idx ∷ rest) used order state s = elim (blocked (map txn_times txns) used idx) [
      | true ↦ try_each call rest used order state s
      | false ↦ elim (apply_at idx state) [
        | none ↦ try_each call rest used order state (count_step s)
        | some next_state ↦
            let (found, s') =
              call (set used idx true) (order ++ id_at idx ∷ []) next_state (count_step s) in
            elim found [
              | some o ↦ (some o, s')
              | none ↦ elim s'.inconclusive [
                | true ↦ (none, s')
                | false ↦ try_each call rest used order state s'
              ]
            ]
      ]
    ]

    abbrev pub mark : List Bool → Map V → Search (Map V) → Search (Map V)
    mark used state s = record s { seen = s.seen ++ (used, state) ∷ [] }

    abbrev pub give_up : Search (Map V) → Search (Map V)
    give_up s = record s { inconclusive = true }

    unfoldable pub dfs : ℕ → ℕ → Call
    dfs zero max_steps used order state s = (none, s)
    dfs (suc fuel) max_steps used order state s = elim (leb max_steps s.explored) [
      | true ↦ (none, give_up s)
      | false ↦ elim (all (λ u. u) used) [
        | true ↦ (some order, s)
        | false ↦ elim (seen_before s.seen used state) [
          | true ↦ (none, s)
          | false ↦
              try_each (dfs fuel max_steps) (range 0 (length txns)) used order state
                (mark used state s)
        ]
      ]
    ]

    abbrev pub no_search : Search (Map V)
    no_search = record { explored = 0; inconclusive = false; seen = [] }

    -- One level of the search for each transaction, and the last one.
    unfoldable pub run_search : ℕ → Map V → Found (Map V)
    run_search max_steps initial =
        dfs (suc (length txns)) max_steps (replicate (length txns) false) [] initial no_search

  abbrev pub is_considered : TxnOpRecord V → Bool
  is_considered txn = txn.committed && is_some txn.complete

  unfoldable pub check_serializable :
      Map V → List (TxnOpRecord V) → CheckBudget → SerializableResult
  check_serializable initial history budget =
      let txns = filter is_considered history in
      let (found, search) = run_search txns budget.max_steps initial in
      let ids = map (λ txn. txn.id) txns in
      if search.inconclusive
      then SerializableResult.inconclusive search.explored true
      else elim found [
        | some order ↦ serializable order
        | none ↦ not_serializable (conflict_of ids) ids search.explored false
      ]
