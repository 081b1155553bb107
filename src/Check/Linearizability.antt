-- ===== src/Check/Linearizability.antt =====
-- `check_linearizable_with_budget` of crates/detersim-check/src/lib.rs: the search for a
-- linearization with its table of visited points and its budget, and the minimization of failures.
pub mod Memo
pub mod Sound
pub mod Complete
pub mod Budget
pub mod Minimize
pub mod Verdict
use detersim.Prelude.{
  is_some, ℕ, zero, suc, Bool, true, false, not, ◌&&◌, ◌||◌, Option, none, some, List, [], ◌∷◌,
  ◌++◌, map, length, replicate, get_or, get_elem?, set, any, range, leb, ltb, ◌==◌, if◌then◌else◌,
  filter, remove_at, Eq,
}
use detersim.Check.{OpRecord, is_complete, Model, CheckBudget}
use detersim.Check.Precedence.{Times}
use detersim.Check.Search.{Search, Found, blocked, seen_before}

-- Without the text of the reason, which is constant.
pub data LinearizabilityResult : Type 0 where
  linearizable : (order : List ℕ) → LinearizabilityResult
  not_linearizable :
      (conflict : Option (ℕ × ℕ)) (minimal_subhistory : List ℕ) (explored_states : ℕ)
      (budget_exhausted : Bool)
      → LinearizabilityResult
  inconclusive : (explored_states : ℕ) (budget_exhausted : Bool) → LinearizabilityResult

abbrev pub last_or : ℕ → List ℕ → ℕ
last_or d [] = d
last_or d (x ∷ xs) = last_or x xs

-- The first and the last operation of what is left.
unfoldable pub conflict_of : List ℕ → Option (ℕ × ℕ)
conflict_of [] = none
conflict_of (first ∷ rest) = some (first, last_or first rest)

unfoldable pub conflict_ops : Option (ℕ × ℕ) → List ℕ
conflict_ops none = []
conflict_ops (some (left, right)) = if left == right then left ∷ [] else left ∷ right ∷ []

pub record CheckerStats : Type 0 where
  pub witness_order : List ℕ
  pub conflict : List ℕ
  pub minimal : List ℕ
  pub explored_states : ℕ
  pub budget_exhausted : Bool

unfoldable pub checker_stats : LinearizabilityResult → CheckerStats
checker_stats (linearizable order) = record {
  witness_order = order;
  conflict = [];
  minimal = [];
  explored_states = 0;
  budget_exhausted = false;
}
checker_stats (not_linearizable conflict minimal_subhistory explored_states budget_exhausted) =
    record {
      witness_order = [];
      conflict = conflict_ops conflict;
      minimal = minimal_subhistory;
      explored_states = explored_states;
      budget_exhausted = budget_exhausted;
    }
checker_stats (inconclusive explored_states budget_exhausted) = record {
  witness_order = [];
  conflict = [];
  minimal = [];
  explored_states = explored_states;
  budget_exhausted = budget_exhausted;
}

abbrev pub times_of : {I O : Type 0} → OpRecord I O → Times
times_of op = (op.invoke, op.complete)

module _ (model : Model) ⦃same_state : Eq model.State⦄ ⦃same_output : Eq model.Output⦄ where
  abbrev pub Op : Type 0
  Op = OpRecord model.Input model.Output

  -- The operation applied in a state, when its observed output is the expected one.
  unfoldable pub matching : model.State → Op → Option model.State
  matching state op = elim op.output [
    | none ↦ none
    | some observed ↦ elim (model.step state op.input) [
      | none ↦ none
      | some (next_state, expected) ↦
          if same_output.beq expected observed then some next_state else none
    ]
  ]

  module _ (ops : List Op) (max_steps : ℕ) where
    abbrev pub Call : Type 0
    Call = List Bool → List ℕ → model.State → Search model.State → Found model.State

    unfoldable pub apply_at : ℕ → model.State → Option model.State
    apply_at idx state = elim (get_elem? ops idx) [ none ↦ none | some op ↦ matching state op ]

    unfoldable pub id_at : ℕ → ℕ
    id_at idx = elim (get_elem? ops idx) [ none ↦ 0 | some op ↦ op.id ]

    -- The loop of `dfs` over the operations, `call` for its recursive call.
    unfoldable pub try_each :
        Call → List ℕ → List Bool → List ℕ → model.State → Search model.State → Found model.State
    try_each call [] used order state s = (none, s)
    try_each call (idx ∷ rest) used order state s = elim (blocked (map times_of ops) used idx) [
      | true ↦ try_each call rest used order state s
      | false ↦ elim (apply_at idx state) [
        | none ↦ try_each call rest used order state s
        | some next_state ↦
            let (found, s') = call (set used idx true) (order ++ id_at idx ∷ []) next_state s in
            elim found [ some o ↦ (some o, s') | none ↦ try_each call rest used order state s' ]
      ]
    ]

    abbrev pub visit : List Bool → model.State → Search model.State → Search model.State
    visit used state s = record {
      explored = suc s.explored;
      inconclusive = s.inconclusive;
      seen = s.seen ++ (used, state) ∷ [];
    }

    abbrev pub give_up : Search model.State → Search model.State
    give_up s = record { explored = s.explored; inconclusive = true; seen = s.seen }

    unfoldable pub dfs : ℕ → Call
    dfs zero used order state s = (none, s)
    dfs (suc fuel) used order state s = elim (length order == length ops) [
      | true ↦ (some order, s)
      | false ↦ elim (leb max_steps s.explored) [
        | true ↦ (none, give_up s)
        | false ↦ elim (seen_before s.seen used state) [
          | true ↦ (none, s)
          | false ↦ try_each (dfs fuel) (range 0 (length ops)) used order state (visit used state s)
        ]
      ]
    ]

    abbrev pub no_search : Search model.State
    no_search = record { explored = 0; inconclusive = false; seen = [] }

    -- One level of the search for each operation, and the last one.
    unfoldable pub run_search : Found model.State
    run_search = dfs (suc (length ops)) (replicate (length ops) false) [] model.init no_search

  -- Taking operation `pos` away while a failure stays, from `pos` on; `fuel` bounds the steps.
  unfoldable pub minimize_from : ℕ → ℕ → List Op → ℕ → List Op
  minimize_from zero max_steps keep pos = keep
  minimize_from (suc fuel) max_steps keep pos = elim (ltb pos (length keep)) [
    | false ↦ keep
    | true ↦
        let candidate = remove_at pos keep in
        elim (length candidate == 0) [
          | true ↦ minimize_from fuel max_steps keep (suc pos)
          | false ↦
              let (found, search) = run_search candidate max_steps in
              elim (not (is_some found) && not search.inconclusive) [
                | true ↦ minimize_from fuel max_steps candidate pos
                | false ↦ minimize_from fuel max_steps keep (suc pos)
              ]
        ]
  ]

  -- Each step moves `pos` or shortens `keep`.
  unfoldable pub minimize_failure : List Op → ℕ → List Op
  minimize_failure ops max_steps = minimize_from (suc (length ops)) max_steps ops 0

  abbrev pub ids : List Op → List ℕ
  ids ops = map (λ op. op.id) ops

  unfoldable pub check_linearizable_with_budget : List Op → CheckBudget → LinearizabilityResult
  check_linearizable_with_budget history budget =
      let ops = filter is_complete history in
      let (found, search) = run_search ops budget.max_steps in
      if search.inconclusive
      then LinearizabilityResult.inconclusive search.explored true
      else elim found [
        | some order ↦ linearizable order
        | none ↦
            let minimal_subhistory = ids (minimize_failure ops budget.max_steps) in
            not_linearizable (conflict_of minimal_subhistory) minimal_subhistory search.explored
              false
      ]
