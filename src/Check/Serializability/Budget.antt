-- ===== src/Check/Serializability/Budget.antt =====
-- The search for a serial order gives up only when its steps are spent.
use detersim.Prelude.{
  ℕ, zero, suc, ◌≤◌, ◌≡◌, Bool, true, false, List, [], ◌∷◌, ◌++◌, map, length, replicate, set,
  range, all, leb, arith, Bool-cases, inl, inr, Option-cases, Eq, Map, none, map_eq,
}
use detersim.Check.Search.{Search, Found, blocked, seen_before}
use detersim.Check.Serializability.{
  TxnOpRecord, Call, try_each, dfs, mark, count_step, run_search, apply_at, id_at, no_search,
  txn_times,
}

module _ {V : Type 0} ⦃same : Eq V⦄ (txns : List (TxnOpRecord V)) (max_steps : ℕ) where
  abbrev IsSpent : Search (Map V) → Type 0
  IsSpent s = s.inconclusive ≡ true → max_steps ≤ s.explored

  abbrev Keeps : Call txns → Type 0
  Keeps call =
      (used : List Bool) (order : List ℕ) (state : Map V) (s : Search (Map V))
      → IsSpent s
      → IsSpent (call used order state s).1

  try_each-Keeps :
      (call : Call txns)
      → Keeps call
      → (is : List ℕ) → Keeps (λ used order state s. try_each txns call is used order state s)
  unfolding try_each
  try_each-Keeps call keeps [] used order state s h = h
  try_each-Keeps call keeps (i ∷ is) used order state s h =
      let after = λ (s' : Search (Map V)) (out_of_steps : Bool).
        let result : Found (Map V) = elim out_of_steps [
          | true ↦ (none, s')
          | false ↦ try_each txns call is used order state s'
        ] in
        result in
      let counted : IsSpent (count_step txns s) =
        λ gave_up. let w = h gave_up in omega (arith, w) in
      elim (Bool-cases (blocked (map txn_times txns) used i)) [
        | inl b ↦ rw (b, try_each) (try_each-Keeps call keeps is used order state s h)
        | inr b ↦ elim (Option-cases (apply_at txns i state)) [
          | inl a ↦
              rw (b, a, try_each)
                (try_each-Keeps call keeps is used order state (count_step txns s) counted)
          | inr (next, a) ↦
              let order' = order ++ id_at txns i ∷ [] in
              let deeper = call (set used i true) order' next (count_step txns s) in
              let kept = keeps (set used i true) order' next (count_step txns s) counted in
              let rest = try_each-Keeps call keeps is used order state deeper.1 kept in
              elim (Option-cases deeper.0) [
                | inl miss ↦
                    let either = elim deeper.1.inconclusive as (λ c. IsSpent (after deeper.1 c).1) [
                      | true ↦ kept
                      | false ↦ rest
                    ] in
                    rw (b, a, try_each, miss) either
                | inr (o, hit) ↦ rw (b, a, try_each, hit) kept
              ]
        ]
      ]

  dfs-Keeps : (fuel : ℕ) → Keeps (dfs txns fuel max_steps)
  unfolding dfs
  dfs-Keeps zero used order state s h = h
  dfs-Keeps (suc fuel) used order state s h = elim (Bool-cases (leb max_steps s.explored)) [
    | inl spent ↦ let le : max_steps ≤ s.explored = ground arith in rw (spent, dfs) (λ _. le)
    | inr left ↦ elim (Bool-cases (all (λ u. u) used)) [
      | inl full ↦ rw (left, full, dfs) h
      | inr more ↦ elim (Bool-cases (seen_before s.seen used state)) [
        | inl known ↦ rw (left, more, known, dfs) h
        | inr fresh ↦
            rw (left, more, fresh, dfs)
              (try_each-Keeps (dfs txns fuel max_steps) (dfs-Keeps fuel) (range 0 (length txns))
                used order state (mark txns used state s) h)
      ]
    ]
  ]

  pub run_search-IsSpent :
      (initial : Map V)
      → (run_search txns max_steps initial).1.inconclusive ≡ true
      → max_steps ≤ (run_search txns max_steps initial).1.explored
  unfolding run_search
  run_search-IsSpent initial =
      dfs-Keeps (suc (length txns)) (replicate (length txns) false) [] initial (no_search txns)
        (λ e. absurd (ground arith))
