-- ===== src/Check/Linearizability/Budget.antt =====
-- The budget of the search: it never explores more, and it gives up only when it is spent.
use detersim.Prelude.{
  map, ℕ, zero, suc, ◌≤◌, ◌≡◌, Bool, true, false, List, [], ◌∷◌, ◌++◌, length, replicate, set,
  range, leb, ◌==◌, arith, Bool-cases, inl, inr, Option-cases, Eq,
}
use detersim.Check.{Model}
use detersim.Check.Linearizability.{
  Op, Call, try_each, dfs, visit, run_search, apply_at, id_at, no_search, times_of,
}
use detersim.Check.Search.{Search, blocked, seen_before}

module _ (model : Model) ⦃same_state : Eq model.State⦄ ⦃same_output : Eq model.Output⦄
    (ops : List (Op model)) (max_steps : ℕ) where
  abbrev IsWithin : Search model.State → Type 0
  IsWithin s = (s.explored ≤ max_steps) × (s.inconclusive ≡ true → max_steps ≤ s.explored)

  abbrev Keeps : Call model ops max_steps → Type 0
  Keeps call =
      (used : List Bool) (order : List ℕ) (state : model.State) (s : Search model.State)
      → IsWithin s
      → IsWithin (call used order state s).1

  try_each-Keeps :
      (call : Call model ops max_steps)
      → Keeps call
      → (is : List ℕ)
      → Keeps (λ used order state s. try_each model ops max_steps call is used order state s)
  unfolding try_each
  try_each-Keeps call keeps [] used order state s h = h
  try_each-Keeps call keeps (i ∷ is) used order state s h =
      elim (Bool-cases (blocked (map times_of ops) used i)) [
        | inl b ↦ rw (b, try_each) (try_each-Keeps call keeps is used order state s h)
        | inr b ↦ elim (Option-cases (apply_at model ops max_steps i state)) [
          | inl a ↦ rw (b, a, try_each) (try_each-Keeps call keeps is used order state s h)
          | inr (next, a) ↦
              let order' = order ++ id_at model ops max_steps i ∷ [] in
              let deeper = call (set used i true) order' next s in
              let kept = keeps (set used i true) order' next s h in
              elim (Option-cases deeper.0) [
                | inl miss ↦
                    rw (b, a, try_each, miss)
                      (try_each-Keeps call keeps is used order state deeper.1 kept)
                | inr (o, hit) ↦ rw (b, a, try_each, hit) kept
              ]
        ]
      ]

  dfs-Keeps : (fuel : ℕ) → Keeps (dfs model ops max_steps fuel)
  unfolding dfs
  dfs-Keeps zero used order state s h = h
  dfs-Keeps (suc fuel) used order state s h = elim (Bool-cases (length order == length ops)) [
    | inl full ↦ rw (full, dfs) h
    | inr more ↦ elim (Bool-cases (leb max_steps s.explored)) [
      | inl spent ↦
          let le : max_steps ≤ s.explored = ground arith in rw (more, spent, dfs) (h.0, λ _. le)
      | inr left ↦ elim (Bool-cases (seen_before s.seen used state)) [
        | inl known ↦ rw (more, left, known, dfs) h
        | inr fresh ↦
            rw (more, left, fresh, dfs)
              (try_each-Keeps (dfs model ops max_steps fuel) (dfs-Keeps fuel) (range 0 (length ops))
                used order state (visit model ops max_steps used state s)
                (ground arith, λ gave_up. let w = h.1 gave_up in ground arith))
      ]
    ]
  ]

  pub run_search-IsWithin :
      let s = (run_search model ops max_steps).1 in
      (s.explored ≤ max_steps) × (s.inconclusive ≡ true → max_steps ≤ s.explored)
  unfolding run_search
  run_search-IsWithin =
      dfs-Keeps (suc (length ops)) (replicate (length ops) false) [] model.init
        (no_search model ops max_steps) (omega arith, λ e. absurd (ground arith))
