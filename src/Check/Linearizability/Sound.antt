-- ===== src/Check/Linearizability/Sound.antt =====
-- The order that the search returns is a linearization.
use detersim.Prelude.{
  ℕ, zero, suc, ◌<◌, ◌≡◌, sym, ◌∙◌, Bool, true, false, some, List, [], ◌∷◌, ◌++◌, map, append_assoc,
  length, replicate, set, range, All, leb, ◌==◌, arith, Bool-cases, inl, inr, Option-cases, Eq,
  append-nil,
}
use detersim.Check.{Model}
use detersim.Check.Space.{count_used, used_of_count, Extends, IsLegalOrder}
use detersim.Check.Space.Orders.{IsLegalOrder-iff}
use detersim.Check.Linearizability.{
  Op, Call, try_each, dfs, visit, run_search, apply_at, id_at, no_search, times_of,
}
use detersim.Check.Search.{Search, blocked, seen_before}
use detersim.Check.Search.Points.{IsPoint, IsPoint-set, IsPoint-start, all-inside}
use detersim.Check.Linearizability.Memo.{before, blocked→Enabled}

module _ (model : Model) ⦃same_state : Eq model.State⦄ ⦃same_output : Eq model.Output⦄
    (ops : List (Op model)) (max_steps : ℕ) where
  abbrev State' : Type 0
  State' = model.State

  abbrev pub Path' : List Bool → State' → List ℕ → Type 0
  Path' = Extends (length ops) (before model ops max_steps) (apply_at model ops max_steps)

  -- The order that is returned continues the one given along a path to the goal.
  abbrev Continues : List Bool → List ℕ → State' → List ℕ → Type 0
  Continues used order state found =
      (is : List ℕ) × Path' used state is × (found ≡ order ++ map (id_at model ops max_steps) is)

  abbrev IsSound : Call model ops max_steps → Type 0
  IsSound call =
      (used : List Bool) (order : List ℕ) (state : State') (s : Search State') (found : List ℕ)
      → IsPoint (length ops) used order
      → (call used order state s).0 ≡ some found
      → Continues used order state found

  try_each-IsSound :
      (call : Call model ops max_steps)
      → IsSound call
      → (is : List ℕ) → All (λ i. i < length ops) is
      → IsSound (λ used order state s. try_each model ops max_steps call is used order state s)
  unfolding try_each
  try_each-IsSound call sound [] inside used order state s found p r = absurd (ground arith)
  try_each-IsSound call sound (i ∷ is) inside used order state s found p r =
      let skip = λ (s' : Search State').
        λ (q : (try_each model ops max_steps call is used order state s').0 ≡ some found).
          try_each-IsSound call sound is inside.1 used order state s' found p q in
      let id = id_at model ops max_steps i in
      elim (Bool-cases (blocked (map times_of ops) used i)) [
        | inl b ↦ skip s (rw (b, try_each) at r)
        | inr b ↦ elim (Option-cases (apply_at model ops max_steps i state)) [
          | inl a ↦ skip s (rw (b, a, try_each) at r)
          | inr (next, a) ↦
              let r' = rw (b, a, try_each) at r in
              let en = blocked→Enabled model ops max_steps used i inside.0 b in
              let deeper = call (set used i true) (order ++ id ∷ []) next s in
              elim (Option-cases deeper.0) [
                | inl miss ↦ skip deeper.1 (rw miss at r')
                | inr (o, hit) ↦
                    let same : o ≡ found = ground (arith, rw hit at r') in
                    let (is', path, e) =
                      sound (set used i true) (order ++ id ∷ []) next s o
                        (IsPoint-set (length ops) used order i id p inside.0 en.1) hit in
                    (
                      i ∷ is',
                      (en, (next, a, path)),
                      sym same
                          ∙ e
                          ∙ append_assoc order (id ∷ []) (map (id_at model ops max_steps) is'),
                    )
              ]
        ]
      ]

  dfs-IsSound : (fuel : ℕ) → IsSound (dfs model ops max_steps fuel)
  unfolding dfs
  dfs-IsSound zero used order state s found p r = absurd (ground arith)
  dfs-IsSound (suc fuel) used order state s found p r =
      elim (Bool-cases (length order == length ops)) [
        | inl full ↦
            let same : order ≡ found = ground (arith, rw (full, dfs) at r) in
            let n : count_used used ≡ length used = ground (arith, p, full) in
            (
              [],
              λ j h. used_of_count used j n (omega (arith, p, h)),
              sym same ∙ sym (append-nil order),
            )
        | inr more ↦ elim (Bool-cases (leb max_steps s.explored)) [
          | inl spent ↦ absurd (ground (arith, rw (more, spent, dfs) at r))
          | inr left ↦ elim (Bool-cases (seen_before s.seen used state)) [
            | inl known ↦ absurd (ground (arith, rw (more, left, known, dfs) at r))
            | inr fresh ↦
                try_each-IsSound (dfs model ops max_steps fuel) (dfs-IsSound fuel)
                  (range 0 (length ops)) (all-inside (length ops)) used order state
                  (visit model ops max_steps used state s) found p
                  (rw (more, left, fresh, dfs) at r)
          ]
        ]
      ]

  -- The identities of a legal order of the operations are what the search returns.
  pub run_search-IsSound :
      (found : List ℕ)
      → (run_search model ops max_steps).0 ≡ some found
      → (is : List ℕ) × IsLegalOrder
          (length ops)
          (before model ops max_steps)
          (apply_at model ops max_steps)
          model.init
          is
        × (found ≡ map (id_at model ops max_steps) is)
  unfolding run_search
  run_search-IsSound found r =
      let (is, path, e) =
        dfs-IsSound (suc (length ops)) (replicate (length ops) false) [] model.init
          (no_search model ops max_steps) found (IsPoint-start (length ops)) r in
      (is, (IsLegalOrder-iff (length ops) _ _ (λ i. ground arith) model.init is).1 path, e)
