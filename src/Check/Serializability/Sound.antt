-- ===== src/Check/Serializability/Sound.antt =====
-- The order that the search returns is a legal serial order.
use detersim.Prelude.{
  ℕ, zero, suc, ◌<◌, ◌≡◌, sym, ◌∙◌, Bool, true, false, some, List, [], ◌∷◌, ◌++◌, map, append_assoc,
  length, replicate, set, range, All, all, leb, arith, Bool-cases, inl, inr, Option-cases, Eq,
  append-nil, Map, map_eq,
}
use detersim.Check.Space.{used_of_count, Extends, IsLegalOrder}
use detersim.Check.Space.Orders.{IsLegalOrder-iff}
use detersim.Check.Search.{Search, blocked, seen_before}
use detersim.Check.Search.Points
use detersim.Check.Search.Points.{
  IsPoint, IsPoint-set, IsPoint-start, all-inside, all-count_used, real_time,
}
use detersim.Check.Serializability.{
  TxnOpRecord, Call, try_each, dfs, mark, count_step, run_search, apply_at, id_at, no_search,
  txn_times,
}

module _ {V : Type 0} ⦃same : Eq V⦄ (txns : List (TxnOpRecord V)) (max_steps : ℕ) where
  -- The real-time order of the transactions.
  abbrev pub before : ℕ → ℕ → Bool
  before = real_time (map txn_times txns)

  abbrev pub Path' : List Bool → Map V → List ℕ → Type 0
  Path' = Extends (length txns) before (apply_at txns)

  -- The order that is returned continues the one given along a path to the goal.
  abbrev Continues : List Bool → List ℕ → Map V → List ℕ → Type 0
  Continues used order state found =
      (is : List ℕ) × Path' used state is × (found ≡ order ++ map (id_at txns) is)

  abbrev IsSound : Call txns → Type 0
  IsSound call =
      (used : List Bool) (order : List ℕ) (state : Map V) (s : Search (Map V)) (found : List ℕ)
      → IsPoint (length txns) used order
      → (call used order state s).0 ≡ some found
      → Continues used order state found

  try_each-IsSound :
      (call : Call txns)
      → IsSound call
      → (is : List ℕ) → All (λ i. i < length txns) is
      → IsSound (λ used order state s. try_each txns call is used order state s)
  unfolding try_each
  try_each-IsSound call sound [] inside used order state s found p r = absurd (ground arith)
  try_each-IsSound call sound (i ∷ is) inside used order state s found p r =
      let skip = λ (s' : Search (Map V)).
        λ (q : (try_each txns call is used order state s').0 ≡ some found).
          try_each-IsSound call sound is inside.1 used order state s' found p q in
      let id = id_at txns i in
      let s1 = count_step txns s in
      elim (Bool-cases (blocked (map txn_times txns) used i)) [
        | inl b ↦ skip s (rw (b, try_each) at r)
        | inr b ↦ elim (Option-cases (apply_at txns i state)) [
          | inl a ↦ skip s1 (rw (b, a, try_each) at r)
          | inr (next, a) ↦
              let r' = rw (b, a, try_each) at r in
              let en = Points.blocked→Enabled txn_times txns (apply_at txns) used i inside.0 b in
              let deeper = call (set used i true) (order ++ id ∷ []) next s1 in
              elim (Option-cases deeper.0) [
                | inl miss ↦ elim (Bool-cases deeper.1.inconclusive) [
                  | inl spent ↦ absurd (ground (arith, rw (miss, spent) at r'))
                  | inr left ↦ skip deeper.1 (rw (miss, left) at r')
                ]
                | inr (o, hit) ↦
                    let same' : o ≡ found = ground (arith, rw hit at r') in
                    let (is', path, e) =
                      sound (set used i true) (order ++ id ∷ []) next s1 o
                        (IsPoint-set (length txns) used order i id p inside.0 en.1) hit in
                    (
                      i ∷ is',
                      (en, (next, a, path)),
                      sym same' ∙ e ∙ append_assoc order (id ∷ []) (map (id_at txns) is'),
                    )
              ]
        ]
      ]

  dfs-IsSound : (fuel : ℕ) → IsSound (dfs txns fuel max_steps)
  unfolding dfs
  dfs-IsSound zero used order state s found p r = absurd (ground arith)
  dfs-IsSound (suc fuel) used order state s found p r =
      elim (Bool-cases (leb max_steps s.explored)) [
        | inl spent ↦ absurd (ground (arith, rw (spent, dfs) at r))
        | inr left ↦ elim (Bool-cases (all (λ u. u) used)) [
          | inl full ↦
              let same' : order ≡ found = ground (arith, rw (left, full, dfs) at r) in
              let n = (all-count_used used).0 full in
              (
                [],
                λ j h. used_of_count used j n (omega (arith, p, h)),
                sym same' ∙ sym (append-nil order),
              )
          | inr more ↦ elim (Bool-cases (seen_before s.seen used state)) [
            | inl known ↦ absurd (ground (arith, rw (left, more, known, dfs) at r))
            | inr fresh ↦
                try_each-IsSound (dfs txns fuel max_steps) (dfs-IsSound fuel)
                  (range 0 (length txns)) (all-inside (length txns)) used order state
                  (mark txns used state s) found p (rw (left, more, fresh, dfs) at r)
          ]
        ]
      ]

  -- The identities of a legal order of the transactions are what the search returns.
  pub run_search-IsSound :
      (initial : Map V) (found : List ℕ)
      → (run_search txns max_steps initial).0 ≡ some found
      → (is : List ℕ) × IsLegalOrder (length txns) before (apply_at txns) initial is
        × (found ≡ map (id_at txns) is)
  unfolding run_search
  run_search-IsSound initial found r =
      let (is, path, e) =
        dfs-IsSound (suc (length txns)) (replicate (length txns) false) [] initial (no_search txns)
          found (IsPoint-start (length txns)) r in
      (
        is,
        (IsLegalOrder-iff (length txns) before (apply_at txns) (λ i. ground arith) initial is).1
            path,
        e,
      )
