-- ===== src/Check/Serializability/Complete.antt =====
-- A search that ends without an order, within its budget, has seen that there is none.
use detersim.Prelude.{
  ℕ, zero, suc, ◌+◌, ◌<◌, ◌≡◌, refl, subst, sym, ap, ◌∙◌, Bool, true, false, ◌⊎◌, none, List, [],
  ◌∷◌, ◌++◌, map, length, replicate, set, range, All, all, All-imp, All-append, leb, arith,
  Bool-cases, inl, inr, Option-cases, Eq, Map, map_eq,
}
use detersim.Check.Space.{
  count_used, count_used-set, count_used-le, count_used-replicate, Dead, IsLegalOrder,
}
use detersim.Check.Space.Orders.{IsLegalOrder-iff}
use detersim.Check.Search.{Search, Found, blocked, seen_before}
use detersim.Check.Search.Points
use detersim.Check.Search.Points.{
  seen_before-All, IsPoint, IsPoint-set, IsPoint-start, all-inside, all-count_used,
}
use detersim.Check.Serializability.{
  TxnOpRecord, Call, try_each, dfs, mark, count_step, run_search, apply_at, id_at, no_search,
  txn_times,
}
use detersim.Check.Serializability.Sound.{before, Path'}

module _ {V : Type 0} ⦃same : Eq V⦄ (txns : List (TxnOpRecord V)) (max_steps : ℕ) where
  abbrev Point : Type 0
  Point = List Bool × Map V

  abbrev IsDead : List Bool → Map V → Type 0
  IsDead = Dead (length txns) (before txns max_steps) (apply_at txns)

  -- The table holds dead ends and points that are still on the stack.
  abbrev Table : (Point → Type 0) → Search (Map V) → Type 0
  Table P s = All (λ (e : Point). IsDead e.0 e.1 ⊎ P e) s.seen

  -- No order, within the budget: a dead end, and the table is as good as it was.
  abbrev IsComplete : Call txns → ℕ → Type 1
  IsComplete call depth =
      (P : Point → Type 0) (used : List Bool) (order : List ℕ) (state : Map V) (s : Search (Map V))
      → IsPoint (length txns) used order
      → length txns < depth + count_used used
      → ((e : Point) → P e → count_used e.0 < count_used used)
      → Table P s
      → (call used order state s).0 ≡ none
      → (call used order state s).1.inconclusive ≡ false
      → IsDead used state × Table P (call used order state s).1

  abbrev Closed : List Bool → Map V → ℕ → Type 0
  Closed = Points.Closed (length txns) (before txns max_steps) (apply_at txns)

  try_each-Closed :
      (call : Call txns) (depth : ℕ)
      → IsComplete call depth
      → (is : List ℕ) (P : Point → Type 0) (used : List Bool) (order : List ℕ) (state : Map V)
        (s : Search (Map V))
      → All (λ i. i < length txns) is
      → IsPoint (length txns) used order
      → length txns < depth + suc (count_used used)
      → ((e : Point) → P e → count_used e.0 < suc (count_used used))
      → Table P s
      → let r = try_each txns call is used order state s in
        r.0 ≡ none → r.1.inconclusive ≡ false → All (Closed used state) is × Table P r.1
  unfolding try_each
  try_each-Closed call depth complete [] P used order state s inside p d small t q c = (tt, t)
  try_each-Closed call depth complete (i ∷ is) P used order state s inside p d small t q c =
      let id = id_at txns i in
      let s1 = count_step txns s in
      let now = try_each txns call (i ∷ is) used order state s in
      let after = λ (s' : Search (Map V)) (out_of_steps : Bool).
        let result : Found (Map V) = elim out_of_steps [
          | true ↦ (none, s')
          | false ↦ try_each txns call is used order state s'
        ] in
        result in
      let skip = λ (s' : Search (Map V)) (t' : Table P s') (shut : Closed used state i).
        λ (e : now ≡ try_each txns call is used order state s').
          let rest =
            try_each-Closed call depth complete is P used order state s' inside.1 p d small t'
              (sym (ap (λ r. r.0) e) ∙ q) (sym (ap (λ r. r.1.inconclusive) e) ∙ c) in
          let out : All (Closed used state) (i ∷ is) × Table P now.1 = (
            (shut, rest.0),
            subst (λ (r : Search (Map V)). Table P r) (sym (ap (λ r. r.1) e)) rest.1,
          ) in
          out in
      elim (Bool-cases (blocked (map txn_times txns) used i)) [
        | inl b ↦
            skip s t
              (λ js path.
                let open' = Points.Enabled→blocked txn_times txns (apply_at txns) used i path.0 in
                absurd (ground (arith, open', b)))
              (rw (b, try_each) refl)
        | inr b ↦ elim (Option-cases (apply_at txns i state)) [
          | inl a ↦
              skip s1 t (λ js path. absurd (ground (arith, path.1.1, a))) (rw (b, a, try_each) refl)
          | inr (next, a) ↦
              let used' = set used i true in
              let order' = order ++ id ∷ [] in
              let en = Points.blocked→Enabled txn_times txns (apply_at txns) used i inside.0 b in
              let more = count_used-set used i (omega (arith, p, inside)) en.1 in
              let deeper = call used' order' next s1 in
              elim (Option-cases deeper.0) [
                | inr (o, hit) ↦ absurd (ground (arith, rw (b, a, try_each, hit) at q))
                | inl miss ↦ elim (Bool-cases deeper.1.inconclusive) [
                  | inl spent ↦
                      absurd (ground (arith, spent, rw (b, a, try_each, miss, spent) at c))
                  | inr in_budget ↦
                      let (dead, t') =
                        complete P used' order' next s1
                          (IsPoint-set (length txns) used order i id p inside.0 en.1)
                          (omega (arith, d, more))
                          (λ e h. let k = small e h in omega (arith, k, more)) t miss in_budget in
                      skip deeper.1 t'
                        (λ js path.
                          let same : path.1.0 ≡ next = ground (arith, path.1.1, a) in
                          dead js
                            (subst (λ (u : Map V). Path' txns max_steps used' u js) same path.1.2))
                        ((let step : now ≡ after deeper.1 deeper.1.inconclusive =
                              rw (b, a, try_each, miss) refl in
                            step)
                          ∙ ap (after deeper.1) in_budget)
                ]
              ]
        ]
      ]

  -- A visited point whose operations were all tried.
  visit_complete :
      (call : Call txns) (depth : ℕ)
      → IsComplete call depth
      → (P : Point → Type 0) (used : List Bool) (order : List ℕ) (state : Map V)
        (s : Search (Map V))
      → IsPoint (length txns) used order
      → all (λ u. u) used ≡ false
      → length txns < suc depth + count_used used
      → ((e : Point) → P e → count_used e.0 < count_used used)
      → Table P s
      → let r =
          try_each txns call (range 0 (length txns)) used order state (mark txns used state s) in
        r.0 ≡ none → r.1.inconclusive ≡ false → IsDead used state × Table P r.1
  visit_complete call depth complete P used order state s p more d small t q c =
      let P' = λ (e : Point). P e ⊎ (e ≡ (used, state)) in
      let s' = mark txns used state s in
      let weaker =
        All-imp _ (λ (e : Point). IsDead e.0 e.1 ⊎ P' e) s.seen
          (λ e h. elim h [ inl dead ↦ inl dead | inr pending ↦ inr (inl pending) ]) t in
      let t' : Table P' s' = All-append _ s.seen ((used, state) ∷ []) weaker (inr (inr refl), tt) in
      let (closed, table) =
        try_each-Closed call depth complete (range 0 (length txns)) P' used order state s'
          (all-inside (length txns)) p (omega (arith, d))
          (λ e h. elim h [
            | inl pending ↦ let k = small e pending in omega (arith, k)
            | inr same ↦ let k = ap (λ (z : Point). count_used z.0) same in omega (arith, k)
          ])
          t' q c in
      let dead =
        Points.Closed-IsDead (length txns) (before txns max_steps) (apply_at txns) used state p.0
          (λ full.
            absurd (let k = (all-count_used used).1 (full ∙ sym p.0) in ground (arith, k, more)))
          closed in
      (
        dead,
        All-imp _ (λ (e : Point). IsDead e.0 e.1 ⊎ P e)
            (try_each txns call (range 0 (length txns)) used order state s').1.seen
            (λ e h. elim h [
              | inl gone ↦ inl gone
              | inr pending ↦ elim pending [
                | inl pe ↦ inr pe
                | inr same ↦ inl (subst (λ (z : Point). IsDead z.0 z.1) (sym same) dead)
              ]
            ])
            table,
      )

  dfs-IsComplete : (fuel : ℕ) → IsComplete (dfs txns fuel max_steps) fuel
  unfolding dfs
  dfs-IsComplete zero P used order state s p d small t q c =
      absurd (let n = count_used-le used in omega (arith, n, p, d))
  dfs-IsComplete (suc fuel) P used order state s p d small t q c =
      elim (Bool-cases (leb max_steps s.explored)) [
        | inl spent ↦ absurd (ground (arith, rw (spent, dfs) at c))
        | inr left ↦ elim (Bool-cases (all (λ u. u) used)) [
          | inl full ↦ absurd (ground (arith, rw (left, full, dfs) at q))
          | inr more ↦ elim (Bool-cases (seen_before s.seen used state)) [
            | inl known ↦
                let dead : IsDead used state =
                  elim (seen_before-All (λ e. IsDead e.0 e.1 ⊎ P e) s.seen used state t known) [
                    | inl dead ↦ dead
                    | inr pending ↦ absurd (let k = small (used, state) pending in omega (arith, k))
                  ] in
                rw (left, more, known, dfs) (dead, t)
            | inr fresh ↦
                let r =
                  visit_complete (dfs txns fuel max_steps) fuel (dfs-IsComplete fuel) P used order
                    state s p more d small t (rw (left, more, fresh, dfs) at q)
                    (rw (left, more, fresh, dfs) at c) in
                rw (left, more, fresh, dfs) r
          ]
        ]
      ]

  -- A search that returns no order within its budget: no order of the operations is legal.
  pub run_search-IsComplete :
      (initial : Map V)
      → (run_search txns max_steps initial).0 ≡ none
      → (run_search txns max_steps initial).1.inconclusive ≡ false
      → (is : List ℕ)
      → ¬ IsLegalOrder (length txns) (before txns max_steps) (apply_at txns) initial is
  unfolding run_search
  run_search-IsComplete initial q c is legal =
      let start = replicate (length txns) false in
      let path =
        (IsLegalOrder-iff (length txns) (before txns max_steps) (apply_at txns) (λ i. ground arith)
            initial is).0
          legal in
      let none_used = count_used-replicate (length txns) in
      (dfs-IsComplete (suc (length txns)) (λ e. ⊥) start [] initial (no_search txns)
          (IsPoint-start (length txns)) (omega (arith, none_used)) (λ e h. absurd h) tt q c).0
        is path
