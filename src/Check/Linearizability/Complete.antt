-- ===== src/Check/Linearizability/Complete.antt =====
-- A search that ends without an order, within its budget, has seen that there is none.
use detersim.Prelude.{
  map, ℕ, zero, suc, ◌+◌, ◌<◌, ◌≡◌, refl, subst, sym, ap, ◌∙◌, Bool, true, false, ◌⊎◌, none, List,
  [], ◌∷◌, ◌++◌, length, replicate, set, range, All, All-imp, All-append, leb, ◌==◌, arith,
  Bool-cases, inl, inr, Option-cases, Eq,
}
use detersim.Check.{Model}
use detersim.Check.Space.{
  count_used, count_used-set, count_used-le, count_used-replicate, Dead, IsLegalOrder,
}
use detersim.Check.Space.Orders.{IsLegalOrder-iff}
use detersim.Check.Linearizability.{
  Op, Call, try_each, dfs, visit, run_search, apply_at, id_at, no_search, times_of,
}
use detersim.Check.Search.{Search, blocked, seen_before}
use detersim.Check.Linearizability.Memo.{before, Enabled→blocked, blocked→Enabled}
use detersim.Check.Search.Points
use detersim.Check.Search.Points.{seen_before-All, IsPoint, IsPoint-set, IsPoint-start, all-inside}
use detersim.Check.Linearizability.Sound.{Path'}

module _ (model : Model) ⦃same_state : Eq model.State⦄ ⦃same_output : Eq model.Output⦄
    (ops : List (Op model)) (max_steps : ℕ) where
  abbrev State' : Type 0
  State' = model.State

  abbrev Point : Type 0
  Point = List Bool × State'

  abbrev IsDead : List Bool → State' → Type 0
  IsDead = Dead (length ops) (before model ops max_steps) (apply_at model ops max_steps)

  -- The table holds dead ends and points that are still on the stack.
  abbrev Table : (Point → Type 0) → Search State' → Type 0
  Table P s = All (λ (e : Point). IsDead e.0 e.1 ⊎ P e) s.seen

  -- Giving up is final.
  abbrev IsFinal : Call model ops max_steps → Type 0
  IsFinal call =
      (used : List Bool) (order : List ℕ) (state : State') (s : Search State')
      → s.inconclusive ≡ true
      → (call used order state s).1.inconclusive ≡ true

  -- No order, within the budget: a dead end, and the table is as good as it was.
  abbrev IsComplete : Call model ops max_steps → ℕ → Type 1
  IsComplete call depth =
      (P : Point → Type 0) (used : List Bool) (order : List ℕ) (state : State') (s : Search State')
      → IsPoint (length ops) used order
      → length ops < depth + count_used used
      → ((e : Point) → P e → count_used e.0 < count_used used)
      → Table P s
      → (call used order state s).0 ≡ none
      → (call used order state s).1.inconclusive ≡ false
      → IsDead used state × Table P (call used order state s).1

  try_each-IsFinal :
      (call : Call model ops max_steps)
      → IsFinal call
      → (is : List ℕ)
      → IsFinal (λ used order state s. try_each model ops max_steps call is used order state s)
  unfolding try_each
  try_each-IsFinal call final [] used order state s h = h
  try_each-IsFinal call final (i ∷ is) used order state s h =
      elim (Bool-cases (blocked (map times_of ops) used i)) [
        | inl b ↦ rw (b, try_each) (try_each-IsFinal call final is used order state s h)
        | inr b ↦ elim (Option-cases (apply_at model ops max_steps i state)) [
          | inl a ↦ rw (b, a, try_each) (try_each-IsFinal call final is used order state s h)
          | inr (next, a) ↦
              let id = id_at model ops max_steps i in
              let deeper = call (set used i true) (order ++ id ∷ []) next s in
              let given_up = final (set used i true) (order ++ id ∷ []) next s h in
              elim (Option-cases deeper.0) [
                | inl miss ↦
                    rw (b, a, try_each, miss)
                      (try_each-IsFinal call final is used order state deeper.1 given_up)
                | inr (o, hit) ↦ rw (b, a, try_each, hit) given_up
              ]
        ]
      ]

  dfs-IsFinal : (fuel : ℕ) → IsFinal (dfs model ops max_steps fuel)
  unfolding dfs
  dfs-IsFinal zero used order state s h = h
  dfs-IsFinal (suc fuel) used order state s h = elim (Bool-cases (length order == length ops)) [
    | inl full ↦ rw (full, dfs) h
    | inr more ↦ elim (Bool-cases (leb max_steps s.explored)) [
      | inl spent ↦ rw (more, spent, dfs) refl
      | inr left ↦ elim (Bool-cases (seen_before s.seen used state)) [
        | inl known ↦ rw (more, left, known, dfs) h
        | inr fresh ↦
            rw (more, left, fresh, dfs)
              (try_each-IsFinal (dfs model ops max_steps fuel) (dfs-IsFinal fuel)
                (range 0 (length ops)) used order state (visit model ops max_steps used state s) h)
      ]
    ]
  ]

  abbrev Closed : List Bool → State' → ℕ → Type 0
  Closed = Points.Closed (length ops) (before model ops max_steps) (apply_at model ops max_steps)

  try_each-Closed :
      (call : Call model ops max_steps) (depth : ℕ)
      → IsComplete call depth
      → IsFinal call
      → (is : List ℕ) (P : Point → Type 0) (used : List Bool) (order : List ℕ) (state : State')
        (s : Search State')
      → All (λ i. i < length ops) is
      → IsPoint (length ops) used order
      → length ops < depth + suc (count_used used)
      → ((e : Point) → P e → count_used e.0 < suc (count_used used))
      → Table P s
      → let r = try_each model ops max_steps call is used order state s in
        r.0 ≡ none → r.1.inconclusive ≡ false → All (Closed used state) is × Table P r.1
  unfolding try_each
  try_each-Closed call depth complete final [] P used order state s inside p d small t q c = (tt, t)
  try_each-Closed call depth complete final (i ∷ is) P used order state s inside p d small t q c =
      let id = id_at model ops max_steps i in
      let now = try_each model ops max_steps call (i ∷ is) used order state s in
      let skip = λ (s' : Search State') (t' : Table P s') (shut : Closed used state i).
        λ (e : now ≡ try_each model ops max_steps call is used order state s').
          let rest =
            try_each-Closed call depth complete final is P used order state s' inside.1 p d small t'
              (sym (ap (λ r. r.0) e) ∙ q) (sym (ap (λ r. r.1.inconclusive) e) ∙ c) in
          let out : All (Closed used state) (i ∷ is) × Table P now.1 = (
            (shut, rest.0),
            subst (λ (r : Search State'). Table P r) (sym (ap (λ r. r.1) e)) rest.1,
          ) in
          out in
      elim (Bool-cases (blocked (map times_of ops) used i)) [
        | inl b ↦
            skip s t
              (λ js path.
                let open' = Enabled→blocked model ops max_steps used i path.0 in
                absurd (ground (arith, open', b)))
              (rw (b, try_each) refl)
        | inr b ↦ elim (Option-cases (apply_at model ops max_steps i state)) [
          | inl a ↦
              skip s t (λ js path. absurd (ground (arith, path.1.1, a))) (rw (b, a, try_each) refl)
          | inr (next, a) ↦
              let used' = set used i true in
              let order' = order ++ id ∷ [] in
              let en = blocked→Enabled model ops max_steps used i inside.0 b in
              let more = count_used-set used i (omega (arith, p, inside)) en.1 in
              let deeper = call used' order' next s in
              elim (Option-cases deeper.0) [
                | inr (o, hit) ↦ absurd (ground (arith, rw (b, a, try_each, hit) at q))
                | inl miss ↦ elim (Bool-cases deeper.1.inconclusive) [
                  | inl spent ↦
                      let bad = try_each-IsFinal call final is used order state deeper.1 spent in
                      absurd (ground (arith, bad, rw (b, a, try_each, miss) at c))
                  | inr in_budget ↦
                      let (dead, t') =
                        complete P used' order' next s
                          (IsPoint-set (length ops) used order i id p inside.0 en.1)
                          (omega (arith, d, more))
                          (λ e h. let k = small e h in omega (arith, k, more)) t miss in_budget in
                      skip deeper.1 t'
                        (λ js path.
                          let same : path.1.0 ≡ next = ground (arith, path.1.1, a) in
                          dead js (
                            subst (λ (u : State'). Path' model ops max_steps used' u js) same
                              path.1.2))
                        (rw (b, a, try_each, miss) refl)
                ]
              ]
        ]
      ]

  -- A visited point whose operations were all tried.
  visit_complete :
      (call : Call model ops max_steps) (depth : ℕ)
      → IsComplete call depth
      → IsFinal call
      → (P : Point → Type 0) (used : List Bool) (order : List ℕ) (state : State')
        (s : Search State')
      → IsPoint (length ops) used order
      → (length order == length ops) ≡ false
      → length ops < suc depth + count_used used
      → ((e : Point) → P e → count_used e.0 < count_used used)
      → Table P s
      → let r =
          try_each model ops max_steps call
            (range 0 (length ops))
            used
            order
            state
            (visit model ops max_steps used state s) in
        r.0 ≡ none → r.1.inconclusive ≡ false → IsDead used state × Table P r.1
  visit_complete call depth complete final P used order state s p more d small t q c =
      let P' = λ (e : Point). P e ⊎ (e ≡ (used, state)) in
      let s' = visit model ops max_steps used state s in
      let weaker =
        All-imp _ (λ (e : Point). IsDead e.0 e.1 ⊎ P' e) s.seen
          (λ e h. elim h [ inl dead ↦ inl dead | inr pending ↦ inr (inl pending) ]) t in
      let t' : Table P' s' = All-append _ s.seen ((used, state) ∷ []) weaker (inr (inr refl), tt) in
      let (closed, table) =
        try_each-Closed call depth complete final (range 0 (length ops)) P' used order state s'
          (all-inside (length ops)) p (omega (arith, d))
          (λ e h. elim h [
            | inl pending ↦ let k = small e pending in omega (arith, k)
            | inr same ↦ let k = ap (λ (z : Point). count_used z.0) same in omega (arith, k)
          ])
          t' q c in
      let dead =
        Points.Closed-IsDead (length ops) (before model ops max_steps)
          (apply_at model ops max_steps) used state p.0
          (λ full. absurd (ground (arith, p, more, full))) closed in
      (
        dead,
        All-imp _ (λ (e : Point). IsDead e.0 e.1 ⊎ P e)
            (try_each model ops max_steps call (range 0 (length ops)) used order state s').1.seen
            (λ e h. elim h [
              | inl gone ↦ inl gone
              | inr pending ↦ elim pending [
                | inl pe ↦ inr pe
                | inr same ↦ inl (subst (λ (z : Point). IsDead z.0 z.1) (sym same) dead)
              ]
            ])
            table,
      )

  dfs-IsComplete : (fuel : ℕ) → IsComplete (dfs model ops max_steps fuel) fuel
  unfolding dfs
  dfs-IsComplete zero P used order state s p d small t q c =
      absurd (let n = count_used-le used in omega (arith, n, p, d))
  dfs-IsComplete (suc fuel) P used order state s p d small t q c =
      elim (Bool-cases (length order == length ops)) [
        | inl full ↦ absurd (ground (arith, rw (full, dfs) at q))
        | inr more ↦ elim (Bool-cases (leb max_steps s.explored)) [
          | inl spent ↦ absurd (ground (arith, rw (more, spent, dfs) at c))
          | inr left ↦ elim (Bool-cases (seen_before s.seen used state)) [
            | inl known ↦
                let dead : IsDead used state =
                  elim (seen_before-All (λ e. IsDead e.0 e.1 ⊎ P e) s.seen used state t known) [
                    | inl dead ↦ dead
                    | inr pending ↦ absurd (let k = small (used, state) pending in omega (arith, k))
                  ] in
                rw (more, left, known, dfs) (dead, t)
            | inr fresh ↦
                let r =
                  visit_complete (dfs model ops max_steps fuel) fuel (dfs-IsComplete fuel)
                    (dfs-IsFinal fuel) P used order state s p more d small t
                    (rw (more, left, fresh, dfs) at q) (rw (more, left, fresh, dfs) at c) in
                rw (more, left, fresh, dfs) r
          ]
        ]
      ]

  -- A search that returns no order within its budget: no order of the operations is legal.
  pub run_search-IsComplete :
      (run_search model ops max_steps).0 ≡ none
      → (run_search model ops max_steps).1.inconclusive ≡ false
      → (is : List ℕ)
      → ¬ IsLegalOrder
          (length ops)
          (before model ops max_steps)
          (apply_at model ops max_steps)
          model.init
          is
  unfolding run_search
  run_search-IsComplete q c is legal =
      let start = replicate (length ops) false in
      let path =
        (IsLegalOrder-iff (length ops) (before model ops max_steps) (apply_at model ops max_steps)
            (λ i. ground arith) model.init is).0
          legal in
      let none_used = count_used-replicate (length ops) in
      (dfs-IsComplete (suc (length ops)) (λ e. ⊥) start [] model.init
          (no_search model ops max_steps) (IsPoint-start (length ops)) (omega (arith, none_used))
          (λ e h. absurd h) tt q c).0
        is path
