-- ===== src/Check/Linearizability/Minimize.antt =====
-- What is left by the minimization of a failing history is a part of it that still fails.
use detersim.Prelude.{
  is_some, ℕ, zero, suc, ◌+◌, ◌-◌, ◌<◌, ◌≡◌, refl, Bool, true, false, not, ◌&&◌, none, List, length,
  remove_at, ltb, ◌==◌, arith, Bool-cases, inl, inr, Option-cases, Eq, length-remove_at,
}
use detersim.Prelude.Subseq.{Subseq, Subseq-refl, Subseq-trans, Subseq-remove_at}
use detersim.Check.{Model}
use detersim.Check.Linearizability.{Op, run_search, minimize_from, minimize_failure}

module _ (model : Model) ⦃same_state : Eq model.State⦄ ⦃same_output : Eq model.Output⦄
    (max_steps : ℕ) where
  -- The search ends within its budget and finds no order.
  abbrev pub Fails : List (Op model) → Type 0
  Fails ops =
      ((run_search model ops max_steps).0 ≡ none)
      × ((run_search model ops max_steps).1.inconclusive ≡ false)

  abbrev fails_test : List (Op model) → Bool
  fails_test ops =
      not (is_some (run_search model ops max_steps).0)
      && not (run_search model ops max_steps).1.inconclusive

  test-Fails : (ops : List (Op model)) → fails_test ops ≡ true → Fails ops
  test-Fails ops h = elim (Option-cases (run_search model ops max_steps).0) [
    | inl miss ↦ (miss, ground arith)
    | inr (o, hit) ↦ absurd (ground arith)
  ]

  -- A part of the history that fails.
  abbrev pub Part : List (Op model) → List (Op model) → Type 0
  Part ops keep = Subseq keep ops × Fails keep

  minimize_from-Part :
      (ops : List (Op model)) (fuel : ℕ) (keep : List (Op model)) (pos : ℕ)
      → Part ops keep
      → Part ops (minimize_from model fuel max_steps keep pos)
  unfolding minimize_from
  minimize_from-Part ops zero keep pos h = h
  minimize_from-Part ops (suc fuel) keep pos h = elim (Bool-cases (ltb pos (length keep))) [
    | inr end ↦ rw (end, minimize_from) h
    | inl go ↦ elim (Bool-cases (length (remove_at pos keep) == 0)) [
      | inl empty ↦ rw (go, empty, minimize_from) (minimize_from-Part ops fuel keep (suc pos) h)
      | inr full ↦ elim (Bool-cases (fails_test (remove_at pos keep))) [
        | inl f ↦
            rw (go, full, minimize_from, f)
              (minimize_from-Part ops fuel (remove_at pos keep) pos
                (Subseq-trans (Subseq-remove_at pos keep) h.0, test-Fails (remove_at pos keep) f))
        | inr f ↦ rw (go, full, minimize_from, f) (minimize_from-Part ops fuel keep (suc pos) h)
      ]
    ]
  ]

  pub minimize_failure-Part :
      (ops : List (Op model)) → Fails ops → Part ops (minimize_failure model ops max_steps)
  unfolding minimize_failure
  minimize_failure-Part ops h = minimize_from-Part ops (suc (length ops)) ops 0 (Subseq-refl ops, h)

  -- More fuel than operations are left to try changes nothing.
  pub minimize_from_fuel :
      (fuel more : ℕ) (keep : List (Op model)) (pos : ℕ)
      → length keep - pos < fuel
      → minimize_from model (fuel + more) max_steps keep pos
        ≡ minimize_from model fuel max_steps keep pos
  unfolding minimize_from
  minimize_from_fuel zero more keep pos h = absurd (omega arith)
  minimize_from_fuel (suc fuel) more keep pos h =
      let e : suc fuel + more ≡ suc (fuel + more) = omega arith in
      rw e (elim (Bool-cases (ltb pos (length keep))) [
        | inr end ↦ rw (end, minimize_from) refl
        | inl go ↦
            let lt : pos < length keep = ground arith in
            let next = minimize_from_fuel fuel more keep (suc pos) (omega (arith, lt, h)) in
            elim (Bool-cases (length (remove_at pos keep) == 0)) [
              | inl empty ↦ rw (go, empty, minimize_from) next
              | inr full ↦ elim (Bool-cases (fails_test (remove_at pos keep))) [
                | inr f ↦ rw (go, full, minimize_from, f) next
                | inl f ↦
                    let shorter = length-remove_at pos keep lt in
                    rw (go, full, minimize_from, f)
                      (minimize_from_fuel fuel more (remove_at pos keep) pos
                        (omega (arith, shorter, lt, h)))
              ]
            ]
      ])
