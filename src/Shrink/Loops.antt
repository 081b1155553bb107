-- ===== src/Shrink/Loops.antt =====
-- The turns given to each loop are enough: it stops by its own test.
use detersim.Prelude.{
  ℕ, zero, suc, ◌+◌, ◌-◌, ◌/◌, ◌≤◌, ◌<◌, ◌≡◌, refl, subst, Bool, true, false, ◌&&◌, List, length,
  cut, remove_at, ltb, leb, if◌then◌else◌, arith, Bool-cases, inl, inr,
}
use detersim.Shrink.{
  Progress, Round, ShrinkConfig, start, chunk_round, run_round, chunk_phase, single_phase,
  chunks_done, without_chunk, tried,
}

module _ (still_fails : List ℕ → Bool) (config : ShrinkConfig) where
  single_phase_fuel :
      (n m idx : ℕ) (p : Progress)
      → config.max_attempts - p.attempts ≤ n
      → config.max_attempts - p.attempts ≤ m
      → single_phase still_fails config n idx p ≡ single_phase still_fails config m idx p
  unfolding single_phase
  single_phase_fuel zero zero idx p hn hm = refl
  single_phase_fuel zero (suc m) idx p hn hm =
      let out : (ltb idx (length p.current) && ltb p.attempts config.max_attempts) ≡ false =
        ground arith in
      rw out refl
  single_phase_fuel (suc n) zero idx p hn hm =
      let out : (ltb idx (length p.current) && ltb p.attempts config.max_attempts) ≡ false =
        ground arith in
      rw out refl
  single_phase_fuel (suc n) (suc m) idx p hn hm =
      elim (Bool-cases (ltb idx (length p.current) && ltb p.attempts config.max_attempts)) [
        | inr out ↦ rw out refl
        | inl go ↦ elim (Bool-cases (still_fails (remove_at idx p.current))) [
          | inl q ↦ rw (go, q) (single_phase_fuel n m idx _ (omega arith) (omega arith))
          | inr q ↦ rw (go, q) (single_phase_fuel n m (suc idx) _ (omega arith) (omega arith))
        ]
      ]

  -- A round makes attempts only forward, and an acceptance is an attempt.
  record Spent (r s : Round) : Type 0 where
    forward : r.progress.attempts ≤ s.progress.attempts
    accepting : s.accepted ≡ true → r.accepted ≡ false → r.progress.attempts < s.progress.attempts

  chunk_round-Spent :
      (n chunk_len idx : ℕ) (r : Round) → Spent r (chunk_round still_fails config n chunk_len idx r)
  unfolding chunk_round
  chunk_round-Spent zero chunk_len idx r = record {
    forward = omega arith;
    accepting = λ a b. absurd (ground arith);
  }
  chunk_round-Spent (suc n) chunk_len idx r =
      let p = r.progress in
      elim (Bool-cases
        (leb (idx + chunk_len) (length p.current) && ltb p.attempts config.max_attempts)) [
          | inr out ↦
              rw out (record { forward = omega arith; accepting = λ a b. absurd (ground arith) })
          | inl go ↦ elim (Bool-cases (still_fails (cut idx chunk_len p.current))) [
            | inl q ↦
                let s =
                  chunk_round-Spent n chunk_len idx
                    (record { progress = without_chunk idx chunk_len p; accepted = true }) in
                rw (go, q)
                  (record {
                    forward = omega (arith, s.forward);
                    accepting = λ a b. omega (arith, s.forward);
                  })
            | inr q ↦
                let s =
                  chunk_round-Spent n chunk_len (idx + chunk_len)
                    (record { progress = tried p; accepted = r.accepted }) in
                rw (go, q)
                  (record {
                    forward = omega (arith, s.forward);
                    accepting = λ a b. omega (arith, s.accepting a b);
                  })
          ]
        ]

  -- A round over an empty chunk makes an attempt as long as one is left.
  chunk_round_empty :
      (n idx : ℕ) (r : Round)
      → idx ≤ length r.progress.current
      → r.progress.attempts < config.max_attempts
      → r.progress.attempts < (chunk_round still_fails config (suc n) 0 idx r).progress.attempts
  unfolding chunk_round
  chunk_round_empty n idx r h k =
      let p = r.progress in
      let go : (leb (idx + 0) (length p.current) && ltb p.attempts config.max_attempts) ≡ true =
        ground arith in
      elim (Bool-cases (still_fails (cut idx 0 p.current))) [
        | inl q ↦
            let s =
              chunk_round-Spent n 0 idx
                (record { progress = without_chunk idx 0 p; accepted = true }) in
            rw (go, q) (omega (arith, s.forward))
        | inr q ↦
            let s =
              chunk_round-Spent n 0 (idx + 0)
                (record { progress = tried p; accepted = r.accepted }) in
            rw (go, q) (omega (arith, s.forward))
      ]

  -- What is left to do: attempts, and the length of the chunks.
  abbrev measure : ℕ → Progress → ℕ
  measure chunk_len p = (config.max_attempts - p.attempts) + chunk_len

  run_round-measure :
      (chunk_len : ℕ) (p : Progress)
      → p.attempts < config.max_attempts
      → let r = run_round still_fails config chunk_len p in
        measure (if r.accepted then chunk_len else chunk_len / 2) r.progress < measure chunk_len p
  unfolding run_round
  run_round-measure zero p h =
      let r0 : Round = record { progress = p; accepted = false } in
      let k = config.max_attempts - p.attempts in
      let e : suc (k - 1) ≡ k = omega arith in
      let more : p.attempts < (chunk_round still_fails config k 0 0 r0).progress.attempts =
        subst (λ (i : ℕ). p.attempts < (chunk_round still_fails config i 0 0 r0).progress.attempts)
          e (chunk_round_empty (k - 1) 0 r0 (omega arith) h) in
      elim (Bool-cases (chunk_round still_fails config k 0 0 r0).accepted) [
        | inl a ↦ rw a (omega (arith, more))
        | inr a ↦ rw a (omega (arith, more))
      ]
  run_round-measure (suc c) p h =
      let r0 : Round = record { progress = p; accepted = false } in
      let k = config.max_attempts - p.attempts in
      let s = chunk_round-Spent k (suc c) 0 r0 in
      elim (Bool-cases (chunk_round still_fails config k (suc c) 0 r0).accepted) [
        | inl a ↦ rw a (omega (arith, s.accepting a refl))
        | inr a ↦ rw a (omega (arith, s.forward))
      ]

  chunk_phase_fuel :
      (n m chunk_len : ℕ) (p : Progress)
      → measure chunk_len p < n
      → measure chunk_len p < m
      → chunk_phase still_fails config n chunk_len p ≡ chunk_phase still_fails config m chunk_len p
  unfolding chunk_phase
  chunk_phase_fuel zero m chunk_len p hn hm = absurd (omega arith)
  chunk_phase_fuel (suc n) zero chunk_len p hn hm = absurd (omega arith)
  chunk_phase_fuel (suc n) (suc m) chunk_len p hn hm =
      elim (Bool-cases (leb config.min_chunk_len chunk_len && ltb p.attempts config.max_attempts)) [
        | inr out ↦ rw out refl
        | inl go ↦
            let less = run_round-measure chunk_len p (ground arith) in
            rw go (chunk_phase_fuel n m _ _ (omega arith) (omega arith))
      ]

  start-attempts : (tape : List ℕ) → (start tape).attempts ≡ 1
  unfolding start
  start-attempts tape = refl

  -- The shrinker runs to the end of both loops: with any larger number of turns allowed to either of
  -- them, whatever the predicate and the limits, `min_chunk_len = 0` included, the result is the same.
  pub shrink_fuel :
      (tape : List ℕ) (n m : ℕ) (p : Progress)
      → config.max_attempts + length tape / 2 < n
      → config.max_attempts ≤ m
      → (chunk_phase still_fails config n (length tape / 2) (start tape)
          ≡ chunks_done still_fails config tape)
        × (single_phase still_fails config m 0 p
            ≡ single_phase still_fails config config.max_attempts 0 p)
  unfolding chunks_done
  shrink_fuel tape n m p hn hm = (
    chunk_phase_fuel n _ (length tape / 2) (start tape) (omega (arith, start-attempts tape))
        (omega (arith, start-attempts tape)),
    single_phase_fuel m _ 0 p (omega arith) (omega arith),
  )
