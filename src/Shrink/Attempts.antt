-- ===== src/Shrink/Attempts.antt =====
-- What every attempt of the shrinker keeps.
use detersim.Prelude.{
  ℕ, zero, suc, ◌+◌, ◌≤◌, ◌<◌, max, ◌≡◌, refl, sym, ap, ◌∙◌, Bool, true, ◌&&◌, List, [], ◌∷◌, map,
  length, cut, remove_at, range, get_or, ltb, leb, arith, Bool-cases, inl, inr, map-cut,
  map-remove_at,
}
use detersim.Prelude.Subseq.{Subseq, Subseq-refl, Subseq-trans, Subseq-cut, Subseq-remove_at}
use detersim.Shrink.{
  Progress, Round, ShrinkConfig, start, chunk_round, run_round, chunk_phase, single_phase,
  chunks_done, singles_done, without_chunk, without_draw, tried,
}

-- The current tape is the part of the original at the kept indices, these are in order, it still
-- fails, and the counters add up.
pub record IsProgress (still_fails : List ℕ → Bool) (limit : ℕ) (tape : List ℕ) (p : Progress)
    : Type 0 where
  pub selected : p.current ≡ map (λ i. get_or tape i 0) p.kept_indices
  pub ordered : Subseq p.kept_indices (range 0 (length tape))
  pub fails : still_fails p.current ≡ true
  pub counted : p.accepted_removals < p.attempts
  pub bounded : p.attempts ≤ max 1 limit

map-range-shift :
    (x : ℕ) (tape : List ℕ) (s n : ℕ)
    → map (λ i. get_or (x ∷ tape) i 0) (range (suc s) n) ≡ map (λ i. get_or tape i 0) (range s n)
map-range-shift x tape s zero = refl
map-range-shift x tape s (suc n) = ap (◌∷◌ (get_or tape s 0)) (map-range-shift x tape (suc s) n)

pub map-get_or-range : (tape : List ℕ) → map (λ i. get_or tape i 0) (range 0 (length tape)) ≡ tape
map-get_or-range [] = refl
map-get_or-range (x ∷ tape) =
    ap (◌∷◌ x) (map-range-shift x tape 0 (length tape) ∙ map-get_or-range tape)

module _ (still_fails : List ℕ → Bool) (config : ShrinkConfig) (tape : List ℕ) where
  abbrev pub Ok : Progress → Type 0
  Ok = IsProgress still_fails config.max_attempts tape

  pub start-Ok : still_fails tape ≡ true → Ok (start tape)
  unfolding start
  start-Ok h = record {
    selected = sym (map-get_or-range tape);
    ordered = Subseq-refl _;
    fails = h;
    counted = omega arith;
    bounded = omega arith;
  }

  pub refused-Ok : (p : Progress) → p.attempts < config.max_attempts → Ok p → Ok (tried p)
  refused-Ok p h v = record {
    selected = v.selected;
    ordered = v.ordered;
    fails = v.fails;
    counted = omega (arith, v.counted);
    bounded = omega arith;
  }

  cut-Ok :
      (idx len : ℕ) (p : Progress)
      → p.attempts < config.max_attempts
      → still_fails (cut idx len p.current) ≡ true
      → Ok p
      → Ok (without_chunk idx len p)
  cut-Ok idx len p h q v = record {
    selected = ap (cut idx len) v.selected ∙ sym (map-cut _ idx len p.kept_indices);
    ordered = Subseq-trans (Subseq-cut idx len p.kept_indices) v.ordered;
    fails = q;
    counted = omega (arith, v.counted);
    bounded = omega arith;
  }

  pub remove_at-Ok :
      (idx : ℕ) (p : Progress)
      → p.attempts < config.max_attempts
      → still_fails (remove_at idx p.current) ≡ true
      → Ok p
      → Ok (without_draw idx p)
  remove_at-Ok idx p h q v = record {
    selected = ap (remove_at idx) v.selected ∙ sym (map-remove_at _ idx p.kept_indices);
    ordered = Subseq-trans (Subseq-remove_at idx p.kept_indices) v.ordered;
    fails = q;
    counted = omega (arith, v.counted);
    bounded = omega arith;
  }

  chunk_round-Ok :
      (n chunk_len idx : ℕ) (r : Round)
      → Ok r.progress
      → Ok (chunk_round still_fails config n chunk_len idx r).progress
  unfolding chunk_round
  chunk_round-Ok zero chunk_len idx r v = v
  chunk_round-Ok (suc n) chunk_len idx r v =
      let p = r.progress in
      elim (Bool-cases
        (leb (idx + chunk_len) (length p.current) && ltb p.attempts config.max_attempts)) [
          | inr out ↦ rw out v
          | inl go ↦
              let h : p.attempts < config.max_attempts = ground arith in
              elim (Bool-cases (still_fails (cut idx chunk_len p.current))) [
                | inl q ↦
                    rw (go, q) (chunk_round-Ok n chunk_len idx _ (cut-Ok idx chunk_len p h q v))
                | inr q ↦
                    rw (go, q) (chunk_round-Ok n chunk_len (idx + chunk_len) _ (refused-Ok p h v))
              ]
        ]

  chunk_phase-Ok :
      (n chunk_len : ℕ) (p : Progress) → Ok p → Ok (chunk_phase still_fails config n chunk_len p)
  unfolding chunk_phase run_round
  chunk_phase-Ok zero chunk_len p v = v
  chunk_phase-Ok (suc n) chunk_len p v =
      elim (Bool-cases (leb config.min_chunk_len chunk_len && ltb p.attempts config.max_attempts)) [
        | inr out ↦ rw out v
        | inl go ↦ rw go (chunk_phase-Ok n _ _ (chunk_round-Ok _ chunk_len 0 _ v))
      ]

  single_phase-Ok : (n idx : ℕ) (p : Progress) → Ok p → Ok (single_phase still_fails config n idx p)
  unfolding single_phase
  single_phase-Ok zero idx p v = v
  single_phase-Ok (suc n) idx p v =
      elim (Bool-cases (ltb idx (length p.current) && ltb p.attempts config.max_attempts)) [
        | inr out ↦ rw out v
        | inl go ↦
            let h : p.attempts < config.max_attempts = ground arith in
            elim (Bool-cases (still_fails (remove_at idx p.current))) [
              | inl q ↦ rw (go, q) (single_phase-Ok n idx _ (remove_at-Ok idx p h q v))
              | inr q ↦ rw (go, q) (single_phase-Ok n (suc idx) _ (refused-Ok p h v))
            ]
      ]

  pub chunks_done-Ok : still_fails tape ≡ true → Ok (chunks_done still_fails config tape)
  unfolding chunks_done
  chunks_done-Ok h = chunk_phase-Ok _ _ (start tape) (start-Ok h)

  pub singles_done-Ok : still_fails tape ≡ true → Ok (singles_done still_fails config tape)
  unfolding singles_done
  singles_done-Ok h = single_phase-Ok _ _ _ (chunks_done-Ok h)
