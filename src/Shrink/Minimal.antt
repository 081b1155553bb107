-- ===== src/Shrink/Minimal.antt =====
-- What the report of a shrink promises.
use detersim.Prelude.{
  ℕ, zero, suc, ◌-◌, ◌≤◌, ◌<◌, max, ◌≡◌, refl, sym, Bool, true, false, ◌&&◌, List, [], ◌∷◌, map,
  length, remove_at, range, get_or, ltb, arith, Bool-cases, inl, inr,
}
use detersim.Prelude.Subseq.{Subseq, Subseq-refl, Subseq-remove_at, done, keep}
use detersim.Shrink.{
  Progress, ShrinkConfig, single_phase, singles_done, without_draw, tried, shrink_tape_with_config,
  not_reproduced, report,
}
use detersim.Shrink.Attempts.{singles_done-Ok, map-get_or-range}

Subseq-remove_at_twice :
    (j i : ℕ) (xs : List ℕ) → j < i → Subseq (remove_at j (remove_at i xs)) (remove_at j xs)
Subseq-remove_at_twice j i [] h = done
Subseq-remove_at_twice j zero (x ∷ xs) h = absurd (omega arith)
Subseq-remove_at_twice zero (suc i) (x ∷ xs) h = Subseq-remove_at i xs
Subseq-remove_at_twice (suc j) (suc i) (x ∷ xs) h =
    keep x (Subseq-remove_at_twice j i xs (omega arith))

-- A failure that more draws do not hide.
abbrev pub IsMonotone : (List ℕ → Bool) → Type 0
IsMonotone still_fails =
    (xs ys : List ℕ) → Subseq xs ys → still_fails xs ≡ true → still_fails ys ≡ true

module _ (still_fails : List ℕ → Bool) (config : ShrinkConfig) (mono : IsMonotone still_fails) where
  -- The draws before `idx` are all needed.
  abbrev Needed : ℕ → List ℕ → Type 0
  Needed idx xs = (j : ℕ) → j < idx → still_fails (remove_at j xs) ≡ false

  Needed-remove_at : (idx : ℕ) (xs : List ℕ) → Needed idx xs → Needed idx (remove_at idx xs)
  Needed-remove_at idx xs h j lt =
      elim (Bool-cases (still_fails (remove_at j (remove_at idx xs)))) [
        | inr f ↦ f
        | inl t ↦
            let bad = mono _ (remove_at j xs) (Subseq-remove_at_twice j idx xs lt) t in
            absurd (ground (arith, bad, h j lt))
      ]

  Needed-suc :
      (idx : ℕ) (xs : List ℕ)
      → still_fails (remove_at idx xs) ≡ false
      → Needed idx xs
      → Needed (suc idx) xs
  Needed-suc idx xs q h j lt = elim (Bool-cases (ltb j idx)) [
    | inl below ↦ h j (ground arith)
    | inr last ↦ let e : j ≡ idx = ground arith in rw e q
  ]

  single_phase-Needed :
      (n idx : ℕ) (p : Progress)
      → config.max_attempts - p.attempts ≤ n
      → Needed idx p.current
      → let q = single_phase still_fails config n idx p in
        q.attempts < config.max_attempts → Needed (length q.current) q.current
  unfolding single_phase
  single_phase-Needed zero idx p hn h = λ lt. absurd (omega arith)
  single_phase-Needed (suc n) idx p hn h =
      elim (Bool-cases (ltb idx (length p.current) && ltb p.attempts config.max_attempts)) [
        | inr out ↦ rw out λ lt j jl. h j (ground arith)
        | inl go ↦ elim (Bool-cases (still_fails (remove_at idx p.current))) [
          | inl q ↦
              rw (go, q)
                (single_phase-Needed n idx (without_draw idx p) (omega arith)
                  (Needed-remove_at idx p.current h))
          | inr q ↦
              rw (go, q)
                (single_phase-Needed n (suc idx) (tried p) (omega arith)
                  (Needed-suc idx p.current q h))
        ]
      ]

  singles_done-Needed :
      (tape : List ℕ)
      → (singles_done still_fails config tape).attempts < config.max_attempts
      → Needed
          (length (singles_done still_fails config tape).current)
          (singles_done still_fails config tape).current
  unfolding singles_done
  singles_done-Needed tape =
      single_phase-Needed config.max_attempts 0 _ (omega arith) (λ j lt. absurd (omega arith))

module _ (still_fails : List ℕ → Bool) (config : ShrinkConfig) (tape : List ℕ) where
  shrink_fails :
      still_fails tape ≡ true
      → shrink_tape_with_config still_fails config tape
        ≡ report tape true (singles_done still_fails config tape)
  unfolding shrink_tape_with_config
  shrink_fails h = rw h refl

  shrink_passes :
      still_fails tape ≡ false
      → shrink_tape_with_config still_fails config tape ≡ not_reproduced tape
  unfolding shrink_tape_with_config
  shrink_passes h = rw h refl

-- If more draws never hide the failure and the attempts did not run out, the minimized tape is
-- minimal: without any one of its draws it does not fail any more.
pub shrink_tape-minimal :
    (still_fails : List ℕ → Bool) (config : ShrinkConfig) (tape : List ℕ) (i : ℕ)
    → IsMonotone still_fails
    → still_fails tape ≡ true
    → (shrink_tape_with_config still_fails config tape).attempts < config.max_attempts
    → i < length (shrink_tape_with_config still_fails config tape).minimized
    → still_fails (remove_at i (shrink_tape_with_config still_fails config tape).minimized) ≡ false
unfolding report
shrink_tape-minimal still_fails config tape i mono h left inside =
    let e = shrink_fails still_fails config tape h in
    rw e (singles_done-Needed still_fails config mono tape (rw e at left) i (rw e at inside))

-- The report of a shrink, on both outcomes. It says that the failure was reproduced exactly when the
-- given tape fails; then the minimized tape still fails, it is the part of the given tape at the
-- kept indices, which are in order, and the predicate was asked at most `max_attempts` times (once,
-- where that is 0) and more often than draws were removed. Otherwise the tape is returned whole.
pub shrink_tape_report :
    (still_fails : List ℕ → Bool) (config : ShrinkConfig) (tape : List ℕ)
    → let r = shrink_tape_with_config still_fails config tape in
      (r.reproduced ≡ still_fails tape)
      × (r.original_len ≡ length tape)
      × (still_fails tape ≡ true → still_fails r.minimized ≡ true)
      × (r.minimized ≡ map (λ i. get_or tape i 0) r.kept_indices)
      × Subseq r.kept_indices (range 0 (length tape))
      × (r.attempts ≤ max 1 config.max_attempts)
      × (r.accepted_removals < r.attempts)
      × (still_fails tape ≡ false → r.minimized ≡ tape)
unfolding report not_reproduced
shrink_tape_report still_fails config tape = elim (Bool-cases (still_fails tape)) [
  | inl h ↦
      let v = singles_done-Ok still_fails config tape h in
      rw (shrink_fails still_fails config tape h, h)
        (
          refl,
          refl,
          λ _. v.fails,
          v.selected,
          v.ordered,
          v.bounded,
          v.counted,
          λ e. absurd (ground arith),
        )
  | inr h ↦
      rw (shrink_passes still_fails config tape h, h)
        (
          refl,
          refl,
          λ e. absurd (ground arith),
          sym (map-get_or-range tape),
          Subseq-refl _,
          omega arith,
          omega arith,
          λ _. refl,
        )
]
