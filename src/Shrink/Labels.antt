-- ===== src/Shrink/Labels.antt =====
-- The label-aware shrinker: single draws in tiers, from the most harmless label to the least.
use Prim.Native.String.{String}
use text.Mathlib.Text.{◌==◌ as str_eq}
use detersim.Prelude.{
  ℕ, zero, suc, ◌-◌, ◌≤◌, ◌<◌, max, ◌≡◌, refl, sym, Bool, true, false, not, ◌&&◌, ◌||◌, List, map,
  length, remove_at, range, get_or, ltb, ◌==◌, if◌then◌else◌, arith, Bool-cases, inl, inr,
  length-remove_at,
}
use detersim.Prelude.Subseq.{Subseq, Subseq-refl}
use detersim.Shrink.{
  Progress, ShrinkConfig, ShrinkReport, start, without_draw, tried, shrink_tape_with_config,
  not_reproduced, report,
}
use detersim.Shrink.Attempts.{Ok, start-Ok, remove_at-Ok, refused-Ok, map-get_or-range}
use detersim.Shrink.Minimal.{shrink_tape_report}

-- `label_tier`.
pub label_tier : String → ℕ
label_tier label =
    if str_eq label "net-delay" || (str_eq label "extra-delay" || str_eq label "jitter")
    then 0
    else if str_eq label "drop-decision" || str_eq label "duplicate-decision"
    then 1
    else if str_eq label "partition"
        || (str_eq label "crash-point"
            || (str_eq label "restart" || (str_eq label "clock-skew" || str_eq label "nemesis")))
    then 2
    else 3

module _ (labels : List String) (still_fails : List ℕ → Bool) (config : ShrinkConfig) where
  -- The loop of one tier, at most `n` turns. Each turn moves on or removes a draw.
  pub tier_phase : ℕ → ℕ → ℕ → Progress → Progress
  tier_phase zero tier pos p = p
  tier_phase (suc n) tier pos p =
      let original_idx = get_or p.kept_indices pos 0 in
      let pass = tier_phase n tier (suc pos) p in
      let accept = tier_phase n tier pos (without_draw pos p) in
      let refuse = tier_phase n tier (suc pos) (tried p) in
      if ltb pos (length p.current) && ltb p.attempts config.max_attempts
      then (if not (label_tier (get_or labels original_idx "") == tier)
          then pass
          else if still_fails (remove_at pos p.current)
          then accept
          else refuse)
      else p

  pub run_tier : ℕ → Progress → Progress
  run_tier tier p = tier_phase (length p.current) tier 0 p

  -- Tiers 0 to 3.
  pub tiers_done : List ℕ → Progress
  tiers_done tape = run_tier 3 (run_tier 2 (run_tier 1 (run_tier 0 (start tape))))

  pub shrink_tape_label_aware_with_config : List ℕ → ShrinkReport
  shrink_tape_label_aware_with_config tape =
      let plain = shrink_tape_with_config still_fails config tape in
      let done = report tape true (tiers_done tape) in
      if not (length labels == length tape)
      then plain
      else if still_fails tape
      then done
      else not_reproduced tape

  module _ (tape : List ℕ) where
    tier_phase-Ok :
        (n tier pos : ℕ) (p : Progress)
        → Ok still_fails config tape p
        → Ok still_fails config tape (tier_phase n tier pos p)
    unfolding tier_phase
    tier_phase-Ok zero tier pos p v = v
    tier_phase-Ok (suc n) tier pos p v =
        let label = label_tier (get_or labels (get_or p.kept_indices pos 0) "") in
        elim (Bool-cases (ltb pos (length p.current) && ltb p.attempts config.max_attempts)) [
          | inr out ↦ rw out v
          | inl go ↦
              let h : p.attempts < config.max_attempts = ground arith in
              elim (Bool-cases (not (label == tier))) [
                | inl other ↦ rw (go, other) (tier_phase-Ok n tier (suc pos) p v)
                | inr same ↦ elim (Bool-cases (still_fails (remove_at pos p.current))) [
                  | inl q ↦
                      rw (go, same, q)
                        (tier_phase-Ok n tier pos (without_draw pos p)
                          (remove_at-Ok still_fails config tape pos p h q v))
                  | inr q ↦
                      rw (go, same, q)
                        (tier_phase-Ok n tier (suc pos) (tried p)
                          (refused-Ok still_fails config tape p h v))
                ]
              ]
        ]

    tiers_done-Ok : still_fails tape ≡ true → Ok still_fails config tape (tiers_done tape)
    unfolding tiers_done run_tier
    tiers_done-Ok h = tier_phase-Ok _ 3 0 _ (
        tier_phase-Ok _ 2 0 _
          (tier_phase-Ok _ 1 0 _ (tier_phase-Ok _ 0 0 _ (start-Ok still_fails config tape h))))

    -- The turns given to a tier are enough: with more of them the result is the same.
    pub tier_phase_fuel :
        (n m tier pos : ℕ) (p : Progress)
        → length p.current - pos ≤ n
        → length p.current - pos ≤ m
        → tier_phase n tier pos p ≡ tier_phase m tier pos p
    unfolding tier_phase
    tier_phase_fuel zero zero tier pos p hn hm = refl
    tier_phase_fuel zero (suc m) tier pos p hn hm =
        let out : (ltb pos (length p.current) && ltb p.attempts config.max_attempts) ≡ false =
          ground arith in
        rw out refl
    tier_phase_fuel (suc n) zero tier pos p hn hm =
        let out : (ltb pos (length p.current) && ltb p.attempts config.max_attempts) ≡ false =
          ground arith in
        rw out refl
    tier_phase_fuel (suc n) (suc m) tier pos p hn hm =
        let label = label_tier (get_or labels (get_or p.kept_indices pos 0) "") in
        elim (Bool-cases (ltb pos (length p.current) && ltb p.attempts config.max_attempts)) [
          | inr out ↦ rw out refl
          | inl go ↦ elim (Bool-cases (not (label == tier))) [
            | inl other ↦
                rw (go, other) (tier_phase_fuel n m tier (suc pos) p (omega arith) (omega arith))
            | inr same ↦ elim (Bool-cases (still_fails (remove_at pos p.current))) [
              | inl q ↦
                  let inside : pos < length p.current = ground arith in
                  let less = length-remove_at pos p.current inside in
                  rw (go, same, q)
                    (tier_phase_fuel n m tier pos (without_draw pos p) (omega (arith, less))
                      (omega (arith, less)))
              | inr q ↦
                  rw (go, same, q)
                    (tier_phase_fuel n m tier (suc pos) (tried p) (omega arith) (omega arith))
            ]
          ]
        ]

-- The label-aware report makes the promises of the plain one, also where the labels do not fit the
-- tape and the plain shrinker takes over: `reproduced` says whether the given tape fails; if it does,
-- the minimized tape still fails and is the part of the given tape at the kept indices, in order,
-- found within the limit on attempts; if not, the tape is returned whole.
pub shrink_tape_label_aware_report :
    (labels : List String) (still_fails : List ℕ → Bool) (config : ShrinkConfig) (tape : List ℕ)
    → let r = shrink_tape_label_aware_with_config labels still_fails config tape in
      (r.reproduced ≡ still_fails tape)
      × (r.original_len ≡ length tape)
      × (still_fails tape ≡ true → still_fails r.minimized ≡ true)
      × (r.minimized ≡ map (λ i. get_or tape i 0) r.kept_indices)
      × Subseq r.kept_indices (range 0 (length tape))
      × (r.attempts ≤ max 1 config.max_attempts)
      × (r.accepted_removals < r.attempts)
      × (still_fails tape ≡ false → r.minimized ≡ tape)
unfolding shrink_tape_label_aware_with_config
shrink_tape_label_aware_report labels still_fails config tape =
    elim (Bool-cases (not (length labels == length tape))) [
      | inl misfit ↦ rw misfit (shrink_tape_report still_fails config tape)
      | inr fit ↦ elim (Bool-cases (still_fails tape)) [
        | inl h ↦
            let v = tiers_done-Ok labels still_fails config tape h in
            unfold report in
            rw (fit, h)
              (
                refl,
                refl,
                λ _. v.fails,
                v.selected,
                v.ordered,
                v.bounded,
                v.counted,
                λ e. absurd (ground arith),
              )
        | inr h ↦
            unfold not_reproduced in
            rw (fit, h)
              (
                refl,
                refl,
                λ e. absurd (ground arith),
                sym (map-get_or-range tape),
                Subseq-refl _,
                omega arith,
                omega arith,
                λ _. refl,
              )
      ]
    ]
