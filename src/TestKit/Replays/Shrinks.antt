-- ===== src/TestKit/Replays/Shrinks.antt =====
-- When a failure is shrunk to an artifact.
use detersim.Prelude.{
  ℕ, ◌≡◌, refl, ◌∙◌, Bool, true, Option, none, some, List, map, length, Bool-cases, inl, inr,
  get_or, range, ◌&&◌, is_some,
}
use detersim.Prelude.Subseq.{Subseq}
use detersim.Tape.{as_str}
use detersim.Text.{Text}
use detersim.Shrink.{ShrinkConfig}
use detersim.Shrink.Labels.{shrink_tape_label_aware_report}
use detersim.Shrink.Removed.{label_aware_report}
use detersim.World.Report.{RunReport}
use detersim.TestKit.Replays.{FailureDebugArtifact, shrink_replay_failure}

module _ (run_report_to_json timeline_html : RunReport → Text) (generate : ℕ → RunReport)
    (replay : ℕ → List ℕ → RunReport) (still_fails : RunReport → Bool) where
  -- An artifact shows a failing replay of the part of the seed's tape at the kept indices.
  pub record IsShown (seed : ℕ) (a : FailureDebugArtifact) : Type 0 where
    pub of_seed : a.generated ≡ generate seed
    pub selected :
        a.shrink.minimized ≡ map (λ i. get_or (generate seed).tape_log i 0) a.shrink.kept_indices
    pub ordered : Subseq a.shrink.kept_indices (range 0 (length (generate seed).tape_log))
    pub replays : a.minimized_replay ≡ replay seed a.shrink.minimized
    pub fails : still_fails a.minimized_replay ≡ true

  abbrev pub Outcome : ℕ → Option FailureDebugArtifact → Type 0
  Outcome seed none = Unit
  Outcome seed (some a) = IsShown seed a

  -- Shrinking a failure panics only where the run of the seed, or the replay of its own tape, does
  -- not fail; otherwise it gives an artifact of a replay that still fails, of a part of that tape.
  pub shrink_replay_failure_lem :
      (seed : ℕ) (config : ShrinkConfig)
      → let o =
          shrink_replay_failure run_report_to_json timeline_html generate replay still_fails seed
            config in
        (is_some o
          ≡ (still_fails (generate seed) && still_fails (replay seed (generate seed).tape_log)))
        × Outcome seed o
  unfolding shrink_replay_failure label_aware_report
  shrink_replay_failure_lem seed config =
      let g = generate seed in
      let promise =
        shrink_tape_label_aware_report (map (λ event. as_str event.label) g.tape_events)
          (λ candidate. still_fails (replay seed candidate)) config g.tape_log in
      elim (Bool-cases (still_fails g)) [
        | inr fine ↦ rw fine (refl, tt)
        | inl bad ↦ elim (Bool-cases (still_fails (replay seed g.tape_log))) [
          | inr fine ↦ rw (bad, fine) (refl, tt)
          | inl again ↦
              let reproduced = promise.0 ∙ again in
              rw (bad, again, reproduced, promise.2 again)
                (
                  refl,
                  record {
                    of_seed = refl;
                    selected = promise.3;
                    ordered = promise.4;
                    replays = refl;
                    fails = promise.2 again;
                  },
                )
        ]
      ]
