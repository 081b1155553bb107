-- ===== src/Examples/Shrinks.antt =====
-- The shrinker on a tape that fails while it holds a draw above 5.
use Prim.Native.String.{String}
use detersim.Prelude.{
  is_some, ℕ, ◌≤◌, ◌<◌, max, ◌≡◌, refl, Bool, true, false, Option, none, some, List, [], ◌∷◌, map,
  length, remove_at, range, get_or, any, ltb, if◌then◌else◌, nat_eq, arith, Bool-cases, inl, inr,
}
use detersim.Prelude.Subseq.{Subseq, done, keep, skip}
use detersim.Shrink.{
  default_config, shrink_tape, shrink_tape_with_config, report, singles_done, single_phase,
  chunks_done, chunk_phase, chunk_round, run_round, start,
}
use detersim.Shrink.Minimal.{IsMonotone, shrink_tape-minimal}
use detersim.Shrink.Labels.{shrink_tape_label_aware_with_config, shrink_tape_label_aware_report}
use detersim.Shrink.Signature
use detersim.Shrink.Signature.{ShrinkOutcome, run-preserved}

abbrev fails : List ℕ → Bool
fails xs = any (λ x. ltb 5 x) xs

fails-IsMonotone : IsMonotone fails
fails-IsMonotone [] [] done h = h
fails-IsMonotone (x ∷ xs) [] p h = elim p [ ]
fails-IsMonotone (x ∷ xs) (x' ∷ ys) (keep _ p) h = elim (Bool-cases (ltb 5 x)) [
  | inl big ↦ rw big refl
  | inr small ↦ rw small (fails-IsMonotone xs ys p (rw small at h))
]
fails-IsMonotone xs (y ∷ ys) (skip _ p) h =
    let ih = fails-IsMonotone xs ys p h in ground (arith, ih)

abbrev tape : List ℕ
tape = 1 ∷ 9 ∷ 2 ∷ 3 ∷ 7 ∷ []

minimized : (shrink_tape fails 1000 tape).minimized ≡ 7 ∷ []
unfolding shrink_tape shrink_tape_with_config report singles_done single_phase chunks_done
    chunk_phase chunk_round run_round start
minimized = refl

shrink_tape-minimal_example :
    fails (remove_at 0 (shrink_tape_with_config fails default_config tape).minimized) ≡ false
unfolding shrink_tape_with_config report singles_done single_phase chunks_done chunk_phase
    chunk_round run_round start
shrink_tape-minimal_example =
    shrink_tape-minimal fails default_config tape 0 fails-IsMonotone refl (omega arith)
      (omega arith)

abbrev labels : List String
labels = "net-delay" ∷ "other" ∷ "jitter" ∷ "net-delay" ∷ "nemesis" ∷ []

shrink_tape_label_aware_report_example :
    let r = shrink_tape_label_aware_with_config labels fails default_config tape in
    (r.reproduced ≡ fails tape)
    × (r.original_len ≡ length tape)
    × (fails tape ≡ true → fails r.minimized ≡ true)
    × (r.minimized ≡ map (λ i. get_or tape i 0) r.kept_indices)
    × Subseq r.kept_indices (range 0 (length tape))
    × (r.attempts ≤ max 1 1000)
    × (r.accepted_removals < r.attempts)
    × (fails tape ≡ false → r.minimized ≡ tape)
shrink_tape_label_aware_report_example =
    shrink_tape_label_aware_report labels fails default_config tape

-- The signature is whether a draw is above 5.
abbrev classify : List ℕ → Option ℕ
classify xs = if any (λ x. ltb 5 x) xs then some 1 else none

run-preserved_example :
    (((Signature.run classify default_config tape).minimized_signature ≡ classify tape)
      × ((Signature.run classify default_config tape).signature_preserved
          ≡ is_some (classify tape)))
    × (((Signature.run_label_aware classify default_config labels tape).minimized_signature
          ≡ classify tape)
        × ((Signature.run_label_aware classify default_config labels tape).signature_preserved
            ≡ is_some (classify tape)))
run-preserved_example = run-preserved classify default_config labels tape
