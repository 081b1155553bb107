-- ===== src/Shrink/Signature.antt =====
-- `SignaturePreservingShrink`: shrinking with the failure's signature as the predicate.
use Prim.Native.String.{String}
use detersim.Prelude.{
  is_some, ℕ, ◌≡◌, refl, sym, ◌∙◌, Bool, ◌&&◌, Option, none, some, List, Eq, same_option,
  same_option→eq, eq→same_option, arith,
}
use detersim.Shrink.{ShrinkConfig, ShrinkReport, shrink_tape_with_config, not_reproduced}
use detersim.Shrink.Labels.{shrink_tape_label_aware_with_config, shrink_tape_label_aware_report}
use detersim.Shrink.Minimal.{shrink_tape_report}

pub record ShrinkOutcome (S : Type 0) : Type 0 where
  pub original_signature : Option S
  pub minimized_signature : Option S
  pub signature_preserved : Bool
  pub report : ShrinkReport

module _ {S : Type 0} ⦃e : Eq S⦄ (classify : List ℕ → Option S) (config : ShrinkConfig) where
  -- The predicate of the shrinker: the candidate shows the original signature.
  abbrev shows : S → List ℕ → Bool
  shows signature candidate = same_option (classify candidate) (some signature)

  -- The part that both entry points share, over the report.
  pub outcome_of : List ℕ → ShrinkReport → ShrinkOutcome S
  outcome_of tape r = record {
    original_signature = classify tape;
    minimized_signature = classify r.minimized;
    signature_preserved =
        is_some (classify tape) && same_option (classify r.minimized) (classify tape);
    report = r;
  }

  plain : List ℕ → Option S → ShrinkReport
  plain tape none = not_reproduced tape
  plain tape (some signature) = shrink_tape_with_config (shows signature) config tape

  label_aware : List String → List ℕ → Option S → ShrinkReport
  label_aware labels tape none = not_reproduced tape
  label_aware labels tape (some signature) =
      shrink_tape_label_aware_with_config labels (shows signature) config tape

  pub run : List ℕ → ShrinkOutcome S
  run tape = outcome_of tape (plain tape (classify tape))

  pub run_label_aware : List String → List ℕ → ShrinkOutcome S
  run_label_aware labels tape = outcome_of tape (label_aware labels tape (classify tape))

  plain-classify :
      (tape : List ℕ) (o : Option S)
      → o ≡ classify tape
      → classify (plain tape o).minimized ≡ classify tape
  unfolding plain not_reproduced
  plain-classify tape none q = refl
  plain-classify tape (some s) q =
      let r = shrink_tape_report (shows s) config tape in
      same_option→eq _ _ (r.2 (eq→same_option _ _ (sym q))) ∙ q

  label_aware-classify :
      (labels : List String) (tape : List ℕ) (o : Option S)
      → o ≡ classify tape
      → classify (label_aware labels tape o).minimized ≡ classify tape
  unfolding label_aware not_reproduced
  label_aware-classify labels tape none q = refl
  label_aware-classify labels tape (some s) q =
      let r = shrink_tape_label_aware_report labels (shows s) config tape in
      same_option→eq _ _ (r.2 (eq→same_option _ _ (sym q))) ∙ q

  outcome_of-preserved :
      (tape : List ℕ) (r : ShrinkReport)
      → classify r.minimized ≡ classify tape
      → let o = outcome_of tape r in
        (o.minimized_signature ≡ classify tape) × (o.signature_preserved ≡ is_some (classify tape))
  unfolding outcome_of
  outcome_of-preserved tape r h = (h, rw (eq→same_option _ _ h) (ground arith))

  -- Both shrinkers keep the signature: the minimized tape is classified as the original is, and
  -- `signature_preserved` is set exactly when the original tape has a signature.
  pub run-preserved :
      (labels : List String) (tape : List ℕ)
      → (((run tape).minimized_signature ≡ classify tape)
          × ((run tape).signature_preserved ≡ is_some (classify tape)))
        × (((run_label_aware labels tape).minimized_signature ≡ classify tape)
            × ((run_label_aware labels tape).signature_preserved ≡ is_some (classify tape)))
  unfolding run run_label_aware
  run-preserved labels tape = (
    outcome_of-preserved tape _ (plain-classify tape (classify tape) refl),
    outcome_of-preserved tape _ (label_aware-classify labels tape (classify tape) refl),
  )
