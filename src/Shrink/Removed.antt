-- ===== src/Shrink/Removed.antt =====
-- `summarize_removed_labels`: how many draws of each label the label-aware shrinker removed.
use Prim.Native.String.{String, compare}
use text.Mathlib.Text.{◌==◌ as str_eq, is_lt}
use text.Mathlib.TextEquality.{eq_iff}
use detersim.Prelude.{
  ℕ, suc, ◌+◌, ◌≤◌, ◌≡◌, ◌∙◌, refl, max, ltb, All, All-imp, Bool, true, false, not, ◌&&◌, List, [],
  ◌∷◌, length, contains, sort_by, sort_by_sum, sum_by, if◌then◌else◌, ◌==◌, arith, Bool-cases, inl,
  inr,
}
use detersim.Shrink.{ShrinkConfig, ShrinkReport}
use detersim.Shrink.Labels.{shrink_tape_label_aware_with_config}

pub record RemovedLabel : Type 0 where
  pub label : String
  pub count : ℕ

pub record LabelAwareShrinkReport : Type 0 where
  pub shrink : ShrinkReport
  pub removed_labels : List RemovedLabel

-- One more of a label: its entry is the first with that label, or a new one at the end.
unfoldable pub count_label : String → List RemovedLabel → List RemovedLabel
count_label label [] = record { label = label; count = 1 } ∷ []
count_label label (entry ∷ out) =
    let rest = count_label label out in
    if str_eq entry.label label
    then record entry { count = suc entry.count } ∷ out
    else entry ∷ rest

-- The loop over the labels from an index on.
unfoldable pub tally : List ℕ → ℕ → List String → List RemovedLabel → List RemovedLabel
tally kept_indices idx [] out = out
tally kept_indices idx (label ∷ labels) out =
    tally kept_indices (suc idx) labels
      (if contains kept_indices idx then out else count_label label out)

abbrev by_label : RemovedLabel → RemovedLabel → Bool
by_label a b = is_lt (compare a.label b.label)

unfoldable pub summarize_removed_labels : List String → List ℕ → List RemovedLabel
unfolding tally
summarize_removed_labels labels kept_indices = sort_by by_label (tally kept_indices 0 labels [])

-- The whole of `shrink_tape_label_aware_with_config`.
unfoldable pub label_aware_report :
    List String → (List ℕ → Bool) → ShrinkConfig → List ℕ → LabelAwareShrinkReport
label_aware_report labels still_fails config tape =
    let shrink = shrink_tape_label_aware_with_config labels still_fails config tape in
    record {
      shrink = shrink;
      removed_labels =
          if not (length labels == length tape)
          then []
          else summarize_removed_labels labels shrink.kept_indices;
    }

-- What an entry counts of a label.
abbrev pub count_of : String → RemovedLabel → ℕ
count_of label entry = if str_eq entry.label label then entry.count else 0

-- The draws of a label, from an index on, that are not kept.
abbrev pub lost_draws : List ℕ → ℕ → String → List String → ℕ
lost_draws kept idx label [] = 0
lost_draws kept idx label (l ∷ labels) =
    (if not (contains kept idx) && str_eq l label then 1 else 0)
    + lost_draws kept (suc idx) label labels

sum_by-count_label :
    (label l : String) (out : List RemovedLabel)
    → sum_by (count_of label) (count_label l out)
      ≡ (if str_eq l label then 1 else 0) + sum_by (count_of label) out
unfolding count_label
sum_by-count_label label l [] = ground arith
sum_by-count_label label l (entry ∷ out) =
    ground (arith, eq_iff entry.label l, sum_by-count_label label l out)

sum_by-tally :
    (label : String) (kept : List ℕ) (idx : ℕ) (labels : List String) (out : List RemovedLabel)
    → sum_by (count_of label) (tally kept idx labels out)
      ≡ sum_by (count_of label) out + lost_draws kept idx label labels
unfolding tally
sum_by-tally label kept idx [] out = omega arith
sum_by-tally label kept idx (l ∷ labels) out = elim (Bool-cases (contains kept idx)) [
  | inl in_place ↦ rw in_place (ground (arith, sum_by-tally label kept (suc idx) labels out))
  | inr gone ↦ rw gone (
      ground (
        arith,
        sum_by-tally label kept (suc idx) labels (count_label l out),
        sum_by-count_label label l out,
      ))
]

-- How many entries a label has.
abbrev pub entries_of : String → List RemovedLabel → ℕ
entries_of label out = sum_by (λ entry. if str_eq entry.label label then 1 else 0) out

entries_of-count_label :
    (label l : String) (out : List RemovedLabel)
    → entries_of label (count_label l out)
      ≡ (if str_eq l label then max 1 (entries_of label out) else entries_of label out)
unfolding count_label
entries_of-count_label label l [] = ground arith
entries_of-count_label label l (entry ∷ out) = ground (
  arith,
  eq_iff entry.label l,
  eq_iff entry.label label,
  eq_iff l label,
  entries_of-count_label label l out,
)

-- A label that is counted has one entry, any other none.
abbrev Merged : String → List RemovedLabel → Type 0
Merged label out = entries_of label out ≡ (if ltb 0 (sum_by (count_of label) out) then 1 else 0)

count_label-Merged :
    (label l : String) (out : List RemovedLabel)
    → Merged label out
    → Merged label (count_label l out)
count_label-Merged label l out h =
    let n = entries_of-count_label label l out in
    let m = sum_by-count_label label l out in ground (arith, n, m, h)

tally-Merged :
    (label : String) (kept : List ℕ) (idx : ℕ) (labels : List String) (out : List RemovedLabel)
    → Merged label out
    → Merged label (tally kept idx labels out)
unfolding tally
tally-Merged label kept idx [] out h = h
tally-Merged label kept idx (l ∷ labels) out h = elim (Bool-cases (contains kept idx)) [
  | inl in_place ↦ rw in_place (tally-Merged label kept (suc idx) labels out h)
  | inr gone ↦ rw gone (
      tally-Merged label kept (suc idx) labels (count_label l out)
        (count_label-Merged label l out h))
]

no_entry :
    (label : String) (out : List RemovedLabel)
    → entries_of label out ≡ 0
    → (sum_by (count_of label) out ≡ 0) × All (λ entry. ¬ (entry.label ≡ label)) out
no_entry label [] h = (refl, tt)
no_entry label (entry ∷ out) h =
    let differs : str_eq entry.label label ≡ false = ground (arith, h) in
    let (sum, others) = no_entry label out (ground (arith, h, differs)) in
    (
      ground (arith, differs, sum),
      (λ e. absurd (ground (arith, eq_iff entry.label label, e, differs)), others),
    )

-- Of a label with one entry at most, an entry holds the whole count.
entry_counts :
    (label : String) (total : ℕ) (out : List RemovedLabel)
    → entries_of label out ≤ 1
    → sum_by (count_of label) out ≡ total
    → All (λ entry. entry.label ≡ label → entry.count ≡ total) out
entry_counts label total [] h sum = tt
entry_counts label total (entry ∷ out) h sum = elim (Bool-cases (str_eq entry.label label)) [
  | inl hit ↦
      let (others, differ) = no_entry label out (ground (arith, h, hit)) in
      (
        λ e. ground (arith, hit, sum, others),
        All-imp _ _ out (λ other differs e. absurd (differs e)) differ,
      )
  | inr miss ↦ (
    λ e. absurd (ground (arith, eq_iff entry.label label, e, miss)),
    entry_counts label total out (ground (arith, h, miss)) (ground (arith, sum, miss)),
  )
]

-- Where there is a label for each draw, the report has exactly one entry for a label of which some
-- draw's index is not kept, and none for any other label; an entry of the label counts just the draws
-- of it whose indices are not kept, and so do all entries of the label together.
pub removed_labels_count :
    (labels : List String) (still_fails : List ℕ → Bool) (config : ShrinkConfig) (tape : List ℕ)
    (label : String)
    → length labels ≡ length tape
    → let r = label_aware_report labels still_fails config tape in
      let lost = lost_draws r.shrink.kept_indices 0 label labels in
      (sum_by (count_of label) r.removed_labels ≡ lost)
      × (entries_of label r.removed_labels ≡ (if ltb 0 lost then 1 else 0))
      × All (λ entry. entry.label ≡ label → entry.count ≡ lost) r.removed_labels
unfolding label_aware_report summarize_removed_labels
removed_labels_count labels still_fails config tape label fit =
    let kept = (shrink_tape_label_aware_with_config labels still_fails config tape).kept_indices in
    let same : (length labels == length tape) ≡ true = ground arith in
    let counted = tally kept 0 labels [] in
    let sorted = sort_by by_label counted in
    let lost = lost_draws kept 0 label labels in
    let sum : sum_by (count_of label) sorted ≡ lost =
      sort_by_sum by_label (count_of label) counted
      ∙ omega (arith, sum_by-tally label kept 0 labels []) in
    let same_sum : sum_by (count_of label) counted ≡ lost =
      omega (arith, sum_by-tally label kept 0 labels []) in
    let merged : Merged label counted = tally-Merged label kept 0 labels [] refl in
    let one : entries_of label sorted ≡ (if ltb 0 lost then 1 else 0) =
      sort_by_sum by_label (λ entry. if str_eq entry.label label then 1 else 0) counted
      ∙ merged
      ∙ rw same_sum refl in
    rw same (sum, one, entry_counts label lost sorted (ground (arith, one)) sum)
