-- ===== src/SeedSearch.antt =====
-- crates/detersim-search/src/lib.rs: the search over seeds, which keeps the best candidates.
pub mod Orders
pub mod First
pub mod Best
pub mod Compare
use Prim.Native.Nat.{bit_xor}
use detersim.Prelude.{
  ℕ, zero, suc, ◌+◌, ◌*◌, ◌%◌, ◌==◌, Bool, true, false, not, ◌&&◌, ◌||◌, Option, none, some, List,
  [], ◌∷◌, ◌++◌, map, reverse, length, take, filter, range, ltb, if◌then◌else◌, member, set_insert,
  sort_by,
}
use detersim.Text.{Text, codes, same_text, split, join}
use detersim.Text.Search.{member_text, insert_text, insert_texts}
use detersim.World.Report.{RunReport, tape_signal}
use detersim.TestKit.{ExperimentCase}
use detersim.TestKit.Signature.{FailureSignature}
use detersim.Rng.{wrapping_add, wrapping_mul, shr}

pub data SearchStrategy : Type 0 where
  random : SearchStrategy
  coverage_guided : SearchStrategy
  failure_directed : SearchStrategy

pub record SearchBudget : Type 0 where
  pub seed_count : ℕ
  pub retain_candidates : ℕ

abbrev pub is_odd : ℕ → Bool
is_odd seed = seed % 2 == 1

abbrev pub is_even : ℕ → Bool
is_even seed = seed % 2 == 0

unfoldable pub stress_score : ℕ → ℕ
stress_score seed =
    let x0 : ℕ = wrapping_add seed 0x9e37_79b9_7f4a_7c15 in
    let x1 : ℕ = wrapping_mul (bit_xor x0 (shr x0 30)) 0xbf58_476d_1ce4_e5b9 in
    let x2 : ℕ = wrapping_mul (bit_xor x1 (shr x1 27)) 0x94d0_49bb_1331_11eb in
    bit_xor x2 (shr x2 31)

-- The keys of `sort_by_key`, compared.
unfoldable pub by_stress : ℕ → ℕ → Bool
by_stress a b =
    ltb (stress_score a) (stress_score b) || (stress_score a == stress_score b) && ltb a b

unfoldable pub seed_order : SearchStrategy → ℕ → List ℕ
seed_order random seed_count = range 0 seed_count
seed_order coverage_guided seed_count =
    filter is_odd (range 0 seed_count) ++ filter is_even (range 0 seed_count)
seed_order failure_directed seed_count = reverse (sort_by by_stress (range 0 seed_count))

-- A `CoverageSignal` is its name.
pub record SearchCandidate : Type 0 where
  pub seed : ℕ
  pub rank : ℕ
  pub score : ℕ
  pub new_coverage : ℕ
  pub coverage : List Text
  pub failure_signature : Option FailureSignature
  pub tape_len : ℕ

pub record SeedCorpus : Type 0 where
  pub candidates : List (SearchCandidate)
  pub unique_coverage : List Text

pub record SearchReport : Type 0 where
  pub strategy : SearchStrategy
  pub seeds_attempted : ℕ
  pub first_failing_seed : Option ℕ
  pub first_failing_rank : Option ℕ
  pub failures_observed : ℕ
  pub corpus : SeedCorpus

-- The variables that the loop of `run_search` changes.
pub record Progress : Type 0 where
  pub seen_coverage : List Text
  pub candidates : List (SearchCandidate)
  pub first_failing_seed : Option ℕ
  pub first_failing_rank : Option ℕ
  pub failures_observed : ℕ

-- Higher scores first, then lower ranks, then lower seeds.
unfoldable pub is_better : SearchCandidate → SearchCandidate → Bool
is_better a b =
    ltb b.score a.score
    || (b.score == a.score) && (ltb a.rank b.rank || (a.rank == b.rank) && ltb a.seed b.seed)

unfoldable pub retain_best : List (SearchCandidate) → ℕ → List (SearchCandidate)
retain_best candidates zero = []
retain_best candidates (suc n) = take (suc n) (sort_by is_better candidates)

unfoldable pub is_failure : Option FailureSignature → Bool
is_failure none = false
is_failure (some signature) = true

unfoldable pub candidate_score : SearchStrategy → ℕ → Option FailureSignature → ℕ → ℕ
candidate_score strategy new_coverage signature tape_len =
    let failure = if is_failure signature then 1 else 0 in
    let base : ℕ = elim strategy [
      | random ↦ 0
      | coverage_guided ↦ new_coverage * 10
      | failure_directed ↦ failure * 1000 + new_coverage * 10
    ] in
    base + tape_len

unfoldable pub add_signals : List Text → List Text → List Text
add_signals [] seen = seen
add_signals (signal ∷ coverage) seen = add_signals coverage (insert_text signal seen)

abbrev pub count_new : List Text → List Text → ℕ
count_new coverage seen = length (filter (λ signal. not (member_text signal seen)) coverage)

abbrev of_parts : List Text → Text
of_parts parts = codes "history:" ++ join b':' parts

-- The parts of an entry with one part at least.
abbrev normal_parts : Text → List Text → Text
normal_parts head [] =
    if same_text head (codes "raft-bug") || same_text head (codes "raft-invariant")
    then of_parts (head ∷ [] ∷ [])
    else of_parts (head ∷ [])
normal_parts head (second ∷ []) = of_parts (head ∷ second ∷ [])
normal_parts head (second ∷ third ∷ rest) =
    if same_text head (codes "kv") || same_text head (codes "log")
    then of_parts (head ∷ third ∷ [])
    else if same_text head (codes "raft-bug") || same_text head (codes "raft-invariant")
    then of_parts (head ∷ second ∷ third ∷ rest)
    else of_parts (head ∷ second ∷ [])

unfoldable pub normalize_history_signal : Text → Text
normalize_history_signal entry = elim (split b':' entry) [
  | [] ↦ codes "history:empty"
  | head ∷ parts ↦ normal_parts head parts
]

unfoldable pub coverage_from_run : RunReport → List Text
unfolding normalize_history_signal
coverage_from_run report =
    insert_texts (map normalize_history_signal report.history)
      (insert_texts (map tape_signal report.tape_events) (insert_texts report.coverage_signals []))

module _ (case : ExperimentCase) (strategy : SearchStrategy) where
  -- The candidate that a seed becomes, with what was covered before it.
  unfoldable pub candidate_of : ℕ → ℕ → List Text → SearchCandidate
  candidate_of rank seed seen =
      let report = case.generate seed in
      let signature = case.oracle report in
      let coverage = coverage_from_run report in
      record {
        seed = seed;
        rank = rank;
        score =
            candidate_score strategy (count_new coverage seen) signature (length report.tape_log);
        new_coverage = count_new coverage seen;
        coverage = coverage;
        failure_signature = signature;
        tape_len = length report.tape_log;
      }

  abbrev pub fails : ℕ → Bool
  fails seed = is_failure (case.oracle (case.generate seed))

  unfoldable pub note_failure : ℕ → ℕ → Progress → Progress
  note_failure rank seed p =
      let first = record p {
        failures_observed = suc p.failures_observed;
        first_failing_seed = some seed;
        first_failing_rank = some rank;
      } in
      let later = record p { failures_observed = suc p.failures_observed } in
      if fails seed then elim p.first_failing_seed [ none ↦ first | some s ↦ later ] else p

  -- One turn of the loop.
  unfoldable pub attempt : ℕ → ℕ → ℕ → Progress → Progress
  attempt retain rank seed p =
      let noted = note_failure rank seed p in
      record noted {
        seen_coverage = add_signals (coverage_from_run (case.generate seed)) p.seen_coverage;
        candidates =
            retain_best (p.candidates ++ candidate_of rank seed p.seen_coverage ∷ []) retain;
      }

  unfoldable pub attempt_all : ℕ → ℕ → List ℕ → Progress → Progress
  attempt_all retain rank [] p = p
  attempt_all retain rank (seed ∷ seeds) p =
      attempt_all retain (suc rank) seeds (attempt retain rank seed p)

  abbrev pub no_progress : Progress
  no_progress = record {
    seen_coverage = [];
    candidates = [];
    first_failing_seed = none;
    first_failing_rank = none;
    failures_observed = 0;
  }

  unfoldable pub run_search : SearchBudget → SearchReport
  run_search budget =
      let seeds = seed_order strategy budget.seed_count in
      let p = attempt_all budget.retain_candidates 0 seeds no_progress in
      record {
        strategy = strategy;
        seeds_attempted = budget.seed_count;
        first_failing_seed = p.first_failing_seed;
        first_failing_rank = p.first_failing_rank;
        failures_observed = p.failures_observed;
        corpus = record { candidates = p.candidates; unique_coverage = p.seen_coverage };
      }
