-- ===== src/Shrink.antt =====
-- crates/detersim-shrink/src/lib.rs: tape minimization under a failure predicate.
-- `still_fails` is the caller's predicate; it is taken to be a function of the candidate alone.
pub mod Attempts
pub mod Loops
pub mod Minimal
pub mod Labels
pub mod Signature
pub mod Removed
use detersim.Prelude.{
  ℕ, zero, suc, ◌+◌, ◌-◌, ◌/◌, ◌≤◌, ◌<◌, ◌≡◌, Bool, true, false, not, ◌&&◌, List, [], ◌∷◌, length,
  cut, remove_at, range, ltb, leb, if◌then◌else◌,
}

pub record ShrinkReport : Type 0 where
  pub original_len : ℕ
  pub minimized : List ℕ
  pub kept_indices : List ℕ
  pub attempts : ℕ
  pub reproduced : Bool
  pub accepted_removals : ℕ

pub record ShrinkConfig : Type 0 where
  pub max_attempts : ℕ
  pub min_chunk_len : ℕ

-- `ShrinkConfig::default()`.
abbrev pub default_config : ShrinkConfig
default_config = record { max_attempts = 1000; min_chunk_len = 2 }

-- The mutable variables that the loops share.
pub record Progress : Type 0 where
  pub current : List ℕ
  pub kept_indices : List ℕ
  pub attempts : ℕ
  pub accepted_removals : ℕ

-- After an accepted removal of a chunk, or of one draw, and after a refused attempt.
abbrev pub without_chunk : ℕ → ℕ → Progress → Progress
without_chunk idx chunk_len p = record {
  current = cut idx chunk_len p.current;
  kept_indices = cut idx chunk_len p.kept_indices;
  attempts = suc p.attempts;
  accepted_removals = suc p.accepted_removals;
}

abbrev pub without_draw : ℕ → Progress → Progress
without_draw idx p = record {
  current = remove_at idx p.current;
  kept_indices = remove_at idx p.kept_indices;
  attempts = suc p.attempts;
  accepted_removals = suc p.accepted_removals;
}

abbrev pub tried : Progress → Progress
tried p = record p { attempts = suc p.attempts }

-- The variables of one round over the chunks of one length.
pub record Round : Type 0 where
  pub progress : Progress
  pub accepted : Bool

-- The report on a tape that does not fail.
unfoldable pub not_reproduced : List ℕ → ShrinkReport
not_reproduced tape = record {
  original_len = length tape;
  minimized = tape;
  kept_indices = range 0 (length tape);
  attempts = 1;
  reproduced = false;
  accepted_removals = 0;
}

unfoldable pub report : List ℕ → Bool → Progress → ShrinkReport
report tape reproduced p = record {
  original_len = length tape;
  minimized = p.current;
  kept_indices = p.kept_indices;
  attempts = p.attempts;
  reproduced = reproduced;
  accepted_removals = p.accepted_removals;
}

-- Where the loops start, after the first call of the predicate.
unfoldable pub start : List ℕ → Progress
start tape = record {
  current = tape;
  kept_indices = range 0 (length tape);
  attempts = 1;
  accepted_removals = 0;
}

module _ (still_fails : List ℕ → Bool) (config : ShrinkConfig) where
  -- The loop over the chunks of `chunk_len` draws, at most `n` turns.
  unfoldable pub chunk_round : ℕ → ℕ → ℕ → Round → Round
  chunk_round zero chunk_len idx r = r
  chunk_round (suc n) chunk_len idx r =
      let p = r.progress in
      let candidate = cut idx chunk_len p.current in
      let accept =
        chunk_round n chunk_len idx
          (record { progress = without_chunk idx chunk_len p; accepted = true }) in
      let refuse =
        chunk_round n chunk_len (idx + chunk_len)
          (record { progress = tried p; accepted = r.accepted }) in
      if leb (idx + chunk_len) (length p.current) && ltb p.attempts config.max_attempts
      then (if still_fails candidate then accept else refuse)
      else r

  -- A round makes one attempt in each turn.
  unfoldable pub run_round : ℕ → Progress → Round
  run_round chunk_len p =
      chunk_round (config.max_attempts - p.attempts) chunk_len 0
        (record { progress = p; accepted = false })

  -- The loop over the chunk lengths, at most `n` turns.
  unfoldable pub chunk_phase : ℕ → ℕ → Progress → Progress
  chunk_phase zero chunk_len p = p
  chunk_phase (suc n) chunk_len p =
      let r = run_round chunk_len p in
      let again = chunk_phase n (if r.accepted then chunk_len else chunk_len / 2) r.progress in
      if leb config.min_chunk_len chunk_len && ltb p.attempts config.max_attempts then again else p

  -- The last loop, over single draws, at most `n` turns.
  unfoldable pub single_phase : ℕ → ℕ → Progress → Progress
  single_phase zero idx p = p
  single_phase (suc n) idx p =
      let candidate = remove_at idx p.current in
      let accept = single_phase n idx (without_draw idx p) in
      let refuse = single_phase n (suc idx) (tried p) in
      if ltb idx (length p.current) && ltb p.attempts config.max_attempts
      then (if still_fails candidate then accept else refuse)
      else p

  -- The turns that the two loops can take: each turn of the first makes an attempt or halves the
  -- length, each turn of the second makes an attempt.
  unfoldable pub chunks_done : List ℕ → Progress
  chunks_done tape =
      let chunk_len = length tape / 2 in
      chunk_phase (suc (config.max_attempts + chunk_len)) chunk_len (start tape)

  unfoldable pub singles_done : List ℕ → Progress
  singles_done tape = single_phase config.max_attempts 0 (chunks_done tape)

  unfoldable pub shrink_tape_with_config : List ℕ → ShrinkReport
  shrink_tape_with_config tape =
      let done = report tape true (singles_done tape) in
      if still_fails tape then done else not_reproduced tape

-- `shrink_tape`.
unfoldable pub shrink_tape : (List ℕ → Bool) → ℕ → List ℕ → ShrinkReport
shrink_tape still_fails max_attempts tape =
    shrink_tape_with_config still_fails (record default_config { max_attempts = max_attempts }) tape
