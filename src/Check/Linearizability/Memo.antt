-- ===== src/Check/Linearizability/Memo.antt =====
-- The operations of a history that the search may choose next.
use detersim.Prelude.{ℕ, ◌<◌, ◌≡◌, Bool, false, List, map, length, Eq}
use detersim.Check.{Model}
use detersim.Check.Search.{blocked}
use detersim.Check.Search.Points
use detersim.Check.Search.Points.{real_time}
use detersim.Check.Linearizability.{Op, times_of, apply_at}

module _ (model : Model) ⦃same_state : Eq model.State⦄ ⦃same_output : Eq model.Output⦄
    (ops : List (Op model)) (max_steps : ℕ) where
  -- The real-time order of the history.
  abbrev pub before : ℕ → ℕ → Bool
  before = real_time (map times_of ops)

  abbrev pub IsEnabled : List Bool → ℕ → Type 0
  IsEnabled = Points.IsEnabled times_of ops (apply_at model ops max_steps)

  pub blocked→Enabled :
      (used : List Bool) (i : ℕ)
      → i < length ops
      → blocked (map times_of ops) used i ≡ false
      → IsEnabled used i
  blocked→Enabled = Points.blocked→Enabled times_of ops (apply_at model ops max_steps)

  pub Enabled→blocked :
      (used : List Bool) (i : ℕ) → IsEnabled used i → blocked (map times_of ops) used i ≡ false
  Enabled→blocked = Points.Enabled→blocked times_of ops (apply_at model ops max_steps)
