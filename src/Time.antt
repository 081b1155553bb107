-- ===== src/Time.antt =====
-- crates/detersim-core/src/time.rs: logical time in nanoseconds, a `u64`.
use detersim.Prelude.{ℕ, ◌+◌, ◌*◌, ◌≤◌, min, arith}
use detersim.Rng.{u64_max}

-- `SimTime`, by its nanoseconds.
abbrev pub SimTime : Type 0
SimTime = ℕ

-- `SimTime::saturating_add`: the duration (its nanoseconds, a `u128`) is cut to a `u64` first.
unfoldable pub saturating_add : SimTime → ℕ → SimTime
saturating_add t dur = min (t + min dur u64_max) u64_max

-- `Duration::from_millis`.
abbrev pub from_millis : ℕ → ℕ
from_millis ms = ms * 1_000_000

-- Adding a duration never goes back in time, and never leaves the `u64` range.
pub le-saturating_add :
    (t dur : ℕ) → t ≤ u64_max → (t ≤ saturating_add t dur) × (saturating_add t dur ≤ u64_max)
unfolding saturating_add
le-saturating_add t dur h = (omega arith, omega arith)
