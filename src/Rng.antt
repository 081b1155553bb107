-- ===== src/Rng.antt =====
-- crates/detersim-core/src/rng.rs and time.rs: the SplitMix64 generator and logical time.
-- A `u64` is a number below 2 ^ 64 and its wrap-around is written out.
use Prim.Native.Nat.{bit_xor}
use detersim.Prelude.{
  ℕ, zero, suc, ◌+◌, ◌-◌, ◌*◌, ◌/◌, ◌%◌, ◌^◌, ◌≤◌, ◌<◌, ◌≡◌, Option, none, some, arith,
  if◌then◌else◌, ltb,
}

abbrev pub u64_mod : ℕ
u64_mod = 0x1_0000_0000_0000_0000

abbrev pub u64_max : ℕ
u64_max = 0xffff_ffff_ffff_ffff

-- `wrapping_add` and `wrapping_mul`.
abbrev pub wrapping_add : ℕ → ℕ → ℕ
wrapping_add a b = (a + b) % u64_mod

abbrev pub wrapping_mul : ℕ → ℕ → ℕ
wrapping_mul a b = a * b % u64_mod

abbrev pub shr : ℕ → ℕ → ℕ
shr x k = x / 2 ^ k

pub record SplitMix64 : Type 0 where
  pub state : ℕ

unfoldable pub new : ℕ → SplitMix64
new seed = record { state = seed }

-- The output function of the generator, over the advanced state.
mix : ℕ → ℕ
mix s =
    let z1 : ℕ = wrapping_mul (bit_xor s (shr s 30)) 0xBF58_476D_1CE4_E5B9 in
    let z2 : ℕ = wrapping_mul (bit_xor z1 (shr z1 27)) 0x94D0_49BB_1331_11EB in
    bit_xor z2 (shr z2 31)

unfoldable pub next_u64 : SplitMix64 → ℕ × SplitMix64
unfolding mix
next_u64 r = let s : ℕ = wrapping_add r.state 0x9E37_79B9_7F4A_7C15 in (mix s, record { state = s })

-- `none` is the failed assertion `lo < hi`.
unfoldable pub gen_range_u64 : ℕ → ℕ → SplitMix64 → Option (ℕ × SplitMix64)
gen_range_u64 lo hi r =
    let (v, r') = next_u64 r in if ltb lo hi then some (lo + v % (hi - lo), r') else none

-- The child stream and the advanced parent.
unfoldable pub fork : SplitMix64 → SplitMix64 × SplitMix64
unfolding new
fork r = let (v, r') = next_u64 r in (new v, r')

-- `n` draws in a row.
pub advance : ℕ → SplitMix64 → SplitMix64
advance zero r = r
advance (suc n) r = advance n (next_u64 r).1

-- A range draw fails exactly on an empty range, and otherwise stays in the half-open range and
-- moves the generator by one draw.
pub gen_range_u64_bounds :
    (lo hi : ℕ) (r : SplitMix64)
    → (lo < hi → (v : ℕ) × (gen_range_u64 lo hi r ≡ some (v, (next_u64 r).1)) × (lo ≤ v) × (v < hi))
      × (hi ≤ lo → gen_range_u64 lo hi r ≡ none)
unfolding gen_range_u64
gen_range_u64_bounds lo hi r = (
  λ h. (lo + (next_u64 r).0 % (hi - lo), ground arith, omega arith, omega arith),
  λ h. ground arith,
)

-- The state after `n` draws is the seed moved by `n` times the odd constant, modulo 2 ^ 64.
pub advance_state :
    (n : ℕ) (r : SplitMix64)
    → r.state < u64_mod
    → (advance n r).state ≡ (r.state + n * 0x9E37_79B9_7F4A_7C15) % u64_mod
unfolding advance next_u64
advance_state zero r h = omega arith
advance_state (suc n) r h = omega (arith, advance_state n (next_u64 r).1 (omega arith))
