-- ===== src/World/Clock.antt =====
-- The skewed local clocks of the nodes, and the seeds of the generators handed to them.
use Prim.Native.Nat.{bit_xor}
use detersim.Prelude.{
  ℕ, suc, ◌+◌, ◌*◌, ◌/◌, ◌%◌, ◌^◌, ◌≤◌, min, max, ◌≡◌, refl, ap, ◌∙◌, sym, some, Map, lookup_or,
  lookup, insert, ltb, if◌then◌else◌, ℤ, pos, negsuc, add_held, sub_held, arith, lookup-insert,
  ==_refl,
}
use detersim.Rng
use detersim.Rng.{SplitMix64, u64_max, wrapping_mul, u64_mod}
use detersim.Time.{SimTime}
use detersim.World.{Inner}

-- `rotate_left(32)` of a `u64`.
abbrev pub rotate_half : ℕ → ℕ
rotate_half n = n * 2 ^ 32 % u64_mod + n / 2 ^ 32

clock_reaches :
    (z : ℤ) (local start now last : ℕ)
    → local ≤ u64_max
    → sub_held local z ≤ u64_max
    → max (min (sub_held local z) u64_max) start ≤ now
    → let candidate = min (add_held now z) u64_max in
      local ≤ (if ltb last candidate then candidate else last)
clock_reaches (pos k) local start now last h f l = ground arith
clock_reaches (negsuc k) local start now last h f l = ground arith

lookup_or-insert : (k d v : ℕ) (m : Map ℕ) → lookup_or k d (insert k v m) ≡ v
lookup_or-insert k d v m =
    let hit : lookup k (insert k v m) ≡ some v =
      lookup-insert k k v m ∙ ap (λ b. if b then some v else lookup k m) (==_refl k) in
    rw (lookup_or, hit) refl

module _ {Fut : Type 0} where
  -- The configured skew of a node's clock.
  abbrev pub skew_of : ℕ → Inner Fut → ℤ
  skew_of node g = lookup_or node (pos 0) g.faults.clock_skew_ns

  -- The skewed clock never runs backwards: the last reading is kept and is the least answer.
  unfoldable pub local_now : ℕ → Inner Fut → SimTime × Inner Fut
  local_now node g =
      let candidate = min (add_held g.now (skew_of node g)) u64_max in
      let last = lookup_or node 0 g.last_local_now in
      let reading = if ltb last candidate then candidate else last in
      (reading, record g { last_local_now = insert node reading g.last_local_now })

  unfoldable pub global_from_local_deadline : ℕ → SimTime → Inner Fut → SimTime
  global_from_local_deadline node local g =
      max (min (sub_held local (skew_of node g)) u64_max) g.now

  unfoldable pub next_sut_rng : ℕ → Inner Fut → SplitMix64 × Inner Fut
  unfolding Rng.new
  next_sut_rng node g =
      let n = lookup_or node 0 g.rng_counter in
      let mix =
        bit_xor (bit_xor (wrapping_mul g.seed 0xD1B5_4A32_D192_ED03) (rotate_half node))
          (wrapping_mul n 0x2545_F491_4F6C_DD1D) in
      (Rng.new mix, record g { rng_counter = insert node (suc n) g.rng_counter })

  reading_kept :
      (node : ℕ) (g : Inner Fut)
      → lookup_or node 0 (local_now node g).1.last_local_now ≡ (local_now node g).0
  unfolding local_now
  reading_kept node g = lookup_or-insert node 0 _ g.last_local_now

  -- A node's clock never runs backwards, whatever happens to the time of the world and to the skew
  -- of the node between two readings: `h` is any state that still holds the readings of `g`.
  pub local_now_monotone :
      (node : ℕ) (g h : Inner Fut)
      → h.last_local_now ≡ (local_now node g).1.last_local_now
      → (local_now node g).0 ≤ (local_now node h).0
  unfolding local_now
  local_now_monotone node g h same =
      let kept = ap (lookup_or node 0) same ∙ reading_kept node g in ground (arith, kept)

  -- When the time of the world reaches the global deadline of a sleep, the node's clock has reached
  -- the local one, if the skew has not changed and the global deadline is not past the largest time.
  pub sleep_deadline_reached :
      (node local : ℕ) (g h : Inner Fut)
      → h.faults.clock_skew_ns ≡ g.faults.clock_skew_ns
      → local ≤ u64_max
      → sub_held local (skew_of node g) ≤ u64_max
      → global_from_local_deadline node local g ≤ h.now
      → local ≤ (local_now node h).0
  unfolding local_now global_from_local_deadline
  sleep_deadline_reached node local g h same small fits late =
      let e : skew_of node g ≡ skew_of node h =
        ap (λ (m : Map ℤ). lookup_or node (pos 0) m) (sym same) in
      clock_reaches (skew_of node h) local g.now h.now (lookup_or node 0 h.last_local_now) small
        (rw e at fits) (rw e at late)
