-- ===== src/SeedSearch/Orders.antt =====
-- `seed_order` of crates/detersim-search/src/lib.rs: no seed is lost and none is tried twice.
use detersim.Prelude.{
  ℕ, zero, suc, ◌+◌, ◌%◌, ◌≡◌, not, List, [], ◌∷◌, ◌++◌, reverse_aux, length, filter, range, leb,
  ltb, ◌==◌, ◌&&◌, if◌then◌else◌, arith, sort_by, sort_by_count,
}
use detersim.SeedSearch.{
  SearchStrategy, random, coverage_guided, failure_directed, seed_order, by_stress, is_odd, is_even,
}

-- How often a seed occurs.
abbrev occurrences : ℕ → List ℕ → ℕ
occurrences seed seeds = length (filter (λ s. s == seed) seeds)

occurrences-range :
    (seed start n : ℕ)
    → occurrences seed (range start n) ≡ (if leb start seed && ltb seed (start + n) then 1 else 0)
occurrences-range seed start zero = ground arith
occurrences-range seed start (suc n) = ground (arith, occurrences-range seed (suc start) n)

occurrences-reverse_aux :
    (seed : ℕ) (xs acc : List ℕ)
    → occurrences seed (reverse_aux xs acc) ≡ occurrences seed xs + occurrences seed acc
occurrences-reverse_aux seed [] acc = omega arith
occurrences-reverse_aux seed (x ∷ xs) acc =
    ground (arith, occurrences-reverse_aux seed xs (x ∷ acc))

occurrences-append :
    (seed : ℕ) (xs ys : List ℕ)
    → occurrences seed (xs ++ ys) ≡ occurrences seed xs + occurrences seed ys
occurrences-append seed [] ys = omega arith
occurrences-append seed (x ∷ xs) ys = ground (arith, occurrences-append seed xs ys)

parity : (x : ℕ) → (x % 2 == 0) ≡ not (x % 2 == 1)
parity x = ground arith

-- The odd seeds and the even ones together.
occurrences-halves :
    (seed : ℕ) (xs : List ℕ)
    → occurrences seed (filter is_odd xs) + occurrences seed (filter is_even xs)
      ≡ occurrences seed xs
occurrences-halves seed [] = omega arith
occurrences-halves seed (x ∷ xs) = ground (arith, occurrences-halves seed xs, parity x)

-- Whatever the strategy, the seeds below the budget are tried once each, and no others.
pub seed_order_once :
    (strategy : SearchStrategy) (seed_count seed : ℕ)
    → occurrences seed (seed_order strategy seed_count) ≡ (if ltb seed seed_count then 1 else 0)
unfolding seed_order
seed_order_once random seed_count seed = ground (arith, occurrences-range seed 0 seed_count)
seed_order_once coverage_guided seed_count seed =
    let seeds = range 0 seed_count in
    let both = occurrences-append seed (filter is_odd seeds) (filter is_even seeds) in
    ground (arith, both, occurrences-halves seed seeds, occurrences-range seed 0 seed_count)
seed_order_once failure_directed seed_count seed = ground (
  arith,
  occurrences-reverse_aux seed (sort_by by_stress (range 0 seed_count)) [],
  sort_by_count by_stress (λ s. s == seed) (range 0 seed_count),
  occurrences-range seed 0 seed_count,
)
