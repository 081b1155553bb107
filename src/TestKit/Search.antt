-- ===== src/TestKit/Search.antt =====
-- What the loop over the seeds of a case finds.
use detersim.Prelude.{
  ℕ, suc, ◌+◌, ◌≡◌, refl, Bool, Option, none, some, List, [], ◌∷◌, length, filter, take, All,
  get_elem?, if◌then◌else◌, arith, Option-cases, inl, inr, is_some,
}
use detersim.World.Report.{RunReport}
use detersim.TestKit.{ExperimentCase, Failures, no_failures, try_seed, try_seeds}
use detersim.TestKit.Signature.{FailureSignature}

module _ (json_bytes html_bytes : RunReport → ℕ) (case : ExperimentCase) where
  -- The run of a seed shows no failure.
  abbrev pub Passes : ℕ → Type 0
  Passes seed = case.oracle (case.generate seed) ≡ none

  abbrev pub is_failing : ℕ → Bool
  is_failing seed = is_some (case.oracle (case.generate seed))

  -- The first failing seed of a list, with its run and its signature, if there is one.
  abbrev pub IsFirst : List ℕ → Option (ℕ × RunReport × FailureSignature) → Type 0
  IsFirst seeds none = All Passes seeds
  IsFirst seeds (some (seed, generated, signature)) =
      (i : ℕ) × (get_elem? seeds i ≡ some seed)
      × All Passes (take i seeds)
      × (generated ≡ case.generate seed)
      × (case.oracle generated ≡ some signature)

  abbrev search : List ℕ → Failures → Failures
  search = try_seeds json_bytes html_bytes case

  IsFirst-cons :
      (s : ℕ) (seeds : List ℕ) (o : Option (ℕ × RunReport × FailureSignature))
      → Passes s
      → IsFirst seeds o
      → IsFirst (s ∷ seeds) o
  IsFirst-cons s seeds none good h = (good, h)
  IsFirst-cons s seeds (some (seed, generated, signature)) good (i, at, before, run, shown) =
      (suc i, at, (good, before), run, shown)

  search_kept :
      (seeds : List ℕ) (f : Failures) (x : ℕ × RunReport × FailureSignature)
      → f.first ≡ some x
      → (search seeds f).first ≡ some x
  unfolding try_seeds try_seed
  search_kept [] f x h = h
  search_kept (s ∷ seeds) f x h =
      search_kept seeds (try_seed json_bytes html_bytes case s f) x (ground (arith, h))

  search-IsFirst :
      (seeds : List ℕ) (f : Failures) → f.first ≡ none → IsFirst seeds (search seeds f).first
  unfolding try_seeds try_seed
  search-IsFirst [] f h = rw h tt
  search-IsFirst (s ∷ seeds) f h = elim (Option-cases (case.oracle (case.generate s))) [
    | inl good ↦
        let next = try_seed json_bytes html_bytes case s f in
        IsFirst-cons s seeds _ good (search-IsFirst seeds next (ground (arith, good, h)))
    | inr (signature, bad) ↦
        let next = try_seed json_bytes html_bytes case s f in
        let kept =
          search_kept seeds next (s, case.generate s, signature) (ground (arith, bad, h)) in
        rw kept (0, refl, tt, refl, bad)
  ]

  search_count :
      (seeds : List ℕ) (f : Failures)
      → (search seeds f).failures_observed ≡ f.failures_observed + length (filter is_failing seeds)
  unfolding try_seeds try_seed
  search_count [] f = omega arith
  search_count (s ∷ seeds) f =
      let next = try_seed json_bytes html_bytes case s f in
      let one : next.failures_observed ≡ f.failures_observed + (if is_failing s then 1 else 0) =
        ground arith in
      ground (arith, search_count seeds next, one)

  pub try_seeds-IsFirst :
      (seeds : List ℕ)
      → IsFirst seeds (search seeds no_failures).first
        × ((search seeds no_failures).failures_observed ≡ length (filter is_failing seeds))
  try_seeds-IsFirst seeds =
      (search-IsFirst seeds no_failures refl, omega (arith, search_count seeds no_failures))
