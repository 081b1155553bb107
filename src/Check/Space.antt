-- ===== src/Check/Space.antt =====
-- What a checker looks for: an order of all operations that a sequential specification accepts and
-- that respects real time; and the same thing as a path of the search.
pub mod Orders
use detersim.Prelude.{
  ℕ, zero, suc, ◌+◌, ◌-◌, ◌≤◌, ◌<◌, ◌≡◌, refl, subst, sym, ap, ◌∙◌, Bool, true, false, not, ◌&&◌,
  ◌||◌, ◌⊎◌, Option, none, some, List, [], ◌∷◌, ◌++◌, map, length, replicate, get_or, get_elem?,
  set, any, all, member, All, range, leb, ltb, ◌==◌, if◌then◌else◌, arith, Bool-cases, inl, inr,
  length-replicate,
}

-- How many operations are used.
abbrev pub count_used : List Bool → ℕ
count_used [] = 0
count_used (b ∷ bs) = (if b then 1 else 0) + count_used bs

pub get_or-set :
    (xs : List Bool) (i j : ℕ)
    → i < length xs
    → get_or (set xs i true) j false ≡ (if i == j then true else get_or xs j false)
get_or-set [] i j h = absurd (omega arith)
get_or-set (x ∷ xs) zero zero h = ground arith
get_or-set (x ∷ xs) zero (suc j) h = ground arith
get_or-set (x ∷ xs) (suc i) zero h = ground arith
get_or-set (x ∷ xs) (suc i) (suc j) h = ground (arith, get_or-set xs i j (omega arith))

pub length-set {ℓ} : {A : Type ℓ} (xs : List A) (i : ℕ) (v : A) → length (set xs i v) ≡ length xs
length-set [] i v = refl
length-set (x ∷ xs) zero v = refl
length-set (x ∷ xs) (suc i) v = ap suc (length-set xs i v)

pub count_used-set :
    (xs : List Bool) (i : ℕ)
    → i < length xs
    → get_or xs i false ≡ false
    → count_used (set xs i true) ≡ suc (count_used xs)
count_used-set [] i h e = absurd (omega arith)
count_used-set (x ∷ xs) zero h e = ground arith
count_used-set (x ∷ xs) (suc i) h e =
    let r = count_used-set xs i (omega arith) e in omega (arith, r)

pub count_used-le : (xs : List Bool) → count_used xs ≤ length xs
count_used-le [] = omega arith
count_used-le (x ∷ xs) = ground (arith, count_used-le xs)

pub count_used-replicate : (n : ℕ) → count_used (replicate n false) ≡ 0
count_used-replicate zero = refl
count_used-replicate (suc n) = ground (arith, count_used-replicate n)

pub get_or-replicate : (n j : ℕ) → get_or (replicate n false) j false ≡ false
get_or-replicate zero j = refl
get_or-replicate (suc n) zero = refl
get_or-replicate (suc n) (suc j) = get_or-replicate n j

-- All used, by the count and one by one.
pub used_of_count :
    (xs : List Bool) (j : ℕ) → count_used xs ≡ length xs → j < length xs → get_or xs j false ≡ true
used_of_count [] j e h = absurd (omega arith)
used_of_count (x ∷ xs) zero e h = ground (arith, count_used-le xs)
used_of_count (x ∷ xs) (suc j) e h =
    let small = count_used-le xs in used_of_count xs j (ground (arith, small)) (omega arith)

pub count_of_used :
    (xs : List Bool)
    → ((j : ℕ) → j < length xs → get_or xs j false ≡ true)
    → count_used xs ≡ length xs
count_of_used [] h = refl
count_of_used (x ∷ xs) h =
    ground (arith, h 0 (omega arith), count_of_used xs (λ j lt. h (suc j) (omega arith)))

-- Every two elements, the earlier first.
abbrev pub Pairwise {ℓ} : (ℕ → ℕ → Type ℓ) → List ℕ → Type ℓ
Pairwise R [] = Unit
Pairwise R (x ∷ xs) = All (R x) xs × Pairwise R xs

-- `size` operations; `before p i` when `p` precedes `i` in real time; `apply i s` the state after
-- operation `i`, if the specification allows it with the observed output in state `s`.
module _ {State : Type 0} (size : ℕ) (before : ℕ → ℕ → Bool)
    (apply : ℕ → State → Option State) where
  -- The specification accepts the operations in this order.
  abbrev pub Accepted : State → List ℕ → Type 0
  Accepted s [] = Unit
  Accepted s (i ∷ is) = (t : State) × (apply i s ≡ some t) × Accepted t is

  -- An order of all operations that is sequentially legal and respects real time.
  pub record IsLegalOrder (s : State) (is : List ℕ) : Type 0 where
    pub inside : All (λ i. i < size) is
    pub once : Pairwise (λ i j. ¬ (i ≡ j)) is
    pub every : (i : ℕ) → i < size → member i is ≡ true
    pub real_time : Pairwise (λ i j. before j i ≡ false) is
    pub accepted : Accepted s is

  -- The next operation may be chosen when it is unused and all its predecessors are used.
  abbrev pub Enabled : List Bool → ℕ → Type 0
  Enabled used i =
      (i < size)
      × (get_or used i false ≡ false)
      × ((p : ℕ) → p < size → before p i ≡ true → get_or used p false ≡ true)

  -- The choices that lead from a point of the search to its goal.
  abbrev pub Extends : List Bool → State → List ℕ → Type 0
  Extends used s [] = (j : ℕ) → j < size → get_or used j false ≡ true
  Extends used s (i ∷ is) =
      Enabled used i × ((t : State) × (apply i s ≡ some t) × Extends (set used i true) t is)

  -- No choice of operations leads to the goal.
  abbrev pub Dead : List Bool → State → Type 0
  Dead used s = (is : List ℕ) → ¬ Extends used s is
