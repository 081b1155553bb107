-- ===== src/Check/Search/Points.antt =====
-- The tests of a search, read: an operation that is not blocked may be chosen next, and a point that
-- was seen before is in the table; and the points of a search over `size` operations.
use detersim.Prelude.{
  ℕ, zero, suc, ◌+◌, ◌≤◌, ◌<◌, ◌≡◌, refl, subst, sym, ap, ◌∙◌, Bool, true, false, not, ◌&&◌, Option,
  List, [], ◌∷◌, ◌++◌, map, length, replicate, set, get_or, any, member, all, range, All, All-imp,
  leb, ◌==◌, arith, Bool-cases, inl, inr, Eq, length-append, length-replicate,
}
use detersim.Check.Precedence.{Times, predecessors, precedes, no_times, member-predecessors}
use detersim.Check.Space.{
  Enabled, Extends, Dead, count_used, count_used-le, count_used-set, count_used-replicate,
  count_of_used, length-set,
}
use detersim.Check.Search.{blocked, same_bools, seen_before}

any_unused :
    (used : List Bool) (row : List ℕ) (p : ℕ)
    → any (λ q. not (get_or used q false)) row ≡ false
    → member p row ≡ true
    → get_or used p false ≡ true
any_unused used [] p h m = absurd (ground arith)
any_unused used (q ∷ row) p h m = elim (Bool-cases (q == p)) [
  | inl same ↦
      let e : q ≡ p = ground arith in
      subst (λ (k : ℕ). get_or used k false ≡ true) e (ground (arith, h))
  | inr other ↦ any_unused used row p (ground (arith, h)) (ground (arith, m, other))
]

all_used :
    (used : List Bool) (row : List ℕ)
    → ((p : ℕ) → member p row ≡ true → get_or used p false ≡ true)
    → any (λ q. not (get_or used q false)) row ≡ false
all_used used [] h = refl
all_used used (q ∷ row) h =
    let here = h q (ground arith) in
    let there = all_used used row (λ p m. h p (ground (arith, m))) in ground (arith, here, there)

same_bools→eq : (xs ys : List Bool) → same_bools xs ys ≡ true → xs ≡ ys
same_bools→eq [] [] h = refl
same_bools→eq [] (y ∷ ys) h = absurd (ground arith)
same_bools→eq (x ∷ xs) [] h = absurd (ground arith)
same_bools→eq (true ∷ xs) (true ∷ ys) h = ap (◌∷◌ true) (same_bools→eq xs ys h)
same_bools→eq (true ∷ xs) (false ∷ ys) h = absurd (ground arith)
same_bools→eq (false ∷ xs) (true ∷ ys) h = absurd (ground arith)
same_bools→eq (false ∷ xs) (false ∷ ys) h = ap (◌∷◌ false) (same_bools→eq xs ys h)

-- What holds of every point of the table holds of a point that was seen.
pub seen_before-All {ℓ} :
    {S : Type 0} ⦃same : Eq S⦄ (P : List Bool × S → Type ℓ) (seen : List (List Bool × S))
    (used : List Bool) (state : S)
    → All P seen
    → seen_before seen used state ≡ true
    → P (used, state)
unfolding seen_before
seen_before-All ⦃same⦄ P [] used state h k = absurd (ground arith)
seen_before-All ⦃same⦄ P ((u, s) ∷ seen) used state h k =
    elim (Bool-cases (same_bools u used && same.beq s state)) [
      | inl hit ↦
          let eu = same_bools→eq u used (ground (arith, hit)) in
          let es = (same.beq_iff s state).0 (ground (arith, hit)) in
          subst (λ (v : List Bool). P (v, state)) eu (subst (λ t. P (u, t)) es h.0)
      | inr miss ↦ seen_before-All P seen used state h.1 (ground (arith, k, miss))
    ]

-- The real-time order of operations with these times.
abbrev pub real_time : List Times → ℕ → ℕ → Bool
real_time times p i = precedes p (get_or times p no_times) i (get_or times i no_times)

pub length-map {ℓ} : {A B : Type ℓ} (f : A → B) (xs : List A) → length (map f xs) ≡ length xs
length-map f [] = refl
length-map f (x ∷ xs) = ap suc (length-map f xs)

-- The operations `items` of a history, with their times.
module _ {A S : Type 0} (times_of : A → Times) (items : List A) (apply : ℕ → S → Option S) where
  abbrev times : List Times
  times = map times_of items

  abbrev pub IsEnabled : List Bool → ℕ → Type 0
  IsEnabled = Enabled (length items) (real_time (map times_of items)) apply

  member_row :
      (i p : ℕ)
      → i < length items
      → member p (get_or (predecessors times) i [])
        ≡ (leb (suc p) (length items) && real_time times p i)
  member_row i p h =
      let e = length-map times_of items in rw e at (member-predecessors times i p (rw e h))

  pub blocked→Enabled :
      (used : List Bool) (i : ℕ)
      → i < length items
      → blocked (map times_of items) used i ≡ false
      → IsEnabled used i
  unfolding blocked
  blocked→Enabled used i h b = (
    h,
    ground (arith, b),
    λ p hp c.
        any_unused used (get_or (predecessors times) i []) p (ground (arith, b))
          (member_row i p h ∙ ground (arith, c, hp)),
  )

  pub Enabled→blocked :
      (used : List Bool) (i : ℕ) → IsEnabled used i → blocked (map times_of items) used i ≡ false
  unfolding blocked
  Enabled→blocked used i (h, u, ready) =
      let rest = all_used used (get_or (predecessors times) i []) (λ p m.
        let w = sym (member_row i p h) ∙ m in ready p (ground (arith, w)) (ground (arith, w))) in
      ground (arith, u, rest)

module _ (size : ℕ) where
  -- A point of the search where as many operations are used as are ordered.
  abbrev pub IsPoint : List Bool → List ℕ → Type 0
  IsPoint used order = (length used ≡ size) × (length order ≡ count_used used)

  pub IsPoint-set :
      (used : List Bool) (order : List ℕ) (i id : ℕ)
      → IsPoint used order
      → i < size
      → get_or used i false ≡ false
      → IsPoint (set used i true) (order ++ id ∷ [])
  IsPoint-set used order i id (e, c) h u =
      let more = count_used-set used i (omega (arith, e, h)) u in
      let one = length-append order (id ∷ []) in
      (length-set used i true ∙ e, omega (arith, more, one, c))

  pub IsPoint-start : IsPoint (replicate size false) []
  IsPoint-start = (length-replicate size false, sym (count_used-replicate size))

  range-inside : (k n : ℕ) → All (λ i. i < k + n) (range k n)
  range-inside k zero = tt
  range-inside k (suc n) = (
    omega arith,
    All-imp _ (λ i. i < k + suc n) (range (suc k) n) (λ i h. omega (arith, h))
        (range-inside (suc k) n),
  )

  pub all-inside : All (λ i. i < size) (range 0 size)
  all-inside = All-imp _ _ (range 0 size) (λ i h. omega (arith, h)) (range-inside 0 size)

  All-range {ℓ} : (Q : ℕ → Type ℓ) (k n i : ℕ) → All Q (range k n) → k ≤ i → i < k + n → Q i
  All-range Q k zero i h lo hi = absurd (omega arith)
  All-range Q k (suc n) i h lo hi = elim (Bool-cases (k == i)) [
    | inl here ↦ let e : k ≡ i = ground arith in subst Q e h.0
    | inr later ↦ All-range Q (suc k) n i h.1 (ground arith) (omega arith)
  ]

  module _ {S : Type 0} (before : ℕ → ℕ → Bool) (apply : ℕ → S → Option S) where
    -- No path goes on with operation `i`.
    abbrev pub Closed : List Bool → S → ℕ → Type 0
    Closed used state i = (is : List ℕ) → ¬ Extends size before apply used state (i ∷ is)

    -- A point that is not the goal and from which no operation leads on.
    pub Closed-IsDead :
        (used : List Bool) (state : S)
        → length used ≡ size
        → ¬ (count_used used ≡ size)
        → All (Closed used state) (range 0 size)
        → Dead size before apply used state
    Closed-IsDead used state e more closed [] path =
        let n = count_of_used used (λ j h. path j (omega (arith, e, h))) in
        absurd (more (omega (arith, n, e)))
    Closed-IsDead used state e more closed (i ∷ is) path =
        All-range (Closed used state) 0 size i closed (omega arith) (omega (arith, path.0)) is path

-- All used, by the test and by the count.
pub all-count_used :
    (used : List Bool)
    → (all (λ u. u) used ≡ true → count_used used ≡ length used)
      × (count_used used ≡ length used → all (λ u. u) used ≡ true)
all-count_used [] = (λ h. refl, λ h. refl)
all-count_used (true ∷ used) =
    let ih = all-count_used used in
    (λ h. let k = ih.0 h in omega (arith, k), λ h. ih.1 (omega (arith, h)))
all-count_used (false ∷ used) =
    (λ h. absurd (ground arith), λ h. absurd (let n = count_used-le used in omega (arith, n, h)))
