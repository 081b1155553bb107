-- ===== src/Prelude/Sorting.antt =====
-- Rust's stable `sort_by`, for a test that says whether one element comes before another.
use Prim.Native.Nat.{ℕ, zero, suc, ◌+◌}
use mathlib.Core.Path.{◌≡◌, refl, sym, ap, ◌∙◌}
use mathlib.Core.Logic.{inl, inr}
use mathlib.Core.Bool.{Bool, true, false, ◌||◌}
use mathlib.Core.List.{List, [], ◌∷◌, ◌++◌}
use native.Mathlib.Omega.{arith}
use detersim.Prelude.Tests.{if◌then◌else◌, Bool-cases}
use detersim.Prelude.Lists.{take, filter, length}

-- A strict order up to ties.
pub record IsWeakOrder {ℓ} {A : Type ℓ} (lt : A → A → Bool) : Type ℓ where
  pub asym : (a b : A) → lt a b ≡ true → lt b a ≡ false
  pub cotrans : (a b c : A) → lt a c ≡ true → (lt a b || lt b c) ≡ true

abbrev pub sum_by {ℓ} : {A : Type ℓ} → (A → ℕ) → List A → ℕ
sum_by f [] = 0
sum_by f (x ∷ xs) = f x + sum_by f xs

module _ {ℓ} {A : Type ℓ} (lt : A → A → Bool) where
  -- Before the elements that it ties with, as the sort is stable.
  unfoldable pub place : A → List A → List A
  place x [] = x ∷ []
  place x (y ∷ ys) = let rest = place x ys in if lt y x then y ∷ rest else x ∷ y ∷ ys

  unfoldable pub sort_by : List A → List A
  sort_by [] = []
  sort_by (x ∷ xs) = place x (sort_by xs)

  -- After the elements that it ties with.
  place_last : A → List A → List A
  place_last c [] = c ∷ []
  place_last c (y ∷ ys) = let rest = place_last c ys in if lt c y then c ∷ y ∷ ys else y ∷ rest

  abbrev Heads : A → List A → Type 0
  Heads x [] = Unit
  Heads x (y ∷ ys) = lt y x ≡ false

  abbrev pub IsSorted : List A → Type 0
  IsSorted [] = Unit
  IsSorted (x ∷ xs) = Heads x xs × IsSorted xs

  pub sort_by_count :
      (p : A → Bool) (xs : List A) → length (filter p (sort_by xs)) ≡ length (filter p xs)
  unfolding sort_by place
  sort_by_count p [] = refl
  sort_by_count p (x ∷ xs) = placed x (sort_by xs) ∙ more (sort_by_count p xs)
    where
      placed : (x : A) (ys : List A) → length (filter p (place x ys)) ≡ length (filter p (x ∷ ys))
      placed x [] = refl
      placed x (y ∷ ys) = ground (arith, placed x ys)

      more :
          length (filter p (sort_by xs)) ≡ length (filter p xs)
          → length (filter p (x ∷ sort_by xs)) ≡ length (filter p (x ∷ xs))
      more ih = ground (arith, ih)

  pub sort_by_sum : (f : A → ℕ) (xs : List A) → sum_by f (sort_by xs) ≡ sum_by f xs
  unfolding sort_by place
  sort_by_sum f [] = refl
  sort_by_sum f (x ∷ xs) = placed x (sort_by xs) ∙ ap (λ n. f x + n) (sort_by_sum f xs)
    where
      placed : (x : A) (ys : List A) → sum_by f (place x ys) ≡ f x + sum_by f ys
      placed x [] = refl
      placed x (y ∷ ys) = ground (arith, placed x ys)

  pub take-sort_by_nil : (k : ℕ) → take k (sort_by []) ≡ []
  unfolding sort_by
  take-sort_by_nil zero = refl
  take-sort_by_nil (suc k) = refl

  sort_by_sorted : (xs : List A) → IsSorted xs → sort_by xs ≡ xs
  unfolding sort_by place
  sort_by_sorted [] h = refl
  sort_by_sorted (x ∷ []) h = refl
  sort_by_sorted (x ∷ y ∷ ys) h = rw (sort_by_sorted (y ∷ ys) h.1, h.0) refl

  take-IsSorted : (k : ℕ) (xs : List A) → IsSorted xs → IsSorted (take k xs)
  take-IsSorted zero xs h = tt
  take-IsSorted (suc k) [] h = tt
  take-IsSorted (suc zero) (x ∷ xs) h = (tt, tt)
  take-IsSorted (suc (suc k)) (x ∷ []) h = (tt, tt)
  take-IsSorted (suc (suc k)) (x ∷ y ∷ ys) h = (h.0, take-IsSorted (suc k) (y ∷ ys) h.1)

  take-place_last :
      (k : ℕ) (c : A) (ys : List A) → take k (place_last c (take k ys)) ≡ take k (place_last c ys)
  unfolding place_last
  take-place_last zero c ys = refl
  take-place_last (suc k) c [] = refl
  take-place_last (suc k) c (y ∷ ys) = elim (Bool-cases (lt c y)) [
    | inl first ↦ rw (first, place_last) (ap (◌∷◌ c) (shorter k y ys))
    | inr after ↦ rw (after, place_last) (ap (◌∷◌ y) (take-place_last k c ys))
  ]
    where
      shorter : (k : ℕ) (y : A) (ys : List A) → take k (y ∷ take k ys) ≡ take k (y ∷ ys)
      shorter zero y ys = refl
      shorter (suc zero) y ys = refl
      shorter (suc (suc k)) y [] = refl
      shorter (suc (suc k)) y (z ∷ zs) = ap (◌∷◌ y) (shorter (suc k) z zs)

  module _ (order : IsWeakOrder lt) where
    place-place_last :
        (x c : A) (ys : List A) → place x (place_last c ys) ≡ place_last c (place x ys)
    unfolding place place_last
    place-place_last x c [] = ground arith
    place-place_last x c (y ∷ ys) =
        let ih = place-place_last x c ys in
        let yes = order.cotrans c y x in
        let trans = order.cotrans c x y in
        let no = order.asym x y in ground (arith, ih, yes, trans, no)

    sort_by-append : (xs : List A) (c : A) → sort_by (xs ++ c ∷ []) ≡ place_last c (sort_by xs)
    unfolding sort_by place place_last
    sort_by-append [] c = refl
    sort_by-append (x ∷ xs) c =
        ap (place x) (sort_by-append xs c) ∙ place-place_last x c (sort_by xs)

    sort_by-IsSorted : (xs : List A) → IsSorted (sort_by xs)
    unfolding sort_by place
    sort_by-IsSorted [] = tt
    sort_by-IsSorted (x ∷ xs) = placed (sort_by xs) (sort_by-IsSorted xs)
      where
        placed : (ys : List A) → IsSorted ys → IsSorted (place x ys)
        placed [] h = (tt, tt)
        placed (y ∷ []) h = elim (Bool-cases (lt y x)) [
          | inl b ↦ rw (b, place) (order.asym y x b, (tt, tt))
          | inr b ↦ rw (b, place) (b, (tt, tt))
        ]
        placed (y ∷ z ∷ zs) h = elim (Bool-cases (lt y x)) [
          | inl b ↦
              let rest = placed (z ∷ zs) h.1 in
              elim (Bool-cases (lt z x)) [
                | inl c ↦ rw (b, c, place) (h.0, (rw (c, place) at rest))
                | inr c ↦ rw (b, c, place) (order.asym y x b, (rw (c, place) at rest))
              ]
          | inr b ↦ rw (b, place) (b, h)
        ]

    -- Sorting and cutting as the elements come in keeps what sorting and cutting at the end does.
    pub take-sort_by-append :
        (k : ℕ) (xs : List A) (c : A)
        → take k (sort_by (take k (sort_by xs) ++ c ∷ [])) ≡ take k (sort_by (xs ++ c ∷ []))
    take-sort_by-append k xs c =
        let best = take k (sort_by xs) in
        let same = sort_by_sorted best (take-IsSorted k (sort_by xs) (sort_by-IsSorted xs)) in
        ap (take k) (sort_by-append best c ∙ ap (place_last c) same)
        ∙ take-place_last k c (sort_by xs)
        ∙ ap (take k) (sym (sort_by-append xs c))
