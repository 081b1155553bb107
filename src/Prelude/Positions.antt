-- ===== src/Prelude/Positions.antt =====
-- Lists by position.
use Prim.Native.Nat.{ℕ, zero, suc, ◌≤◌, ◌<◌}
use mathlib.Core.Path.{◌≡◌, refl, ap}
use mathlib.Core.Option.{some}
use mathlib.Core.List.{List, [], ◌∷◌, ◌++◌}
use native.Mathlib.Omega.{arith}
use detersim.Prelude.Lists.{length, get_elem?, take}

pub take-suc {ℓ} :
    {A : Type ℓ} (xs : List A) (n : ℕ) (x : A)
    → get_elem? xs n ≡ some x
    → take (suc n) xs ≡ take n xs ++ x ∷ []
take-suc [] n x h = absurd (ground arith)
take-suc (y ∷ ys) zero x h = let e : y ≡ x = ground arith in ap (λ z. z ∷ []) e
take-suc (y ∷ ys) (suc n) x h = ap (◌∷◌ y) (take-suc ys n x h)

pub get_elem?-append {ℓ} :
    {A : Type ℓ} (xs ys : List A) (n : ℕ) → n < length xs → get_elem? (xs ++ ys) n ≡ get_elem? xs n
get_elem?-append [] ys n h = absurd (omega arith)
get_elem?-append (x ∷ xs) ys zero h = refl
get_elem?-append (x ∷ xs) ys (suc n) h = get_elem?-append xs ys n (omega arith)

pub get_elem?-append_len {ℓ} :
    {A : Type ℓ} (xs : List A) (x : A) → get_elem? (xs ++ x ∷ []) (length xs) ≡ some x
get_elem?-append_len [] x = refl
get_elem?-append_len (y ∷ xs) x = get_elem?-append_len xs x

pub take-append_le {ℓ} :
    {A : Type ℓ} (xs ys : List A) (n : ℕ) → n ≤ length xs → take n (xs ++ ys) ≡ take n xs
take-append_le xs ys zero h = refl
take-append_le [] ys (suc n) h = absurd (omega arith)
take-append_le (x ∷ xs) ys (suc n) h = ap (◌∷◌ x) (take-append_le xs ys n (omega arith))
