-- ===== src/Prelude/Subseq.antt =====
-- Subsequences: what is left of a list after deletions.
use Prim.Native.Nat.{ℕ, zero, suc, ◌≤◌}
use mathlib.Core.List.{List, [], ◌∷◌}
use native.Mathlib.Omega.{arith}
use detersim.Prelude.Lists.{length, drop, cut, remove_at}

pub data Subseq {ℓ} {A : Type ℓ} : List A → List A → Type ℓ where
  done : Subseq [] []
  keep : {xs ys : List A} (x : A) → Subseq xs ys → Subseq (x ∷ xs) (x ∷ ys)
  skip : {xs ys : List A} (x : A) → Subseq xs ys → Subseq xs (x ∷ ys)

module _ {ℓ} {A : Type ℓ} where
  pub Subseq-refl : (xs : List A) → Subseq xs xs
  Subseq-refl [] = done
  Subseq-refl (x ∷ xs) = keep x (Subseq-refl xs)

  under : {ys zs : List A} → Subseq ys zs → (xs : List A) → Subseq xs ys → Subseq xs zs
  under done xs p = p
  under (keep y q) (x ∷ xs) (keep _ p) = keep y (under q xs p)
  under (keep y q) xs (skip _ p) = skip y (under q xs p)
  under (skip y q) xs p = skip y (under q xs p)

  pub Subseq-trans : {xs ys zs : List A} → Subseq xs ys → Subseq ys zs → Subseq xs zs
  Subseq-trans {xs} p q = under q xs p

  pub Subseq-length : {xs ys : List A} → Subseq xs ys → length xs ≤ length ys
  Subseq-length done = omega arith
  Subseq-length (keep x p) = omega (arith, Subseq-length p)
  Subseq-length (skip x p) = omega (arith, Subseq-length p)

  pub Subseq-drop : (n : ℕ) (xs : List A) → Subseq (drop n xs) xs
  Subseq-drop zero xs = Subseq-refl xs
  Subseq-drop (suc n) [] = done
  Subseq-drop (suc n) (x ∷ xs) = skip x (Subseq-drop n xs)

  pub Subseq-cut : (start n : ℕ) (xs : List A) → Subseq (cut start n xs) xs
  Subseq-cut zero n xs = Subseq-drop n xs
  Subseq-cut (suc start) n [] = done
  Subseq-cut (suc start) n (x ∷ xs) = keep x (Subseq-cut start n xs)

  pub Subseq-remove_at : (i : ℕ) (xs : List A) → Subseq (remove_at i xs) xs
  Subseq-remove_at i [] = done
  Subseq-remove_at zero (x ∷ xs) = skip x (Subseq-refl xs)
  Subseq-remove_at (suc i) (x ∷ xs) = keep x (Subseq-remove_at i xs)
