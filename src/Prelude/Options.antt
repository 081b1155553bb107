-- ===== src/Prelude/Options.antt =====
-- Rust's `is_some`, `?` and `filter_map` on options.
use mathlib.Core.Path.{◌≡◌, refl}
use mathlib.Core.List.{List, [], ◌∷◌, map}
use mathlib.Core.Bool.{Bool, true, false}
use mathlib.Core.Option.{Option, none, some}
use native.Mathlib.Omega.{arith}
use detersim.Prelude.Lists.{All}

abbrev pub is_some {ℓ} : {A : Type ℓ} → Option A → Bool
is_some none = false
is_some (some a) = true

infixl 5 ◌>>=◌
abbrev pub ◌>>=◌ {ℓ κ} : {A : Type ℓ} {B : Type κ} → Option A → (A → Option B) → Option B
none >>= f = none
some a >>= f = f a

abbrev pub filter_map {ℓ κ} : {A : Type ℓ} {B : Type κ} → (A → Option B) → List A → List B
filter_map f [] = []
filter_map f (x ∷ xs) = elim (f x) [ none ↦ filter_map f xs | some y ↦ y ∷ filter_map f xs ]

pub filter_map-map {ℓ κ ι ν} :
    {A : Type ℓ} {B : Type κ} {C : Type ι} (P : A → Type ν) (f : B → Option C) (g : A → B)
    (h : A → Option C) (xs : List A)
    → ((a : A) → P a → f (g a) ≡ h a)
    → All P xs
    → filter_map f (map g xs) ≡ filter_map h xs
filter_map-map P f g h [] same p = refl
filter_map-map P f g h (x ∷ xs) same p =
    ground (arith, same x p.0, filter_map-map P f g h xs same p.1)
