-- ===== src/Prelude/Equality.antt =====
-- Rust's `Eq` on the type parameters of generic code: a test that decides equality.
use Prim.Native.Nat.{ℕ}
use mathlib.Core.Path.{◌≡◌, refl, ap, ◌∙◌}
use mathlib.Core.Bool.{Bool, true, false, ◌&&◌}
use mathlib.Core.Logic.{◌↔◌}
use mathlib.Core.List.{[], ◌∷◌}
use mathlib.Core.Option.{Option, none, some}
use native.Mathlib.Omega.{arith}
use detersim.Prelude.Tests.{◌==◌, ==_iff}
use detersim.Prelude.Maps.{Map}

pub record Eq {ℓ} (A : Type ℓ) : Type ℓ where
  pub beq : A → A → Bool
  pub beq_iff : (a b : A) → (beq a b ≡ true) ↔ (a ≡ b)

instance abbrev pub nat_eq : Eq ℕ
nat_eq = record { beq = ◌==◌; beq_iff = ==_iff }

module _ {ℓ} {A : Type ℓ} ⦃e : Eq A⦄ where
  -- `==` on `Option<A>`.
  abbrev pub same_option : Option A → Option A → Bool
  same_option none none = true
  same_option none (some b) = false
  same_option (some a) none = false
  same_option (some a) (some b) = e.beq a b

  pub same_option→eq : (a b : Option A) → same_option a b ≡ true → a ≡ b
  same_option→eq none none h = refl
  same_option→eq none (some b) h = absurd (ground arith)
  same_option→eq (some a) none h = absurd (ground arith)
  same_option→eq (some a) (some b) h = let q = (e.beq_iff a b).0 h in ground arith

  pub eq→same_option : (a b : Option A) → a ≡ b → same_option a b ≡ true
  eq→same_option none none h = refl
  eq→same_option none (some b) h = absurd (ground arith)
  eq→same_option (some a) none h = absurd (ground arith)
  eq→same_option (some a) (some b) h = (e.beq_iff a b).1 (ground arith)

  -- `==` on `BTreeMap<_, A>` with number keys.
  abbrev pub same_map : Map A → Map A → Bool
  same_map [] [] = true
  same_map [] (f ∷ n) = false
  same_map (f ∷ m) [] = false
  same_map ((k, v) ∷ m) ((j, w) ∷ n) = (k == j) && (e.beq v w && same_map m n)

  pub same_map_iff : (m n : Map A) → (same_map m n ≡ true) ↔ (m ≡ n)
  same_map_iff [] [] = (λ h. refl, λ h. refl)
  same_map_iff [] (f ∷ n) = ground arith
  same_map_iff (f ∷ m) [] = ground arith
  same_map_iff ((k, v) ∷ m) ((j, w) ∷ n) =
      let ih = same_map_iff m n in
      (
        λ h.
            let kj : k ≡ j = (==_iff k j).0 (ground (arith, h)) in
            let vw : v ≡ w = (e.beq_iff v w).0 (ground (arith, h)) in
            let mn : m ≡ n = ih.0 (ground (arith, h)) in
            ap (λ (p : ℕ). (p, v) ∷ m) kj
            ∙ ap (λ (x : A). (j, x) ∷ m) vw
            ∙ ap (λ (r : Map A). (j, w) ∷ r) mn,
        λ h.
            let kj : (k == j) ≡ true = (==_iff k j).1 (let q : k ≡ j = ground arith in q) in
            let vw : e.beq v w ≡ true = (e.beq_iff v w).1 (let q : v ≡ w = ground arith in q) in
            let mn : same_map m n ≡ true = ih.1 (let q : m ≡ n = ground arith in q) in
            ground (arith, kj, vw, mn),
      )

  instance abbrev pub map_eq : Eq (Map A)
  map_eq = record { beq = same_map; beq_iff = same_map_iff }
