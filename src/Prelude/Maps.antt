-- ===== src/Prelude/Maps.antt =====
-- `BTreeMap` and `BTreeSet` with number keys, as lists sorted by key. The laws on `lookup` and
-- `member` hold of every list, sorted or not.
use Prim.Native.Nat.{ℕ}
use mathlib.Core.Path.{◌≡◌, refl, subst₂}
use mathlib.Core.Logic.{inl, inr}
use mathlib.Core.Bool.{Bool, false, not, ◌&&◌, ◌||◌}
use mathlib.Core.List.{List, [], ◌∷◌}
use mathlib.Core.Option.{Option, none, some}
use native.Mathlib.Omega.{arith}
use detersim.Prelude.Tests.{if◌then◌else◌, ◌==◌, ltb, Bool-cases, ==_iff}
use detersim.Prelude.Lists.{filter}

abbrev pub Map {ℓ} : Type ℓ → Type ℓ
Map V = List (ℕ × V)

module _ {ℓ} {V : Type ℓ} where
  -- `get`.
  abbrev pub lookup : ℕ → Map V → Option V
  lookup k [] = none
  lookup k ((j, v) ∷ m) = if j == k then some v else lookup k m

  abbrev pub insert : ℕ → V → Map V → Map V
  insert k v [] = (k, v) ∷ []
  insert k v ((j, w) ∷ m) =
      if ltb k j then (k, v) ∷ (j, w) ∷ m else if j == k then (k, v) ∷ m else (j, w) ∷ insert k v m

  -- `retain`.
  abbrev pub retain : (ℕ → V → Bool) → Map V → Map V
  retain p [] = []
  retain p ((j, v) ∷ m) = let rest = retain p m in if p j v then (j, v) ∷ rest else rest

  -- A change of the value at a key, if it is there: `get_mut`.
  abbrev pub update : ℕ → (V → V) → Map V → Map V
  update k f [] = []
  update k f ((j, v) ∷ m) = if j == k then (j, f v) ∷ m else (j, v) ∷ update k f m

  abbrev pub remove : ℕ → Map V → Map V
  remove k m = retain (λ j _. not (j == k)) m

  abbrev pub contains_key : ℕ → Map V → Bool
  contains_key k [] = false
  contains_key k ((j, v) ∷ m) = (j == k) || contains_key k m

  -- The value at a key, or the default when it is missing: `entry(k).or_default()`.
  abbrev pub lookup_or : ℕ → V → Map V → V
  lookup_or k d m = elim (lookup k m) [ none ↦ d | some v ↦ v ]

  pub lookup-insert :
      (k j : ℕ) (v : V) (m : Map V)
      → lookup j (insert k v m) ≡ (if k == j then some v else lookup j m)
  lookup-insert k j v [] = refl
  lookup-insert k j v ((i, w) ∷ m) = ground (arith, lookup-insert k j v m)

  pub lookup-remove :
      (k j : ℕ) (m : Map V) → lookup j (remove k m) ≡ (if k == j then none else lookup j m)
  lookup-remove k j [] = ground arith
  lookup-remove k j ((i, w) ∷ m) = ground (arith, lookup-remove k j m)

  -- A predicate on every entry.
  abbrev pub Entries {κ} : (ℕ → V → Type κ) → Map V → Type κ
  Entries P [] = Unit
  Entries P ((k, v) ∷ m) = P k v × Entries P m

  pub Entries-insert {κ} :
      (P : ℕ → V → Type κ) (k : ℕ) (v : V) (m : Map V)
      → P k v
      → Entries P m
      → Entries P (insert k v m)
  Entries-insert P k v [] p h = (p, tt)
  Entries-insert P k v ((j, w) ∷ m) p h = ground (arith, Entries-insert P k v m p h.1)

  pub Entries-retain {κ} :
      (P : ℕ → V → Type κ) (p : ℕ → V → Bool) (m : Map V) → Entries P m → Entries P (retain p m)
  Entries-retain P p [] h = tt
  Entries-retain P p ((j, w) ∷ m) h = ground (arith, Entries-retain P p m h.1)

  pub Entries-lookup {κ} :
      (P : ℕ → V → Type κ) (k : ℕ) (m : Map V) {v : V} → Entries P m → lookup k m ≡ some v → P k v
  Entries-lookup P k [] h e = absurd (ground arith)
  Entries-lookup P k ((j, w) ∷ m) {v} h e = elim (Bool-cases (j == k)) [
    | inl hit ↦ subst₂ P ((==_iff j k).0 hit) (let same : w ≡ v = ground arith in same) h.0
    | inr miss ↦ Entries-lookup P k m h.1 (rw miss at e)
  ]

  pub Entries-imp {κ κ'} :
      (P : ℕ → V → Type κ) (Q : ℕ → V → Type κ') (m : Map V)
      → ((k : ℕ) (v : V) → P k v → Q k v)
      → Entries P m
      → Entries Q m
  Entries-imp P Q [] f h = tt
  Entries-imp P Q ((k, v) ∷ m) f h = (f k v h.0, Entries-imp P Q m f h.1)

-- `BTreeSet::contains`.
abbrev pub member : ℕ → List ℕ → Bool
member k [] = false
member k (j ∷ s) = (j == k) || member k s

abbrev pub set_insert : ℕ → List ℕ → List ℕ
set_insert k [] = k ∷ []
set_insert k (j ∷ s) = if ltb k j then k ∷ j ∷ s else if j == k then j ∷ s else j ∷ set_insert k s

abbrev pub set_remove : ℕ → List ℕ → List ℕ
set_remove k s = filter (λ j. not (j == k)) s

pub member-set_insert :
    (k j : ℕ) (s : List ℕ) → member j (set_insert k s) ≡ ((k == j) || member j s)
member-set_insert k j [] = refl
member-set_insert k j (i ∷ s) = ground (arith, member-set_insert k j s)

pub member-set_remove :
    (k j : ℕ) (s : List ℕ) → member j (set_remove k s) ≡ (not (k == j) && member j s)
member-set_remove k j [] = ground arith
member-set_remove k j (i ∷ s) = ground (arith, member-set_remove k j s)
