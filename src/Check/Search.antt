-- ===== src/Check/Search.antt =====
-- What the two searches of crates/detersim-check/src/lib.rs share: the counters and the table of
-- visited points, and the tests on them.
pub mod Points
use detersim.Prelude.{ℕ, Bool, true, false, not, ◌&&◌, ◌||◌, Option, List, [], ◌∷◌, get_or, any, Eq}
use detersim.Check.Precedence.{Times, predecessors}

-- The counters and the table of a search: the arguments that `dfs` passes on by reference, but for
-- `used` and `order`, and the fields of `TxnSearch` that change.
pub record Search (S : Type 0) : Type 0 where
  pub explored : ℕ
  pub inconclusive : Bool
  pub seen : List (List Bool × S)

abbrev pub same_bools : List Bool → List Bool → Bool
same_bools [] [] = true
same_bools [] (b ∷ bs) = false
same_bools (a ∷ xs) [] = false
same_bools (true ∷ xs) (b ∷ bs) = b && same_bools xs bs
same_bools (false ∷ xs) (b ∷ bs) = not b && same_bools xs bs

-- Whether `dfs` returns true, with the order that it leaves then; it takes back its changes to
-- `used` and `order` when it returns false.
abbrev pub Found : Type 0 → Type 0
Found S = Option (List ℕ) × Search S

-- An operation that may not be chosen next: it is used, or a predecessor of it is not.
unfoldable pub blocked : List Times → List Bool → ℕ → Bool
blocked times used idx =
    get_or used idx false
    || any (λ pred. not (get_or used pred false)) (get_or (predecessors times) idx [])

-- The point is in the table.
unfoldable pub seen_before :
    {S : Type 0} ⦃same : Eq S⦄ → List (List Bool × S) → List Bool → S → Bool
seen_before ⦃same⦄ seen used state = any (λ e. same_bools e.0 used && same.beq e.1 state) seen
