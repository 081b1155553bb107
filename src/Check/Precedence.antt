-- ===== src/Check/Precedence.antt =====
-- The real-time order of a history: `predecessors` and `txn_predecessors`, which are one loop over
-- the invocation and completion times.
use detersim.Prelude.{
  ℕ, zero, suc, ◌+◌, ◌-◌, ◌<◌, ◌≡◌, refl, sym, ap, ◌∙◌, Bool, true, false, not, ◌&&◌, Option, none,
  some, List, [], ◌∷◌, ◌++◌, length, replicate, get_or, member, leb, ◌==◌, if◌then◌else◌, arith,
  append-nil, append_assoc, Bool-cases, inl, inr, length-replicate,
}
use native.Mathlib.Decide.{dec_lt, ℕ_discrete}

-- The times of an operation: invocation, and completion if it completed.
abbrev pub Times : Type 0
Times = ℕ × Option ℕ

abbrev pub ends_by : Option ℕ → ℕ → Bool
ends_by none t = false
ends_by (some c) t = leb c t

-- Operation `i` completes before operation `j` is invoked.
abbrev pub precedes : ℕ → Times → ℕ → Times → Bool
precedes i a j b = not (i == j) && ends_by a.1 b.0

-- The inner loop: `i` is pushed on the list of each operation from `j` on that it precedes.
unfoldable pub push_row : ℕ → Times → ℕ → List Times → List (List ℕ) → List (List ℕ)
push_row i a j [] rows = rows
push_row i a j (b ∷ bs) [] = []
push_row i a j (b ∷ bs) (row ∷ rows) =
    (if precedes i a j b then row ++ i ∷ [] else row) ∷ push_row i a (suc j) bs rows

-- The outer loop, from operation `i` on.
unfoldable pub push_rows : List Times → ℕ → List Times → List (List ℕ) → List (List ℕ)
push_rows ops i [] rows = rows
push_rows ops i (a ∷ xs) rows = push_rows ops (suc i) xs (push_row i a 0 ops rows)

unfoldable pub predecessors : List Times → List (List ℕ)
predecessors ops = push_rows ops 0 ops (replicate (length ops) [])

-- The operations, from `i` on, that precede operation `j`.
abbrev hits : ℕ → List Times → ℕ → Times → List ℕ
hits i [] j b = []
hits i (a ∷ xs) j b = let rest = hits (suc i) xs j b in if precedes i a j b then i ∷ rest else rest

abbrev pub no_times : Times
no_times = (0, none)

get_or-push_row :
    (i : ℕ) (a : Times) (j : ℕ) (bs : List Times) (rows : List (List ℕ)) (k : ℕ)
    → length bs ≡ length rows
    → k < length bs
    → get_or (push_row i a j bs rows) k [] ≡ (
        if precedes i a (j + k) (get_or bs k no_times)
        then get_or rows k [] ++ i ∷ []
        else get_or rows k [])
unfolding push_row
get_or-push_row i a j [] rows k e h = absurd (omega arith)
get_or-push_row i a j (b ∷ bs) [] k e h = absurd (omega arith)
get_or-push_row i a j (b ∷ bs) (row ∷ rows) zero e h = let z : j + 0 ≡ j = omega arith in rw z refl
get_or-push_row i a j (b ∷ bs) (row ∷ rows) (suc k) e h =
    let z : j + suc k ≡ suc j + k = omega arith in
    rw z (get_or-push_row i a (suc j) bs rows k (omega arith) (omega arith))

length-push_row :
    (i : ℕ) (a : Times) (j : ℕ) (bs : List Times) (rows : List (List ℕ))
    → length bs ≡ length rows
    → length (push_row i a j bs rows) ≡ length rows
unfolding push_row
length-push_row i a j [] rows e = refl
length-push_row i a j (b ∷ bs) [] e = absurd (omega arith)
length-push_row i a j (b ∷ bs) (row ∷ rows) e =
    ap suc (length-push_row i a (suc j) bs rows (omega arith))

get_or-push_rows :
    (ops : List Times) (i : ℕ) (xs : List Times) (rows : List (List ℕ)) (k : ℕ)
    → length ops ≡ length rows
    → k < length ops
    → get_or (push_rows ops i xs rows) k []
      ≡ get_or rows k [] ++ hits i xs k (get_or ops k no_times)
unfolding push_rows
get_or-push_rows ops i [] rows k e h = sym (append-nil _)
get_or-push_rows ops i (a ∷ xs) rows k e h =
    let b = get_or ops k no_times in
    let z : 0 + k ≡ k = omega arith in
    let one = rw z at (get_or-push_row i a 0 ops rows k e h) in
    let ih =
      get_or-push_rows ops (suc i) xs (push_row i a 0 ops rows) k
        (e ∙ sym (length-push_row i a 0 ops rows e)) h in
    elim (Bool-cases (precedes i a k b)) [
      | inl c ↦ rw c (
          ih
          ∙ ap (λ l. l ++ hits (suc i) xs k b) (rw c at one)
          ∙ append_assoc (get_or rows k []) (i ∷ []) _)
      | inr c ↦ rw c (ih ∙ ap (λ l. l ++ hits (suc i) xs k b) (rw c at one))
    ]

get_or-replicate_nil : (n k : ℕ) → get_or {A = List ℕ} (replicate n []) k [] ≡ []
get_or-replicate_nil zero k = refl
get_or-replicate_nil (suc n) zero = refl
get_or-replicate_nil (suc n) (suc k) = get_or-replicate_nil n k

member-hits :
    (i : ℕ) (xs : List Times) (j : ℕ) (b : Times) (p : ℕ)
    → member p (hits i xs j b)
      ≡ (leb i p && ((leb (suc p) (i + length xs)) && precedes p (get_or xs (p - i) no_times) j b))
member-hits i [] j b p = ground arith
member-hits i (a ∷ xs) j b p = elim (dec_lt i p) [
  | yes later ↦
      let e : p - i ≡ suc (p - suc i) = omega arith in
      rw e (ground (arith, member-hits (suc i) xs j b p, later))
  | no early ↦ elim (ℕ_discrete i p) [
    | yes here ↦
        let e : p - i ≡ 0 = omega arith in rw e (ground (arith, member-hits (suc i) xs j b p, here))
    | no below ↦ ground (arith, member-hits (suc i) xs j b p, early, below)
  ]
]

-- The row of operation `j` holds exactly the operations that complete before `j` is invoked.
pub member-predecessors :
    (ops : List Times) (j p : ℕ)
    → j < length ops
    → member p (get_or (predecessors ops) j [])
      ≡ (leb (suc p) (length ops) && precedes p (get_or ops p no_times) j (get_or ops j no_times))
unfolding predecessors
member-predecessors ops j p h =
    let b = get_or ops j no_times in
    let n = length ops in
    let row : get_or (push_rows ops 0 ops (replicate n [])) j [] ≡ hits 0 ops j b =
      get_or-push_rows ops 0 ops (replicate n []) j (sym (length-replicate n [])) h
      ∙ ap (λ l. l ++ hits 0 ops j b) (get_or-replicate_nil n j) in
    let z : p - 0 ≡ p = omega arith in
    let z' : 0 + n ≡ n = omega arith in
    let z0 : leb 0 p ≡ true = ground arith in
    ap (member p) row ∙ rw (z, z', z0) at (member-hits 0 ops j b p)
