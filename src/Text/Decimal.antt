-- ===== src/Text/Decimal.antt =====
-- A number that is printed is read back.
use detersim.Prelude.{
  ℕ, zero, suc, ◌+◌, ◌-◌, ◌*◌, ◌/◌, ◌%◌, ◌<◌, ◌≡◌, refl, ap, ◌∙◌, true, some, [], ◌∷◌, ◌++◌, ltb,
  ◌>>=◌, ℤ, pos, negsuc, arith, All, All-append, Bool-cases, inl, inr,
}
use detersim.Text.{Text, digits, show_ℕ, show_ℤ, is_digit, read_digits, parse_ℕ, parse_ℤ}

abbrev pub IsDecimal : Text → Type 0
IsDecimal t = All (λ c. is_digit c ≡ true) t

digits-IsDecimal : (fuel n : ℕ) → IsDecimal (digits fuel n)
unfolding digits
digits-IsDecimal zero n = tt
digits-IsDecimal (suc fuel) n = elim (Bool-cases (ltb n 10)) [
  | inl small ↦ rw small (ground arith, tt)
  | inr large ↦ rw large (
      All-append (λ c. is_digit c ≡ true) (digits fuel (n / 10)) _ (digits-IsDecimal fuel (n / 10))
        (ground arith, tt))
]

read_digits-append :
    (bound acc : ℕ) (s t : Text)
    → read_digits bound acc (s ++ t) ≡ (read_digits bound acc s >>= λ v. read_digits bound v t)
unfolding read_digits
read_digits-append bound acc [] t = refl
read_digits-append bound acc (c ∷ s) t =
    ground (arith, read_digits-append bound (acc * 10 + (c - b'0')) s t)

read_digits-digits :
    (bound fuel n : ℕ) → n < fuel → n < bound → read_digits bound 0 (digits fuel n) ≡ some n
unfolding digits read_digits
read_digits-digits bound zero n h b = absurd (omega arith)
read_digits-digits bound (suc fuel) n h b = elim (Bool-cases (ltb n 10)) [
  | inl small ↦ rw small (ground arith)
  | inr large ↦
      let ih = read_digits-digits bound fuel (n / 10) (ground arith) (ground arith) in
      rw large (read_digits-append bound 0 (digits fuel (n / 10)) _ ∙ rw ih (ground arith))
]

-- What is printed begins with a digit.
pub show_ℕ-IsDecimal : (n : ℕ) → IsDecimal (show_ℕ n)
unfolding show_ℕ
show_ℕ-IsDecimal n = digits-IsDecimal (suc n) n

digits-cons :
    (fuel n : ℕ) → (c : ℕ) × (t : Text) × (digits (suc fuel) n ≡ c ∷ t) × (is_digit c ≡ true)
unfolding digits
digits-cons zero n = elim (Bool-cases (ltb n 10)) [
  | inl small ↦ rw small (_, _, refl, ground arith)
  | inr large ↦ rw large (_, _, refl, ground arith)
]
digits-cons (suc fuel) n = elim (Bool-cases (ltb n 10)) [
  | inl small ↦ rw small (_, _, refl, ground arith)
  | inr large ↦
      let (c, t, e, d) = digits-cons fuel (n / 10) in
      (c, t ++ (b'0' + n % 10) ∷ [], rw (large, digits) (ap (λ u. u ++ (b'0' + n % 10) ∷ []) e), d)
]

pub show_ℕ-cons : (n : ℕ) → (c : ℕ) × (t : Text) × (show_ℕ n ≡ c ∷ t) × (is_digit c ≡ true)
unfolding show_ℕ
show_ℕ-cons n = digits-cons n n

pub parse_ℕ-show_ℕ : (bound n : ℕ) → n < bound → parse_ℕ bound (show_ℕ n) ≡ some n
unfolding parse_ℕ show_ℕ
parse_ℕ-show_ℕ bound n b =
    let (c, t, e, d) = digits-cons n n in
    let whole = read_digits-digits bound (suc n) n (omega arith) b in ground (arith, e, whole, d)

-- From `- bound` to `bound - 1`.
abbrev pub Fits : ℕ → ℤ → Type 0
Fits bound (pos n) = n < bound
Fits bound (negsuc n) = n < bound

pub parse_ℤ-show_ℤ : (bound : ℕ) (z : ℤ) → Fits bound z → parse_ℤ bound (show_ℤ z) ≡ some z
unfolding parse_ℤ show_ℤ parse_ℕ
parse_ℤ-show_ℤ bound (pos n) h =
    let (c, t, e, d) = digits-cons n n in
    let whole = parse_ℕ-show_ℕ bound n h in ground (arith, e, whole, d)
parse_ℤ-show_ℤ bound (negsuc n) h =
    let (c, t, e, d) = digits-cons (suc n) (suc n) in
    let whole = read_digits-digits (suc bound) (suc (suc n)) (suc n) (omega arith) (omega arith) in
    ground (arith, e, whole, d)
