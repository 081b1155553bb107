-- ===== src/Text.antt =====
-- Text as the program's `format!`, `split`, `join` and `parse` see it: the list of its characters,
-- each by its code.
pub mod Decimal
pub mod Split
pub mod Search
pub mod Json
pub mod Sets
use Prim.Native.Char.{code}
use Prim.Native.String.{String}
use detersim.Prelude.{
  ℕ, zero, suc, ◌+◌, ◌-◌, ◌*◌, ◌/◌, ◌%◌, ◌≡◌, ◌↔◌, Bool, true, false, ◌&&◌, Option, none, some,
  List, [], ◌∷◌, ◌++◌, ltb, leb, ◌==◌, if◌then◌else◌, ◌>>=◌, ℤ, pos, negsuc, arith,
}

abbrev pub Text : Type 0
Text = List ℕ

-- A text literal. `String` has its own `[]` and `∷`.
abbrev pub codes : String → Text
codes String.[] = []
codes (String.◌∷◌ c s) = code c ∷ codes s

abbrev pub same_text : Text → Text → Bool
same_text [] [] = true
same_text [] (b ∷ t) = false
same_text (a ∷ s) [] = false
same_text (a ∷ s) (b ∷ t) = (a == b) && same_text s t

-- `u64::to_string`, with a turn for each digit at least.
unfoldable pub digits : ℕ → ℕ → Text
digits zero n = []
digits (suc fuel) n =
    let more = digits fuel (n / 10) ++ (b'0' + n % 10) ∷ [] in
    if ltb n 10 then (b'0' + n) ∷ [] else more

unfoldable pub show_ℕ : ℕ → Text
unfolding digits
show_ℕ n = digits (suc n) n

unfoldable pub show_ℤ : ℤ → Text
unfolding show_ℕ
show_ℤ (pos n) = show_ℕ n
show_ℤ (negsuc n) = b'-' ∷ show_ℕ (suc n)

abbrev pub is_digit : ℕ → Bool
is_digit c = leb b'0' c && leb c b'9'

-- The digits that are left, after those of `acc`, as long as the value is below the bound.
unfoldable pub read_digits : ℕ → ℕ → Text → Option ℕ
read_digits bound acc [] = some acc
read_digits bound acc (c ∷ t) =
    let v : ℕ = acc * 10 + (c - b'0') in
    let rest = read_digits bound v t in if is_digit c && ltb v bound then rest else none

abbrev read_some : ℕ → Text → Option ℕ
read_some bound [] = none
read_some bound (c ∷ t) = read_digits bound 0 (c ∷ t)

-- `str::parse` of an unsigned type, for numbers below the bound: a plus sign is accepted.
unfoldable pub parse_ℕ : ℕ → Text → Option ℕ
unfolding read_digits
parse_ℕ bound [] = none
parse_ℕ bound (c ∷ t) = if c == b'+' then read_some bound t else read_some bound (c ∷ t)

abbrev pub negate : ℕ → ℤ
negate zero = pos zero
negate (suc n) = negsuc n

-- `str::parse` of a signed type, for numbers from `- bound` to `bound - 1`.
unfoldable pub parse_ℤ : ℕ → Text → Option ℤ
unfolding parse_ℕ
parse_ℤ bound [] = none
parse_ℤ bound (c ∷ t) =
    let below = read_some (suc bound) t >>= λ n. some (negate n) in
    let above = parse_ℕ bound (c ∷ t) >>= λ n. some (pos n) in if c == b'-' then below else above

abbrev cons_first : ℕ → List Text → List Text
cons_first c [] = (c ∷ []) ∷ []
cons_first c (p ∷ ps) = (c ∷ p) ∷ ps

-- `str::split` on a character.
unfoldable pub split : ℕ → Text → List Text
split sep [] = [] ∷ []
split sep (c ∷ t) = let rest = split sep t in if c == sep then [] ∷ rest else cons_first c rest

-- `join` with one character between.
unfoldable pub join : ℕ → List Text → Text
join sep [] = []
join sep (p ∷ []) = p
join sep (p ∷ q ∷ ps) = p ++ sep ∷ join sep (q ∷ ps)

pub same_text_iff : (s t : Text) → (same_text s t ≡ true) ↔ (s ≡ t)
same_text_iff [] [] = ground arith
same_text_iff [] (b ∷ t) = ground arith
same_text_iff (a ∷ s) [] = ground arith
same_text_iff (a ∷ s) (b ∷ t) = ground (arith, same_text_iff s t)

abbrev pub same_texts : List Text → List Text → Bool
same_texts [] [] = true
same_texts [] (t ∷ ts) = false
same_texts (s ∷ ss) [] = false
same_texts (s ∷ ss) (t ∷ ts) = same_text s t && same_texts ss ts

pub same_texts_iff : (ss ts : List Text) → (same_texts ss ts ≡ true) ↔ (ss ≡ ts)
same_texts_iff [] [] = ground arith
same_texts_iff [] (t ∷ ts) = ground arith
same_texts_iff (s ∷ ss) [] = ground arith
same_texts_iff (s ∷ ss) (t ∷ ts) = ground (arith, same_text_iff s t, same_texts_iff ss ts)
