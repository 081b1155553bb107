-- ===== src/Text/Search.antt =====
-- Finding parts of a text.
use detersim.Prelude.{
  ℕ, Bool, true, false, not, ◌&&◌, ◌||◌, Option, none, some, List, [], ◌∷◌, ◌++◌, ◌==◌, leb, ltb,
  if◌then◌else◌, ◌>>=◌, length, replicate, ◌-◌,
}
use detersim.Text.{Text, same_text, is_digit}

-- `strip_prefix`.
abbrev pub strip_prefix : Text → Text → Option Text
strip_prefix [] t = some t
strip_prefix (c ∷ prefix) [] = none
strip_prefix (c ∷ prefix) (d ∷ t) = if c == d then strip_prefix prefix t else none

-- `split_once`: what stands before the first match of a pattern, and after it.
unfoldable pub split_once : Text → Text → Option (Text × Text)
split_once pattern [] = strip_prefix pattern [] >>= λ after. some ([], after)
split_once pattern (c ∷ t) =
    let later = split_once pattern t >>= λ (parts : Text × Text). some (c ∷ parts.0, parts.1) in
    elim (strip_prefix pattern (c ∷ t)) [ some after ↦ some ([], after) | none ↦ later ]

-- `contains`.
unfoldable pub contains_text : Text → Text → Bool
unfolding split_once
contains_text pattern t = elim (split_once pattern t) [ none ↦ false | some parts ↦ true ]

abbrev pub take_while : (ℕ → Bool) → Text → Text
take_while p [] = []
take_while p (c ∷ t) = if p c then c ∷ take_while p t else []

abbrev pub skip_while : (ℕ → Bool) → Text → Text
skip_while p [] = []
skip_while p (c ∷ t) = if p c then skip_while p t else c ∷ t

-- The first part of characters of a kind, if there is one.
unfoldable pub first_word : (ℕ → Bool) → Text → Option Text
first_word p t = elim (take_while p (skip_while (λ c. not (p c)) t)) [
  | [] ↦ none
  | c ∷ w ↦ some (c ∷ w)
]

abbrev pub is_alphanumeric : ℕ → Bool
is_alphanumeric c = is_digit c || ((leb b'A' c && leb c b'Z') || (leb b'a' c && leb c b'z'))

-- `char::is_whitespace`.
abbrev pub is_space : ℕ → Bool
is_space c =
    (leb 9 c && leb c 13)
    || (c == 0x20)
    || (c == 0x85)
    || (c == 0xa0)
    || (c == 0x1680)
    || (leb 0x2000 c && leb c 0x200a)
    || (c == 0x2028)
    || (c == 0x2029)
    || (c == 0x202f)
    || (c == 0x205f)
    || (c == 0x3000)

-- `{:>w}`.
abbrev pub pad_left : ℕ → Text → Text
pad_left width t = replicate (width - length t) b' ' ++ t

-- The order of texts, by their characters.
abbrev pub text_lt : Text → Text → Bool
text_lt [] [] = false
text_lt [] (d ∷ t) = true
text_lt (c ∷ s) [] = false
text_lt (c ∷ s) (d ∷ t) = ltb c d || (c == d) && text_lt s t

-- A `BTreeSet` of texts, as a sorted list.
abbrev pub member_text : Text → List Text → Bool
member_text t [] = false
member_text t (u ∷ s) = same_text u t || member_text t s

unfoldable pub insert_text : Text → List Text → List Text
insert_text t [] = t ∷ []
insert_text t (u ∷ s) =
    let rest = insert_text t s in
    if text_lt t u then t ∷ u ∷ s else if same_text u t then u ∷ s else u ∷ rest

unfoldable pub insert_texts : List Text → List Text → List Text
insert_texts [] s = s
insert_texts (t ∷ ts) s = insert_texts ts (insert_text t s)
