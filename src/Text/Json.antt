-- ===== src/Text/Json.antt =====
-- `escape_json`, which the crates check, search, testkit and viz each have, and a reader of JSON strings.
use detersim.Prelude.{
  ℕ, suc, ◌+◌, ◌-◌, ◌*◌, ◌/◌, ◌%◌, ◌<◌, ◌≡◌, refl, ap, ◌∙◌, Bool, true, false, ◌&&◌, ◌||◌, Option,
  none, some, [], ◌∷◌, ◌++◌, ◌==◌, ltb, leb, if◌then◌else◌, ◌>>=◌, arith, Bool-cases, inl, inr,
}
use detersim.Text.{Text, is_digit}

-- `char::is_control`.
abbrev pub is_control : ℕ → Bool
is_control c = ltb c 0x20 || (leb 0x7f c && leb c 0x9f)

abbrev hex_digit : ℕ → ℕ
hex_digit d = if ltb d 10 then b'0' + d else b'a' + (d - 10)

-- `\u{:04x}` of a control character, which is below 256.
abbrev hex_escape : ℕ → Text
hex_escape c = b'\\' ∷ b'u' ∷ b'0' ∷ b'0' ∷ hex_digit (c / 16) ∷ hex_digit (c % 16) ∷ []

unfoldable pub escape_char : ℕ → Text
escape_char c =
    if c == b'"'
    then b'\\' ∷ b'"' ∷ []
    else if c == b'\\'
    then b'\\' ∷ b'\\' ∷ []
    else if c == b'\n'
    then b'\\' ∷ b'n' ∷ []
    else if c == b'\r'
    then b'\\' ∷ b'r' ∷ []
    else if c == b'\t'
    then b'\\' ∷ b't' ∷ []
    else if is_control c
    then hex_escape c
    else c ∷ []

unfoldable pub escape_json : Text → Text
unfolding escape_char
escape_json [] = []
escape_json (c ∷ t) = escape_char c ++ escape_json t

-- Where a reader of a JSON string stands: between characters, after a backslash, or in the hexadecimal
-- digits of an escape, of which some are read already.
pub data Reader : Type 0 where
  between after_slash : Reader
  in_hex : (digits value : ℕ) → Reader

abbrev hex_value : ℕ → Option ℕ
hex_value c =
    if is_digit c
    then some (c - b'0')
    else if leb b'a' c && leb c b'f'
    then some (c - b'a' + 10)
    else none

-- The character of an escape with one letter.
abbrev letter_of : ℕ → Option ℕ
letter_of c =
    if c == b'n'
    then some b'\n'
    else if c == b'r'
    then some b'\r'
    else if c == b't'
    then some b'\t'
    else if (c == b'"') || (c == b'\\')
    then some c
    else none

abbrev put : Option Text → ℕ → Option Text
put t c = t >>= λ u. some (c ∷ u)

-- The text that a JSON string stands for.
pub read_string : Reader → Text → Option Text
read_string between [] = some []
read_string between (c ∷ t) =
    let rest = read_string between t in
    let escape = read_string after_slash t in
    if c == b'\\' then escape else if (c == b'"') || ltb c 0x20 then none else put rest c
read_string after_slash [] = none
read_string after_slash (c ∷ t) =
    let rest = read_string between t in
    let hex = read_string (in_hex 0 0) t in
    if c == b'u' then hex else letter_of c >>= λ d. put rest d
read_string (in_hex digits value) [] = none
read_string (in_hex digits value) (c ∷ t) = hex_value c >>= λ d. elim (digits == 3) [
  | true ↦ put (read_string between t) (value * 16 + d)
  | false ↦ read_string (in_hex (suc digits) (value * 16 + d)) t
]

hex_value-digit : (d : ℕ) → d < 16 → hex_value (hex_digit d) ≡ some d
hex_value-digit d h = ground (arith, h)

read_string-hex_escape :
    (c : ℕ) (t : Text)
    → is_control c ≡ true
    → read_string between (hex_escape c ++ t) ≡ put (read_string between t) c
unfolding read_string
read_string-hex_escape c t control =
    let small : c < 256 = ground (arith, control) in
    let high : c / 16 < 16 = omega (arith, small) in
    let low : c % 16 < 16 = omega arith in
    let whole : (0 * 16 + c / 16) * 16 + c % 16 ≡ c = omega arith in
    rw (hex_value-digit (c / 16) high, hex_value-digit (c % 16) low)
      (ap (put (read_string between t)) whole)

read_string-escape_char :
    (c : ℕ) (t : Text) → read_string between (escape_char c ++ t) ≡ put (read_string between t) c
unfolding read_string escape_char
read_string-escape_char c t = elim (Bool-cases (c == b'"')) [
  | inl e ↦ let q : c ≡ b'"' = ground (arith, e) in rw q refl
  | inr not_quote ↦ elim (Bool-cases (c == b'\\')) [
    | inl e ↦ let q : c ≡ b'\\' = ground (arith, e) in rw q refl
    | inr not_slash ↦ elim (Bool-cases (c == b'\n')) [
      | inl e ↦ let q : c ≡ b'\n' = ground (arith, e) in rw q refl
      | inr not_newline ↦ elim (Bool-cases (c == b'\r')) [
        | inl e ↦ let q : c ≡ b'\r' = ground (arith, e) in rw q refl
        | inr not_return ↦ elim (Bool-cases (c == b'\t')) [
          | inl e ↦ let q : c ≡ b'\t' = ground (arith, e) in rw q refl
          | inr not_tab ↦ elim (Bool-cases (is_control c)) [
            | inl control ↦
                rw (not_quote, not_slash, not_newline, not_return, not_tab, control)
                  (read_string-hex_escape c t control)
            | inr printed ↦
                let above : ltb c 0x20 ≡ false = ground (arith, printed) in
                rw
                  (
                    not_quote, not_slash, not_newline, not_return, not_tab, printed, not_quote,
                    not_slash, above,
                  )
                  refl
          ]
        ]
      ]
    ]
  ]
]

-- What `escape_json` writes can be put between quotes: a reader of JSON strings gets the text back.
pub read_string-escape_json : (t : Text) → read_string between (escape_json t) ≡ some t
unfolding read_string escape_json
read_string-escape_json [] = refl
read_string-escape_json (c ∷ t) =
    read_string-escape_char c (escape_json t) ∙ ap (λ o. put o c) (read_string-escape_json t)
