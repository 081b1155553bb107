-- ===== src/Storage/Bytes.antt =====
-- The device byte by byte: `apply_bytes` against its description as an overlay.
use detersim.Prelude.{
  ℕ, zero, suc, ◌+◌, ◌-◌, ◌≤◌, max, ◌≡◌, refl, ◌∙◌, ap, ◌&&◌, List, [], ◌∷◌, ◌++◌, length, take,
  drop, replicate, get_or, ltb, leb, if◌then◌else◌, arith, Bool-cases, inl, inr, ltb→lt,
  length-append, length-take, length-drop, length-replicate,
}
use detersim.Storage.{apply_bytes, splice, resize}

get_or-append :
    (xs ys : List ℕ) (i : ℕ)
    → get_or (xs ++ ys) i 0
      ≡ (if ltb i (length xs) then get_or xs i 0 else get_or ys (i - length xs) 0)
get_or-append [] ys i = let e : i - 0 ≡ i = omega arith in ground (arith, e)
get_or-append (x ∷ xs) ys zero = ground arith
get_or-append (x ∷ xs) ys (suc i) =
    let e : suc i - suc (length xs) ≡ i - length xs = omega arith in
    ground (arith, e, get_or-append xs ys i)

get_or-take :
    (n : ℕ) (xs : List ℕ) (i : ℕ) → get_or (take n xs) i 0 ≡ (if ltb i n then get_or xs i 0 else 0)
get_or-take zero xs i = ground arith
get_or-take (suc n) [] i = ground arith
get_or-take (suc n) (x ∷ xs) zero = ground arith
get_or-take (suc n) (x ∷ xs) (suc i) = ground (arith, get_or-take n xs i)

get_or-drop : (n : ℕ) (xs : List ℕ) (i : ℕ) → get_or (drop n xs) i 0 ≡ get_or xs (n + i) 0
get_or-drop zero xs i = let e : 0 + i ≡ i = omega arith in rw e
get_or-drop (suc n) [] i = refl
get_or-drop (suc n) (x ∷ xs) i =
    let e : suc n + i ≡ suc (n + i) = omega arith in rw e (get_or-drop n xs i)

get_or-drop_back :
    (n : ℕ) (xs : List ℕ) (i : ℕ) → n ≤ i → get_or (drop n xs) (i - n) 0 ≡ get_or xs i 0
get_or-drop_back n xs i h =
    let e : n + (i - n) ≡ i = omega arith in
    get_or-drop n xs (i - n) ∙ ap (λ (k : ℕ). get_or xs k 0) e

get_or-zeros : (n i : ℕ) → get_or {A = ℕ} (replicate n 0) i 0 ≡ 0
get_or-zeros zero i = refl
get_or-zeros (suc n) zero = refl
get_or-zeros (suc n) (suc i) = get_or-zeros n i

get_or_beyond : (xs : List ℕ) (i : ℕ) → length xs ≤ i → get_or xs i 0 ≡ 0
get_or_beyond [] i h = refl
get_or_beyond (x ∷ xs) zero h = absurd (omega arith)
get_or_beyond (x ∷ xs) (suc i) h = get_or_beyond xs i (omega arith)

get_or-resize : (n : ℕ) (xs : List ℕ) (i : ℕ) → get_or (resize n xs) i 0 ≡ get_or xs i 0
get_or-resize n xs i = ground (
  arith,
  get_or-append xs (replicate (n - length xs) 0) i,
  get_or-zeros (n - length xs) (i - length xs),
  get_or_beyond xs i,
)

-- The byte of an overlay of `bytes` at `start` over `old`.
abbrev pub overlay : ℕ → List ℕ → ℕ → ℕ → ℕ
overlay start bytes i old =
    if leb start i && ltb i (start + length bytes) then get_or bytes (i - start) 0 else old

get_or-splice :
    (start : ℕ) (bytes target : List ℕ) (i : ℕ)
    → start + length bytes ≤ length target
    → get_or (splice start bytes target) i 0 ≡ overlay start bytes i (get_or target i 0)
get_or-splice start bytes target i h =
    let head = take start target in
    let rest = drop (start + length bytes) target in
    let lh : length head ≡ start = omega (arith, length-take start target) in
    let e : i - start - length bytes ≡ i - (start + length bytes) = omega arith in
    let outer = rw lh at (get_or-append head (bytes ++ rest) i) in
    let inner = rw e at (get_or-append bytes rest (i - start)) in
    ground (
      arith,
      outer,
      inner,
      get_or-take start target i,
      get_or-drop_back (start + length bytes) target i,
    )

length-splice :
    (start : ℕ) (bytes target : List ℕ)
    → start + length bytes ≤ length target
    → length (splice start bytes target) ≡ length target
length-splice start bytes target h = omega (
  arith,
  length-append (take start target) (bytes ++ drop (start + length bytes) target),
  length-append bytes (drop (start + length bytes) target),
  length-take start target,
  length-drop (start + length bytes) target,
)

pub length-resize : (n : ℕ) (xs : List ℕ) → length (resize n xs) ≡ max n (length xs)
length-resize n xs = omega (
  arith,
  length-append xs (replicate (n - length xs) 0),
  length-replicate {A = ℕ} (n - length xs) 0,
)

-- A write overlays its bytes, zero-fills a gap before them, and grows the device to their end.
pub apply_bytes-overlay :
    (target : List ℕ) (start : ℕ) (bytes : List ℕ)
    → ((i : ℕ)
        → get_or (apply_bytes target start bytes) i 0 ≡ overlay start bytes i (get_or target i 0))
      × (length (apply_bytes target start bytes) ≡ max (length target) (start + length bytes))
unfolding apply_bytes
apply_bytes-overlay target start bytes =
    let end = start + length bytes in
    let long = length-resize end target in
    elim (Bool-cases (ltb (length target) end)) [
      | inl short ↦
          let bigger = ltb→lt (length target) end short in
          rw short (
            λ i.
                get_or-splice start bytes (resize end target) i (omega arith)
                ∙ ap (overlay start bytes i) (get_or-resize end target i),
            length-splice start bytes (resize end target) (omega arith) ∙ long ∙ omega arith,
          )
      | inr fits ↦
          let enough : end ≤ length target = ground arith in
          rw fits (
            λ i. get_or-splice start bytes target i enough,
            length-splice start bytes target enough ∙ omega arith,
          )
    ]
