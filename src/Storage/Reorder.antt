-- ===== src/Storage/Reorder.antt =====
-- The pre-fsync reorder fault: when committing the writes backwards can be told apart.
use detersim.Prelude.{
  ℕ, suc, ◌+◌, ◌≤◌, max, ◌≡◌, refl, ◌∙◌, sym, ap, Bool, true, false, ◌&&◌, ◌⊎◌, inl, inr, List, [],
  ◌∷◌, ◌++◌, length, get_or, ltb, leb, arith, Bool-cases, reverse, All,
}
use mathlib.Core.List.{reverse-cons}
use detersim.Storage.{PageStore, Write, apply_bytes, apply_all, flush}
use detersim.Storage.Bytes.{apply_bytes-overlay, overlay}
use detersim.Storage.Durability.{IsLogged}

-- Two writes that share no byte.
abbrev pub NoOverlap : Write → Write → Type 0
NoOverlap v w = (v.0 + length v.1 ≤ w.0) ⊎ (w.0 + length w.1 ≤ v.0)

abbrev pub Separate : List Write → Type 0
Separate [] = Unit
Separate (w ∷ ws) = All (NoOverlap w) ws × Separate ws

-- What a list of writes does to the byte at `i`, and to the length.
abbrev layers : List Write → ℕ → ℕ → ℕ
layers [] i old = old
layers (w ∷ ws) i old = layers ws i (overlay w.0 w.1 i old)

abbrev reach : List Write → ℕ → ℕ
reach [] n = n
reach (w ∷ ws) n = reach ws (max n (w.0 + length w.1))

get_or-apply_all :
    (ws : List Write) (t : List ℕ) (i : ℕ)
    → get_or (apply_all ws t) i 0 ≡ layers ws i (get_or t i 0)
unfolding apply_all
get_or-apply_all [] t i = refl
get_or-apply_all (w ∷ ws) t i =
    get_or-apply_all ws (apply_bytes t w.0 w.1) i
    ∙ ap (layers ws i) ((apply_bytes-overlay t w.0 w.1).0 i)

length-apply_all : (ws : List Write) (t : List ℕ) → length (apply_all ws t) ≡ reach ws (length t)
unfolding apply_all
length-apply_all [] t = refl
length-apply_all (w ∷ ws) t =
    length-apply_all ws (apply_bytes t w.0 w.1) ∙ ap (reach ws) (apply_bytes-overlay t w.0 w.1).1

layers-append :
    (xs ys : List Write) (i old : ℕ) → layers (xs ++ ys) i old ≡ layers ys i (layers xs i old)
layers-append [] ys i old = refl
layers-append (w ∷ xs) ys i old = layers-append xs ys i (overlay w.0 w.1 i old)

reach-append : (xs ys : List Write) (n : ℕ) → reach (xs ++ ys) n ≡ reach ys (reach xs n)
reach-append [] ys n = refl
reach-append (w ∷ xs) ys n = reach-append xs ys _

abbrev covers : Write → ℕ → Bool
covers w i = leb w.0 i && ltb i (w.0 + length w.1)

layers_outside :
    (w : Write) (ws : List Write) (i old : ℕ)
    → covers w i ≡ true
    → All (NoOverlap w) ws
    → layers ws i old ≡ old
layers_outside w [] i old c h = refl
layers_outside w (v ∷ ws) i old c h =
    let off : overlay v.0 v.1 i old ≡ old = ground (arith, h.0) in
    ap (layers ws i) off ∙ layers_outside w ws i old c h.1

layers-reverse :
    (ws : List Write) (i old : ℕ) → Separate ws → layers (reverse ws) i old ≡ layers ws i old
layers-reverse [] i old h = refl
layers-reverse (w ∷ ws) i old h =
    let back : layers (reverse (w ∷ ws)) i old ≡ overlay w.0 w.1 i (layers ws i old) =
      rw (reverse-cons w ws, layers-append (reverse ws) (w ∷ []) i old)
        (ap (overlay w.0 w.1 i) (layers-reverse ws i old h.1)) in
    elim (Bool-cases (covers w i)) [
      | inl c ↦
          let here : overlay w.0 w.1 i (layers ws i old) ≡ overlay w.0 w.1 i old = rw c refl in
          back ∙ here ∙ sym (layers_outside w ws i _ c h.0)
      | inr c ↦ back ∙ rw c refl
    ]

reach-max : (ws : List Write) (n m : ℕ) → reach ws (max n m) ≡ max (reach ws n) m
reach-max [] n m = refl
reach-max (w ∷ ws) n m =
    let e : max (max n m) (w.0 + length w.1) ≡ max (max n (w.0 + length w.1)) m = omega arith in
    ap (reach ws) e ∙ reach-max ws _ m

reach-reverse : (ws : List Write) (n : ℕ) → reach (reverse ws) n ≡ reach ws n
reach-reverse [] n = refl
reach-reverse (w ∷ ws) n =
    rw (reverse-cons w ws, reach-append (reverse ws) (w ∷ []) n)
      (ap (λ (k : ℕ). max k (w.0 + length w.1)) (reach-reverse ws n) ∙ sym (reach-max ws n _))

bytes_ext :
    (xs ys : List ℕ) → length xs ≡ length ys → ((i : ℕ) → get_or xs i 0 ≡ get_or ys i 0) → xs ≡ ys
bytes_ext [] [] e h = refl
bytes_ext [] (y ∷ ys) e h = absurd (omega arith)
bytes_ext (x ∷ xs) [] e h = absurd (omega arith)
bytes_ext (x ∷ xs) (y ∷ ys) e h =
    let head : x ≡ y = h 0 in let rest = bytes_ext xs ys (omega arith) (λ i. h (suc i)) in cc

-- Applying writes that do not overlap in reverse order gives the same image.
pub apply_all-reverse :
    (ws : List Write) (t : List ℕ) → Separate ws → apply_all (reverse ws) t ≡ apply_all ws t
apply_all-reverse ws t h =
    bytes_ext _ _
      (length-apply_all (reverse ws) t ∙ reach-reverse ws (length t) ∙ sym (length-apply_all ws t))
      λ i.
        get_or-apply_all (reverse ws) t i
        ∙ layers-reverse ws i (get_or t i 0) h
        ∙ sym (get_or-apply_all ws t i)

-- The reorder fault shows only where unflushed writes overlap: a flush under it commits the same
-- image as an ordinary flush whenever the logged writes are pairwise disjoint.
pub flush_reorder_disjoint :
    (s : PageStore) → IsLogged s → Separate s.write_log → flush true s ≡ flush false s
unfolding flush
flush_reorder_disjoint s logged apart = elim (Bool-cases (ltb 1 (length s.write_log))) [
  | inl many ↦
      let same : apply_all (reverse s.write_log) s.committed ≡ s.pending =
        apply_all-reverse s.write_log s.committed apart ∙ sym logged in
      rw (many, same) refl
  | inr few ↦ rw few refl
]
