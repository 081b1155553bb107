-- ===== src/Text/Split.antt =====
-- Splitting a text at a separator, and joining it again.
use detersim.Prelude.{ℕ, ◌≡◌, refl, ap, ◌∙◌, false, List, [], ◌∷◌, ◌++◌, ◌==◌, arith, All}
use detersim.Text.{Text, split, join}

-- The separator is not in the text.
abbrev pub IsFree : ℕ → Text → Type 0
IsFree sep t = All (λ c. (c == sep) ≡ false) t

pub split-free : (sep : ℕ) (t : Text) → IsFree sep t → split sep t ≡ t ∷ []
unfolding split
split-free sep [] h = refl
split-free sep (c ∷ t) h = ground (arith, split-free sep t h.1)

pub split-append :
    (sep : ℕ) (s t : Text) → IsFree sep s → split sep (s ++ sep ∷ t) ≡ s ∷ split sep t
unfolding split
split-append sep [] t h = ground arith
split-append sep (c ∷ s) t h = ground (arith, split-append sep s t h.1)

-- Split by split.
pub split-join :
    (sep : ℕ) (p : Text) (ps : List Text)
    → All (IsFree sep) (p ∷ ps)
    → split sep (join sep (p ∷ ps)) ≡ p ∷ ps
unfolding join
split-join sep p [] h = split-free sep p h.0
split-join sep p (q ∷ ps) h =
    split-append sep p (join sep (q ∷ ps)) h.0 ∙ ap (◌∷◌ p) (split-join sep q ps h.1)
