-- ===== src/Tape/Padding.antt =====
-- A replay past the end of its tape, as the shrinker provokes it.
use mathlib.Core.List.{map-append}
use detersim.Prelude.{
  ℕ, zero, suc, ◌+◌, ◌≡◌, refl, sym, ◌∙◌, ap, List, [], ◌∷◌, ◌++◌, map, length, length-append,
  get_or, range, arith, Option-cases, inl, inr,
}
use detersim.Tape.{
  EntropyTape, TapeLabel, generating, replaying, draw, log, Client, run_client, replay,
}
use detersim.Tape.Record.{range-snoc}

abbrev padded : List ℕ → ℕ → List ℕ
padded tape n = map (λ i. get_or tape i 0) (range 0 n)

abbrev IsPadded : List ℕ → EntropyTape → Type 0
IsPadded tape (generating rng l es) = ⊥
IsPadded tape (replaying tp c l es) = (tp ≡ tape) × (l ≡ padded tape c) × (c ≡ length l)

padded-suc : (tape : List ℕ) (c : ℕ) → padded tape (suc c) ≡ padded tape c ++ get_or tape c 0 ∷ []
padded-suc tape c =
    let z : 0 + c ≡ c = omega arith in
    ap (map (λ i. get_or tape i 0)) (range-snoc c 0)
    ∙ map-append (λ i. get_or tape i 0) (range 0 c) _
    ∙ ap (λ (k : ℕ). padded tape c ++ get_or tape k 0 ∷ []) z

draw-IsPadded :
    (tape : List ℕ) (label : TapeLabel) (t : EntropyTape)
    → IsPadded tape t
    → IsPadded tape (draw label t).1
unfolding draw
draw-IsPadded tape label (generating rng l es) h = h
draw-IsPadded tape label (replaying tp c l es) h = (
  h.0,
  rw (h.0, h.1) (sym (padded-suc tape c)),
  omega (arith, h.2, length-append l (get_or tp c 0 ∷ [])),
)

run_client-IsPadded :
    (tape : List ℕ) (n : ℕ) (client : Client) (seen : List ℕ) (t : EntropyTape)
    → IsPadded tape t
    → IsPadded tape (run_client n client seen t).1
unfolding run_client
run_client-IsPadded tape zero client seen t h = h
run_client-IsPadded tape (suc n) client seen t h = elim (Option-cases (client seen)) [
  | inl e ↦ rw (e, run_client) h
  | inr (label, e) ↦
      rw (e, run_client) (run_client-IsPadded tape n client _ _ (draw-IsPadded tape label t h))
]

IsPadded-log :
    (tape : List ℕ) (t : EntropyTape) → IsPadded tape t → log t ≡ padded tape (length (log t))
IsPadded-log tape (generating rng l es) h = absurd h
IsPadded-log tape (replaying tp c l es) h = h.1 ∙ ap (padded tape) h.2

-- A replay of any tape, however short, logs the tape's values in order and 0 past its end.
pub replay-padded :
    (tape : List ℕ) (n : ℕ) (client : Client)
    → let r = (run_client n client [] (replay tape)).1 in
      log r ≡ map (λ i. get_or tape i 0) (range 0 (length (log r)))
unfolding replay
replay-padded tape n client =
    IsPadded-log tape _ (run_client-IsPadded tape n client [] _ (refl, refl, refl))
