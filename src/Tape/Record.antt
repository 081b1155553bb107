-- ===== src/Tape/Record.antt =====
-- What the log and the event list of a tape record, in either mode.
use detersim.Prelude.{
  ℕ, zero, suc, ◌+◌, ◌≡◌, sym, ap, ◌∙◌, List, [], ◌∷◌, ◌++◌, map, length, length-append, get_or,
  range, arith, Option-cases, inl, inr,
}
use mathlib.Core.List.{map-append}
use detersim.Tape.{
  EntropyTape, TapeLabel, generating, replaying, draw, log, events, Client, run_client,
}

-- The cursor of a replay is the number of draws made.
abbrev pub CursorFits : EntropyTape → Type 0
CursorFits (generating rng l es) = Unit
CursorFits (replaying tape cursor l es) = cursor ≡ length l

-- The event list is the log with indices 0, 1, 2, ... and labels.
pub record IsRecorded (t : EntropyTape) : Type 0 where
  pub values : map (λ e. e.value) (events t) ≡ log t
  pub indices : map (λ e. e.index) (events t) ≡ range 0 (length (log t))
  pub cursor_fits : CursorFits t

pub range-snoc : (n s : ℕ) → range s (suc n) ≡ range s n ++ (s + n) ∷ []
range-snoc zero s = let e : s + 0 ≡ s = omega arith in ap (λ (k : ℕ). k ∷ []) (sym e)
range-snoc (suc n) s =
    let e : suc s + n ≡ s + suc n = omega arith in
    ap (◌∷◌ s) (range-snoc n (suc s) ∙ ap (λ (k : ℕ). range (suc s) n ++ k ∷ []) e)

range-length-snoc :
    (l : List ℕ) (v : ℕ) → range 0 (length l) ++ length l ∷ [] ≡ range 0 (length (l ++ v ∷ []))
range-length-snoc l v =
    let e : length (l ++ v ∷ []) ≡ suc (length l) = omega (arith, length-append l (v ∷ [])) in
    let z : 0 + length l ≡ length l = omega arith in
    sym (ap (range 0) e ∙ range-snoc (length l) 0 ∙ ap (λ (k : ℕ). range 0 (length l) ++ k ∷ []) z)

-- A draw keeps the record: the value returned is the last of the log, under the next index.
pub draw-IsRecorded :
    (label : TapeLabel) (t : EntropyTape) → IsRecorded t → IsRecorded (draw label t).1
unfolding draw
draw-IsRecorded label (generating rng l es) h = record {
  values = rw (map-append, h.values);
  indices = rw (map-append, h.indices) (range-length-snoc l _);
  cursor_fits = tt;
}
draw-IsRecorded label (replaying tape cursor l es) h = record {
  values = rw (map-append, h.values);
  indices = rw (map-append, h.indices, h.cursor_fits) (range-length-snoc l _);
  cursor_fits = omega (arith, h.cursor_fits, length-append l (get_or tape cursor 0 ∷ []));
}

-- Every run keeps the record.
pub run_client-IsRecorded :
    (n : ℕ) (client : Client) (seen : List ℕ) (t : EntropyTape)
    → IsRecorded t
    → IsRecorded (run_client n client seen t).1
unfolding run_client
run_client-IsRecorded zero client seen t h = h
run_client-IsRecorded (suc n) client seen t h = elim (Option-cases (client seen)) [
  | inl e ↦ rw (e, run_client) h
  | inr (label, e) ↦
      rw (e, run_client) (run_client-IsRecorded n client _ _ (draw-IsRecorded label t h))
]
