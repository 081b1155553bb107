-- ===== src/Tape/Replay.antt =====
-- Replaying the log of a run reproduces the run.
use mathlib.Core.List.{append_assoc}
use detersim.Prelude.{
  ℕ, zero, suc, ◌+◌, ◌≡◌, refl, sym, ap, ◌∙◌, true, false, some, List, [], ◌∷◌, ◌++◌, append-nil,
  length, length-append, get_or, arith, Option-cases, inl, inr, ◌==◌, leb, ltb,
}
use detersim.Tape.{
  EntropyTape, TapeEvent, TapeLabel, generating, replaying, draw, log, events, Client, run_client,
  replay, diagnostics,
}
use detersim.Tape.Record.{CursorFits}

get_or-append_len : (l rest : List ℕ) (v : ℕ) → get_or (l ++ v ∷ rest) (length l) 0 ≡ v
get_or-append_len [] rest v = refl
get_or-append_len (x ∷ l) rest v = get_or-append_len l rest v

leb-add : (a b : ℕ) → leb (a + b) a ≡ (b == 0)
leb-add a b = ground arith

ltb-add : (a b : ℕ) → ltb (a + b) a ≡ false
ltb-add a b = ground arith

-- What one draw appends, in either mode.
pub record Drawn (label : TapeLabel) (t : EntropyTape) : Type 0 where
  pub logged : log (draw label t).1 ≡ log t ++ (draw label t).0 ∷ []
  pub listed :
      events (draw label t).1
      ≡ events t ++ record { index = length (log t); label = label; value = (draw label t).0 } ∷ []
  pub fits : CursorFits (draw label t).1

pub draw-Drawn : (label : TapeLabel) (t : EntropyTape) → CursorFits t → Drawn label t
unfolding draw
draw-Drawn label (generating rng l es) h = record { logged = refl; listed = refl; fits = tt }
draw-Drawn label (replaying tape cursor l es) h = record {
  logged = refl;
  listed = rw h;
  fits = omega (arith, h, length-append l (get_or tape cursor 0 ∷ []));
}

-- A run only appends to the log.
run_client-extends :
    (n : ℕ) (client : Client) (seen : List ℕ) (t : EntropyTape)
    → CursorFits t
    → (rest : List ℕ) × (log (run_client n client seen t).1 ≡ log t ++ rest)
unfolding run_client
run_client-extends zero client seen t h = ([], sym (append-nil (log t)))
run_client-extends (suc n) client seen t h = elim (Option-cases (client seen)) [
  | inl e ↦ rw (e, run_client) ([], sym (append-nil (log t)))
  | inr (label, e) ↦
      let d = draw-Drawn label t h in
      let (rest, q) =
        run_client-extends n client (seen ++ (draw label t).0 ∷ []) (draw label t).1 d.fits in
      rw (e, run_client)
        ((draw label t).0 ∷ rest, q ∙ ap (λ l. l ++ rest) d.logged ∙ append_assoc (log t) _ _)
]

-- The state of a replay of `tape` that has reached the point where `t` stands.
abbrev pub mirror : List ℕ → EntropyTape → EntropyTape
mirror tape t = replaying tape (length (log t)) (log t) (events t)

draw-replaying :
    (label : TapeLabel) (tape : List ℕ) (c : ℕ) (l : List ℕ) (es : List TapeEvent)
    → draw label (replaying tape c l es) ≡ (
      get_or tape c 0,
      replaying tape
          (suc c)
          (l ++ get_or tape c 0 ∷ [])
          (es ++ record { index = c; label = label; value = get_or tape c 0 } ∷ []),
    )
unfolding draw
draw-replaying label tape c l es = refl

pub draw-mirror :
    (label : TapeLabel) (tape rest : List ℕ) (t : EntropyTape)
    → CursorFits t
    → tape ≡ log (draw label t).1 ++ rest
    → draw label (mirror tape t) ≡ ((draw label t).0, mirror tape (draw label t).1)
draw-mirror label tape rest t h e =
    let d = draw-Drawn label t h in
    let v = (draw label t).0 in
    let split : tape ≡ log t ++ v ∷ rest =
      e ∙ ap (λ l. l ++ rest) d.logged ∙ append_assoc (log t) _ _ in
    let hit : get_or tape (length (log t)) 0 ≡ v =
      ap (λ l. get_or l (length (log t)) 0) split ∙ get_or-append_len (log t) rest v in
    let len : length (log (draw label t).1) ≡ suc (length (log t)) =
      omega (arith, ap length d.logged, length-append (log t) (v ∷ [])) in
    rw (draw-replaying, hit, len, d.logged, d.listed) refl

run_client-mirror :
    (n : ℕ) (client : Client) (seen : List ℕ) (t : EntropyTape) (tape rest : List ℕ)
    → CursorFits t
    → tape ≡ log (run_client n client seen t).1 ++ rest
    → run_client n client seen (mirror tape t)
      ≡ ((run_client n client seen t).0, mirror tape (run_client n client seen t).1)
unfolding run_client
run_client-mirror zero client seen t tape rest h e = refl
run_client-mirror (suc n) client seen t tape rest h e = elim (Option-cases (client seen)) [
  | inl q ↦ rw (q, run_client) refl
  | inr (label, q) ↦
      let d = draw-Drawn label t h in
      let seen' = seen ++ (draw label t).0 ∷ [] in
      let t' = (draw label t).1 in
      let e' : tape ≡ log (run_client n client seen' t').1 ++ rest = rw (q, run_client) at e in
      let (more, x) = run_client-extends n client seen' t' d.fits in
      let first : tape ≡ log t' ++ (more ++ rest) =
        e' ∙ ap (λ l. l ++ rest) x ∙ append_assoc (log t') more rest in
      rw (q, run_client, draw-mirror label tape (more ++ rest) t h first)
        (run_client-mirror n client seen' t' tape rest d.fits e')
]

-- Any run of a client over a fresh tape, generated or replayed, is reproduced by replaying its log,
-- whatever is appended to that log: the same values are drawn, the same log and events are recorded,
-- and the replay reports that it consumed its input exactly when nothing was appended, and that it
-- never ran past the end.
pub replay-run_client :
    (n : ℕ) (client : Client) (t : EntropyTape) (rest : List ℕ)
    → log t ≡ []
    → events t ≡ []
    → CursorFits t
    → let out = run_client n client [] t in
      let again = run_client n client [] (replay (log out.1 ++ rest)) in
      (again.0 ≡ out.0)
      × (log again.1 ≡ log out.1)
      × (events again.1 ≡ events out.1)
      × (diagnostics again.1 ≡ record {
        is_replaying = true;
        input_len = some (length (log out.1) + length rest);
        cursor = length (log out.1);
        consumed_all = length rest == 0;
        exhausted = false;
      })
unfolding replay diagnostics
replay-run_client n client t rest l0 e0 h =
    let m : run_client n client [] (replaying (log (run_client n client [] t).1 ++ rest) 0 [] [])
        ≡ (
          (run_client n client [] t).0,
          mirror (log (run_client n client [] t).1 ++ rest) (run_client n client [] t).1,
        ) =
      rw (l0, e0) at (run_client-mirror n client [] t _ rest h refl) in
    let len = length-append (log (run_client n client [] t).1) rest in
    (rw m, rw m, rw m, rw (m, len, leb-add, ltb-add) refl)
