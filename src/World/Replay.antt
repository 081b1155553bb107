-- ===== src/World/Replay.antt =====
-- What it takes for a step of the simulator to be reproduced from the log of the tape.
pub mod Quiet
pub mod Pops
pub mod Runs
pub mod Handles
use mathlib.Core.List.{append_assoc}
use detersim.Prelude.{ℕ, ◌≡◌, refl, sym, ap, subst, ◌∙◌, List, [], ◌∷◌, ◌++◌, append-nil, length}
use detersim.Tape.{EntropyTape, TapeLabel, draw, log, events}
use detersim.Tape.Record.{CursorFits}
use detersim.Tape.Replay.{mirror, draw-mirror, draw-Drawn}
use detersim.World.{Inner}
use detersim.World.Events.{draw_tape}

abbrev pub Op : Type 0 → Type 0 → Type 0
Op Fut A = Inner Fut → A × Inner Fut

module _ {Fut : Type 0} where
  abbrev pub with_tape : EntropyTape → Inner Fut → Inner Fut
  with_tape t g = record g { tape = t }

  -- The state of a replay of `tape` that has reached the point where `g` stands.
  abbrev pub on : List ℕ → Inner Fut → Inner Fut
  on tape g = with_tape (mirror tape g.tape) g

  -- At this state the operation only appends to the log, and a replay of a tape that begins with the
  -- log does the same.
  pub record Replays {A : Type 0} (op : Op Fut A) (g : Inner Fut) : Type 0 where
    pub fits : CursorFits (op g).1.tape
    pub drawn : List ℕ
    pub grows : log (op g).1.tape ≡ log g.tape ++ drawn
    pub again :
        (tape rest : List ℕ)
        → tape ≡ log (op g).1.tape ++ rest
        → op (on tape g) ≡ ((op g).0, on tape (op g).1)

  abbrev pub IsReplayable : {A : Type 0} → Op Fut A → Type 0
  IsReplayable op = (g : Inner Fut) → CursorFits g.tape → Replays op g

  -- An operation that neither reads nor changes the tape.
  abbrev pub IsQuiet : {A : Type 0} → Op Fut A → Type 0
  IsQuiet op =
      (t : EntropyTape) (g : Inner Fut) → op (with_tape t g) ≡ ((op g).0, with_tape t (op g).1)

  pub IsQuiet-IsReplayable : {A : Type 0} (op : Op Fut A) → IsQuiet op → IsReplayable op
  IsQuiet-IsReplayable op quiet g h =
      let kept : (op g).1.tape ≡ g.tape = ap (λ r. r.1.tape) (quiet g.tape g) in
      record {
        fits = rw kept h;
        drawn = [];
        grows = ap log kept ∙ sym (append-nil (log g.tape));
        again = λ tape rest e.
            quiet (mirror tape g.tape) g
            ∙ ap (λ t. ((op g).0, with_tape (mirror tape t) (op g).1)) (sym kept);
      }

  -- A step from state to state.
  abbrev pub IsQuietStep : (Inner Fut → Inner Fut) → Type 0
  IsQuietStep f = (t : EntropyTape) (g : Inner Fut) → f (with_tape t g) ≡ with_tape t (f g)

  abbrev pub step : (Inner Fut → Inner Fut) → Op Fut (Unit {0})
  step f g = (tt, f g)

  pub step-IsReplayable : (f : Inner Fut → Inner Fut) → IsQuietStep f → IsReplayable (step f)
  step-IsReplayable f quiet =
      IsQuiet-IsReplayable (step f)
        (λ t g. ap (λ (h : Inner Fut). let r : Unit {0} × Inner Fut = (tt, h) in r) (quiet t g))

  pub draw_tape-IsReplayable : (label : TapeLabel) → IsReplayable (draw_tape label)
  draw_tape-IsReplayable label g h =
      let d = draw-Drawn label g.tape h in
      record {
        fits = d.fits;
        drawn = (draw label g.tape).0 ∷ [];
        grows = d.logged;
        again = λ tape rest e.
            ap (λ r. (r.0, with_tape r.1 g)) (draw-mirror label tape rest g.tape h e);
      }

  -- One operation after another.
  pub then-Replays :
      {A B : Type 0} (op : Op Fut A) (next : A → Op Fut B) (g : Inner Fut)
      → Replays op g
      → Replays (next (op g).0) (op g).1
      → Replays (λ s. next (op s).0 (op s).1) g
  then-Replays op next g first second = record {
    fits = second.fits;
    drawn = first.drawn ++ second.drawn;
    grows =
        second.grows
        ∙ ap (λ l. l ++ second.drawn) first.grows
        ∙ append_assoc (log g.tape) first.drawn second.drawn;
    again = λ tape rest e.
        let e' : tape ≡ log (op g).1.tape ++ (second.drawn ++ rest) =
          e
          ∙ ap (λ l. l ++ rest) second.grows
          ∙ append_assoc (log (op g).1.tape) second.drawn rest in
        ap (λ r. next r.0 r.1) (first.again tape (second.drawn ++ rest) e')
        ∙ second.again tape rest e;
  }

  pub then-IsReplayable :
      {A B : Type 0} (op : Op Fut A) (next : A → Op Fut B)
      → IsReplayable op
      → ((a : A) → IsReplayable (next a))
      → IsReplayable (λ s. next (op s).0 (op s).1)
  then-IsReplayable op next first second g h =
      let r = first g h in then-Replays op next g r (second (op g).0 (op g).1 r.fits)

  -- At a state, whatever its tape, one operation may do as another.
  pub Replays-by :
      {A : Type 0} (op other : Op Fut A) (g : Inner Fut)
      → ((t : EntropyTape) → op (with_tape t g) ≡ other (with_tape t g))
      → Replays other g
      → Replays op g
  Replays-by op other g same r =
      let here : op g ≡ other g = same g.tape in
      record {
        fits = subst (λ out. CursorFits out.1.tape) (sym here) r.fits;
        drawn = r.drawn;
        grows = ap (λ out. log out.1.tape) here ∙ r.grows;
        again = λ tape rest e.
            let e' : tape ≡ log (other g).1.tape ++ rest =
              e ∙ ap (λ out. log out.1.tape ++ rest) here in
            same (mirror tape g.tape)
            ∙ r.again tape rest e'
            ∙ ap (λ out. (out.0, on tape out.1)) (sym here);
      }
