-- ===== src/World/Replay/Pops.antt =====
-- `pop_until_poll` and the events that it handles are reproduced from the log of the tape.
use detersim.Prelude.{
  ℕ, zero, suc, ◌%◌, min, ◌≡◌, refl, ap, ◌∙◌, Bool, true, false, not, ◌||◌, Option, none, some,
  List, [], ◌∷◌, member, ltb, if◌then◌else◌, Bool-cases, List-cases, inl, inr,
}
use detersim.Tape.{EntropyTape, TapeLabel, drop_decision}
use detersim.Nemesis.Connectivity.{is_connected}
use detersim.World.{
  EventKind, Keyed, Inner, Message, TraceLine, DropKind, poll_task, timer_fire, deliver_msg,
  nemesis, unregistered, crashed_end, partitioned, random_drop,
}
use detersim.World.Events.{draw_percent, draw_tape}
use detersim.World.Dispatch.{
  PopResult, dispatch, drop_line, fire_timer, accept, deliver, strike, wake, handle, spent, popped,
  pop_loop, pop_until_poll, turns, quiesce, abort,
}
use detersim.World.Replay.{
  Op, with_tape, IsReplayable, IsQuiet-IsReplayable, step, step-IsReplayable,
  draw_tape-IsReplayable, then-IsReplayable, Replays-by,
}
use detersim.World.Replay.Quiet.{fire_timer-IsQuiet, accept-IsQuiet, strike-IsQuiet, wake-IsQuiet}

module _ {Fut : Type 0} where
  -- The end of an operation.
  abbrev pub ret : {A : Type 0} → A → Op Fut A
  ret a g = (a, g)

  pub ret-IsReplayable : {A : Type 0} (a : A) → IsReplayable (ret a)
  ret-IsReplayable a = IsQuiet-IsReplayable (ret a) (λ t g. refl)

  pub draw_percent-IsReplayable :
      (percent : ℕ) (label : TapeLabel) → IsReplayable {Fut = Fut} (draw_percent percent label)
  unfolding draw_percent
  draw_percent-IsReplayable percent label g h = elim (Bool-cases (ltb 0 percent)) [
    | inl some_percent ↦
        Replays-by (draw_percent percent label) _ g (λ t. rw (some_percent, draw_percent) refl)
          (then-IsReplayable (draw_tape label) (λ v. ret (ltb (v % 100) (min percent 100)))
            (draw_tape-IsReplayable label) (λ v. ret-IsReplayable (ltb (v % 100) (min percent 100)))
            g h)
    | inr never ↦
        Replays-by (draw_percent percent label) (ret false) g (λ t. rw (never, draw_percent) refl)
          (ret-IsReplayable false g h)
  ]

  dispatch-IsReplayable : (line : TraceLine) → IsReplayable {Fut = Fut} (step (dispatch line))
  dispatch-IsReplayable line = step-IsReplayable (dispatch line) (λ t g. refl)

  -- The message is lost by chance, or it arrives.
  arrive : Keyed → ℕ → ℕ → Message → Bool → Op Fut Unit
  arrive event from to msg true = step (dispatch (drop_line random_drop event from to))
  arrive event from to msg false = step (accept event from to msg)

  arrive_lem :
      (event : Keyed) (from to : ℕ) (msg : Message) (lost : Bool) (g : Inner Fut)
      → step
          (λ s.
            if lost
            then dispatch (drop_line random_drop event from to) s
            else accept event from to msg s)
          g
        ≡ arrive event from to msg lost g
  unfolding arrive
  arrive_lem event from to msg true g = refl
  arrive_lem event from to msg false g = refl

  arrive-IsReplayable :
      (event : Keyed) (from to : ℕ) (msg : Message) (lost : Bool)
      → IsReplayable (arrive event from to msg lost)
  unfolding arrive
  arrive-IsReplayable event from to msg true = dispatch-IsReplayable _
  arrive-IsReplayable event from to msg false =
      step-IsReplayable (accept event from to msg) (accept-IsQuiet event from to msg)

  deliver-IsReplayable :
      (event : Keyed) (from to : ℕ) (msg : Message)
      → IsReplayable {Fut = Fut} (step (deliver event from to msg))
  unfolding deliver arrive
  deliver-IsReplayable event from to msg g h =
      let by = Replays-by (step (deliver event from to msg)) in
      let drop = λ (why : DropKind). dispatch-IsReplayable (drop_line why event from to) g h in
      let percent = g.faults.drop_percent in
      elim (Bool-cases (not (member to g.nodes))) [
        | inl a ↦ by _ g (λ t. rw (a, deliver) refl) (drop unregistered)
        | inr a ↦ elim (Bool-cases (member to g.crashed || member from g.crashed)) [
          | inl b ↦ by _ g (λ t. rw (a, b, deliver) refl) (drop crashed_end)
          | inr b ↦ elim (Bool-cases (not (is_connected from to g.faults.connectivity))) [
            | inl c ↦ by _ g (λ t. rw (a, b, c, deliver) refl) (drop partitioned)
            | inr c ↦
                by
                  (λ s.
                    arrive event from to msg (draw_percent percent drop_decision s).0
                      (draw_percent percent drop_decision s).1)
                  g
                  (λ t.
                    let r = draw_percent percent drop_decision (with_tape t g) in
                    rw (a, b, c, deliver) (arrive_lem event from to msg r.0 r.1))
                  (then-IsReplayable (draw_percent percent drop_decision) (arrive event from to msg)
                    (draw_percent-IsReplayable percent drop_decision)
                    (arrive-IsReplayable event from to msg) g h)
          ]
        ]
      ]

  handle-IsReplayable :
      (event : Keyed) (kind : EventKind) → IsReplayable {Fut = Fut} (handle event kind)
  unfolding handle
  handle-IsReplayable event (timer_fire timer) =
      then-IsReplayable (step (fire_timer event timer)) (λ u. ret none)
        (step-IsReplayable (fire_timer event timer) (fire_timer-IsQuiet event timer))
        (λ u. ret-IsReplayable none)
  handle-IsReplayable event (deliver_msg from to msg) =
      then-IsReplayable (step (deliver event from to msg)) (λ u. ret none)
        (deliver-IsReplayable event from to msg) (λ u. ret-IsReplayable none)
  handle-IsReplayable event (nemesis action) =
      IsQuiet-IsReplayable (strike event action) (strike-IsQuiet event action)
  handle-IsReplayable event (poll_task task) =
      IsQuiet-IsReplayable (wake event task) (wake-IsQuiet event task)

  -- After a turn of the loop.
  go_on : ℕ → Option (PopResult Fut) → Op Fut (PopResult Fut)
  go_on n (some r) g = (r, g)
  go_on n none g = pop_loop n g

  go_on_lem :
      (n : ℕ) (result : Option (PopResult Fut)) (g : Inner Fut)
      → elim result as (λ r. PopResult Fut × Inner Fut) [ some r ↦ (r, g) | none ↦ pop_loop n g ]
        ≡ go_on n result g
  unfolding go_on
  go_on_lem n (some r) g = refl
  go_on_lem n none g = refl

  -- A turn of the loop with an event at hand; the test says whether the run is over.
  turn : ℕ → Keyed → List Keyed → Bool → Op Fut (PopResult Fut)
  turn n event rest true g = (abort, popped event rest g)
  turn n event rest false g =
      let (result, g') = handle event event.kind (popped event rest g) in go_on n result g'

  pop_loop-turn :
      (n : ℕ) (event : Keyed) (rest : List Keyed) (g : Inner Fut)
      → g.queue ≡ event ∷ rest
      → pop_loop (suc n) g ≡ turn n event rest (spent (popped event rest g)) g
  unfolding pop_loop turn
  pop_loop-turn n event rest g e =
      let at = λ (q : List Keyed).
        let out : PopResult Fut × Inner Fut = elim q [
          | [] ↦ (quiesce, g)
          | event ∷ rest ↦ elim (spent (popped event rest g)) [
            | true ↦ (abort, popped event rest g)
            | false ↦
                let (result, g') = handle event event.kind (popped event rest g) in
                elim result [ some r ↦ (r, g') | none ↦ pop_loop n g' ]
          ]
        ] in
        out in
      let end = handle event event.kind (popped event rest g) in
      let rest_of = go_on_lem n end.0 end.1 in
      ap at e ∙ (elim (Bool-cases (spent (popped event rest g))) [
        | inl over ↦ rw (over, turn) refl
        | inr more ↦ rw (more, turn) rest_of
      ])

  pop_loop-IsReplayable : (n : ℕ) → IsReplayable {Fut = Fut} (pop_loop n)
  unfolding pop_loop go_on turn
  pop_loop-IsReplayable zero g h = ret-IsReplayable quiesce g h
  pop_loop-IsReplayable (suc n) g h =
      let next : (r : Option (PopResult Fut)) → IsReplayable (go_on n r) = λ r.
        elim r as (λ r. IsReplayable (go_on n r)) [
          | some a ↦ ret-IsReplayable a
          | none ↦ pop_loop-IsReplayable n
        ] in
      elim (List-cases g.queue) [
        | inl e ↦
            Replays-by (pop_loop (suc n)) (ret quiesce) g (λ t. simp e)
              (ret-IsReplayable quiesce g h)
        | inr (event, rest, e) ↦
            let pop = popped event rest in
            let popping = step-IsReplayable pop (λ t g. refl) in
            let does = λ (over : Bool) (q : spent (pop g) ≡ over) (t : EntropyTape).
              pop_loop-turn n event rest (with_tape t g) e
              ∙ ap (λ b. turn n event rest b (with_tape t g)) q in
            elim (Bool-cases (spent (pop g))) [
              | inl over ↦
                  Replays-by (pop_loop (suc n)) (turn n event rest true) g (does true over) (
                    then-IsReplayable (step pop) (λ u. ret abort) popping
                      (λ u. ret-IsReplayable abort) g h)
              | inr more ↦
                  Replays-by (pop_loop (suc n)) (turn n event rest false) g (does false more) (
                    then-IsReplayable (step pop)
                      (λ u s. go_on n (handle event event.kind s).0 (handle event event.kind s).1)
                      popping
                      (λ u.
                        then-IsReplayable (handle event event.kind) (go_on n)
                          (handle-IsReplayable event event.kind) next)
                      g h)
            ]
      ]

  pub pop_until_poll-IsReplayable : IsReplayable {Fut = Fut} pop_until_poll
  unfolding pop_until_poll
  pop_until_poll-IsReplayable g h =
      Replays-by pop_until_poll (pop_loop (suc (turns g))) g (λ t. refl)
        (pop_loop-IsReplayable (suc (turns g)) g h)
