-- ===== src/World/Replay/Handles.antt =====
-- What a node's handles do is reproduced from the log of the tape.
use detersim.Prelude.{
  ℕ, ◌+◌, ◌%◌, ◌≡◌, refl, Bool, true, false, Option, [], ◌∷◌, ◌++◌, member, ◌==◌, if◌then◌else◌,
  arith, Bool-cases, inl, inr,
}
use detersim.Time.{SimTime, saturating_add, from_millis}
use detersim.Tape.{duplicate_decision, extra_delay, net_delay}
use detersim.World.{Inner, Message, deliver_msg, send_from_crashed}
use detersim.World.Events.{
  push_event, draw_net_delay_ms, draw_percent, draw_tape, register_recv_waiter,
  unregister_recv_waiter, register_timer, cancel_timer,
}
use detersim.World.Clock.{local_now, global_from_local_deadline}
use detersim.World.Handles.{Poll, send, transmit, poll_recv, poll_sleep, set_timer}
use detersim.World.Replay.{
  Op, with_tape, IsReplayable, IsQuiet-IsReplayable, step, step-IsReplayable,
  draw_tape-IsReplayable, then-IsReplayable, Replays-by,
}
use detersim.World.Replay.Quiet.{push_event-IsQuiet}
use detersim.World.Replay.Pops.{ret, ret-IsReplayable, draw_percent-IsReplayable}

module _ {Fut : Type 0} where
  draw_net_delay_ms-IsReplayable : IsReplayable {Fut = Fut} draw_net_delay_ms
  unfolding draw_net_delay_ms
  draw_net_delay_ms-IsReplayable g h =
      let extra = g.faults.extra_delay_ms in
      let first = draw_tape-IsReplayable net_delay in
      elim (Bool-cases (extra == 0)) [
        | inl plain ↦
            Replays-by draw_net_delay_ms
              (λ s. (1 + (draw_tape net_delay s).0 % 100, (draw_tape net_delay s).1)) g
              (λ t. rw (plain, draw_net_delay_ms) refl)
              (then-IsReplayable (draw_tape net_delay) (λ v. ret (1 + v % 100)) first
                (λ v. ret-IsReplayable (1 + v % 100)) g h)
        | inr more ↦
            Replays-by draw_net_delay_ms _ g (λ t. rw (more, draw_net_delay_ms) refl)
              (then-IsReplayable (draw_tape net_delay)
                (λ v s. (
                  1 + v % 100 + (draw_tape extra_delay s).0 % (extra + 1),
                  (draw_tape extra_delay s).1,
                ))
                first
                (λ v.
                  then-IsReplayable (draw_tape extra_delay)
                    (λ w. ret (1 + v % 100 + w % (extra + 1))) (draw_tape-IsReplayable extra_delay)
                    (λ w. ret-IsReplayable (1 + v % 100 + w % (extra + 1))))
                g h)
      ]

  -- The second copy of a message, if it is sent.
  copy : SimTime → ℕ → ℕ → Message → Bool → Op Fut Unit
  copy at from to msg true g =
      let (v, g4) = draw_tape extra_delay g in
      (tt, push_event (saturating_add at (from_millis (1 + v % 10))) (deliver_msg from to msg) g4)
  copy at from to msg false g = (tt, g)

  copy_lem :
      (at : SimTime) (from to : ℕ) (msg : Message) (twice : Bool) (g : Inner Fut)
      → step
          (λ s.
            let (v, g4) = draw_tape extra_delay s in
            if twice
            then push_event
                (saturating_add at (from_millis (1 + v % 10)))
                (deliver_msg from to msg)
                g4
            else s)
          g
        ≡ copy at from to msg twice g
  unfolding copy
  copy_lem at from to msg true g = refl
  copy_lem at from to msg false g = refl

  copy-IsReplayable :
      (at : SimTime) (from to : ℕ) (msg : Message) (twice : Bool)
      → IsReplayable (copy at from to msg twice)
  unfolding copy
  copy-IsReplayable at from to msg true =
      then-IsReplayable (draw_tape extra_delay)
        (λ v.
          step
            (push_event (saturating_add at (from_millis (1 + v % 10))) (deliver_msg from to msg)))
        (draw_tape-IsReplayable extra_delay)
        (λ v. step-IsReplayable _ (push_event-IsQuiet _ (deliver_msg from to msg)))
  copy-IsReplayable at from to msg false = ret-IsReplayable tt

  transmit-IsReplayable :
      (from to : ℕ) (msg : Message) (delay : ℕ)
      → IsReplayable {Fut = Fut} (step (transmit from to msg delay))
  unfolding transmit copy push_event
  transmit-IsReplayable from to msg delay g h =
      let at = saturating_add g.now (from_millis delay) in
      let push = push_event at (deliver_msg from to msg) in
      let percent = g.faults.duplicate_percent in
      let drawing = draw_percent percent duplicate_decision in
      Replays-by (step (transmit from to msg delay))
        (λ s. copy at from to msg (drawing (push s)).0 (drawing (push s)).1) g
        (λ t. let r = drawing (push (with_tape t g)) in copy_lem at from to msg r.0 r.1)
        (then-IsReplayable (step push) (λ u s. copy at from to msg (drawing s).0 (drawing s).1)
          (step-IsReplayable push (push_event-IsQuiet at (deliver_msg from to msg)))
          (λ u.
            then-IsReplayable drawing (copy at from to msg)
              (draw_percent-IsReplayable percent duplicate_decision)
              (copy-IsReplayable at from to msg))
          g h)

  -- `SimNet::send`.
  pub send-IsReplayable :
      (from to : ℕ) (msg : Message) → IsReplayable {Fut = Fut} (step (send from to msg))
  unfolding send
  send-IsReplayable from to msg g h = elim (Bool-cases (member from g.crashed)) [
    | inl down ↦
        Replays-by (step (send from to msg))
          (step (λ s. record s { trace = s.trace ++ send_from_crashed from to ∷ [] })) g
          (λ t. rw (down, send) refl) (step-IsReplayable _ (λ t s. refl) g h)
    | inr up ↦
        Replays-by (step (send from to msg))
          (λ s. (tt, transmit from to msg (draw_net_delay_ms s).0 (draw_net_delay_ms s).1)) g
          (λ t. rw (up, send) refl)
          (then-IsReplayable draw_net_delay_ms (λ delay. step (transmit from to msg delay))
            draw_net_delay_ms-IsReplayable (transmit-IsReplayable from to msg) g h)
  ]

  -- `RecvFuture::poll` and `SleepFuture::poll`, with the answer and what the future keeps.
  abbrev pub receive : ℕ → Option ℕ → Op Fut (Poll (ℕ × Message) × Option ℕ)
  receive node registered g =
      let (answer, kept, g') = poll_recv node registered g in ((answer, kept), g')

  abbrev pub sleep : ℕ → SimTime → Option ℕ → Op Fut (Poll Unit × Option ℕ)
  sleep node deadline timer g =
      let (answer, kept, g') = poll_sleep node deadline timer g in ((answer, kept), g')

  pub receive-IsReplayable :
      (node : ℕ) (registered : Option ℕ) → IsReplayable (receive node registered)
  unfolding poll_recv unregister_recv_waiter register_recv_waiter
  receive-IsReplayable node registered =
      IsQuiet-IsReplayable (receive node registered) (λ t g. ground arith)

  pub sleep-IsReplayable :
      (node : ℕ) (deadline : SimTime) (timer : Option ℕ) → IsReplayable (sleep node deadline timer)
  unfolding poll_sleep set_timer local_now global_from_local_deadline register_timer cancel_timer
      push_event
  sleep-IsReplayable node deadline timer =
      IsQuiet-IsReplayable (sleep node deadline timer) (λ t g. ground arith)
