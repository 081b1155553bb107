-- ===== src/World/Setup/Schedules.antt =====
-- The faults that a plan schedules, and their replay.
use detersim.Prelude.{
  ℕ, zero, suc, ◌+◌, ◌≤◌, ◌≡◌, refl, sym, ap, ◌∙◌, Bool, Option, none, some, List, [], ◌++◌, length,
  arith, Option-cases, inl, inr,
}
use detersim.Tape.{log, events, replay, replaying}
use detersim.Tape.Record.{CursorFits}
use detersim.Tape.Replay.{mirror}
use detersim.Nemesis.Plans.{Plan, next_action}
use detersim.World.{EventKind, Keyed, Inner}
use detersim.World.Events.{push_event}
use detersim.World.Faults.{world_view}
use detersim.World.Dispatch.{run_loop}
use detersim.World.Replay.{
  Op, with_tape, IsReplayable, step, step-IsReplayable, then-IsReplayable, Replays-by,
}
use detersim.World.Replay.Quiet.{push_event-IsQuiet}
use detersim.World.Replay.Pops.{ret, ret-IsReplayable}
use detersim.World.Replay.Runs.{run_loop-IsReplayable}
use detersim.World.Setup.{plan_draw, schedule_nemesis, schedule_nemesis_plan}
use detersim.World.Setup.Asking.{length-push_sorted, Answer, ask, ask-IsReplayable}

module _ {Fut : Type 0} where
  -- One turn of the loop that schedules, at the state's own view.
  abbrev ask_now : Plan → Op Fut Answer
  ask_now plan g = ask (world_view g) plan g

  ask_now-IsReplayable : (plan : Plan) → IsReplayable (ask_now plan)
  unfolding world_view
  ask_now-IsReplayable plan g h =
      Replays-by (ask_now plan) (ask (world_view g) plan) g (λ t. refl)
        (ask-IsReplayable (world_view g) plan g h)

  plan_on : ℕ → Answer → Op Fut (ℕ × Plan)
  plan_on more (none, plan) g = ret (0, plan) g
  plan_on more (some (at, action), plan) g =
      let (counted, g2) = schedule_nemesis_plan more plan (schedule_nemesis at action g) in
      ((suc counted.0, counted.1), g2)

  schedule_turn :
      (more : ℕ) (plan : Plan) (g : Inner Fut)
      → schedule_nemesis_plan (suc more) plan g ≡ plan_on more (ask_now plan g).0 (ask_now plan g).1
  unfolding schedule_nemesis_plan plan_on
  schedule_turn more plan g =
      elim (Option-cases (next_action plan_draw (world_view g) plan g.tape).result) [
        | inl e ↦ rw (e, schedule_nemesis_plan, plan_on) refl
        | inr (next, e) ↦ rw (e, schedule_nemesis_plan, plan_on) refl
      ]

  plan_on-IsReplayable :
      (more : ℕ)
      → ((plan : Plan) → IsReplayable {Fut = Fut} (schedule_nemesis_plan more plan))
      → (a : Answer) → IsReplayable (plan_on more a)
  unfolding plan_on schedule_nemesis
  plan_on-IsReplayable more later (none, plan) = ret-IsReplayable (0, plan)
  plan_on-IsReplayable more later (some (at, action), plan) =
      let count : ℕ × Plan → ℕ × Plan = λ c. (suc c.0, c.1) in
      let rest : Op Fut (ℕ × Plan) = λ s.
        ret (count (schedule_nemesis_plan more plan s).0) (schedule_nemesis_plan more plan s).1 in
      then-IsReplayable (step (push_event at (EventKind.nemesis action))) (λ u. rest)
        (step-IsReplayable (push_event at (EventKind.nemesis action))
          (push_event-IsQuiet at (EventKind.nemesis action)))
        (λ u.
          then-IsReplayable {Fut = Fut} (schedule_nemesis_plan more plan) (λ c. ret (count c))
            (later plan) (λ c. ret-IsReplayable (count c)))

  schedule_nemesis_plan-IsReplayable :
      (more : ℕ) (plan : Plan) → IsReplayable {Fut = Fut} (schedule_nemesis_plan more plan)
  unfolding schedule_nemesis_plan
  schedule_nemesis_plan-IsReplayable zero plan g h = ret-IsReplayable (0, plan) g h
  schedule_nemesis_plan-IsReplayable (suc more) plan g h =
      Replays-by (schedule_nemesis_plan (suc more) plan)
        (λ s. plan_on more (ask_now plan s).0 (ask_now plan s).1) g
        (λ t. schedule_turn more plan (with_tape t g))
        (then-IsReplayable (ask_now plan) (plan_on more) (ask_now-IsReplayable plan)
          (plan_on-IsReplayable more (schedule_nemesis_plan-IsReplayable more)) g h)

  module _ (poll_future : Fut → Op Fut (Option Fut))
      (poll_future-IsReplayable : (fut : Fut) → IsReplayable (poll_future fut)) where
    abbrev scheduled_run : ℕ → Plan → ℕ → Op Fut Bool
    scheduled_run actions plan n g = run_loop poll_future n (schedule_nemesis_plan actions plan g).1

    scheduled_run-IsReplayable :
        (actions : ℕ) (plan : Plan) (n : ℕ) → IsReplayable (scheduled_run actions plan n)
    scheduled_run-IsReplayable actions plan n =
        then-IsReplayable (schedule_nemesis_plan actions plan) (λ c. run_loop poll_future n)
          (schedule_nemesis_plan-IsReplayable actions plan)
          (λ c. run_loop-IsReplayable poll_future poll_future-IsReplayable n)

    -- Faults drawn by a plan and the run under them are reproduced together: where a plan schedules its
    -- actions on a world with a fresh tape and the world then runs, replaying the log of that tape
    -- schedules the same actions and ends in the same state.
    pub replay-schedule_nemesis_plan :
        (actions : ℕ) (plan : Plan) (n : ℕ) (g : Inner Fut) (rest : List ℕ)
        → log g.tape ≡ []
        → events g.tape ≡ []
        → CursorFits g.tape
        → let out = run_loop poll_future n (schedule_nemesis_plan actions plan g).1 in
          let l = log out.1.tape in
          let again = schedule_nemesis_plan actions plan (with_tape (replay (l ++ rest)) g) in
          run_loop poll_future n again.1
          ≡ (out.0, with_tape (replaying (l ++ rest) (length l) l (events out.1.tape)) out.1)
    unfolding replay
    replay-schedule_nemesis_plan actions plan n g rest l0 e0 h =
        let tape = log (scheduled_run actions plan n g).1.tape ++ rest in
        let fresh : mirror tape g.tape ≡ replay tape = rw (l0, e0) refl in
        ap (λ t. scheduled_run actions plan n (with_tape t g)) (sym fresh)
        ∙ (scheduled_run-IsReplayable actions plan n g h).again tape rest refl

  -- A plan schedules at most as many actions as it is asked for, and reports how many events it put in
  -- the queue.
  pub schedule_nemesis_plan_count :
      (actions : ℕ) (plan : Plan) (g : Inner Fut)
      → let out = schedule_nemesis_plan actions plan g in
        (out.0.0 ≤ actions)
        × (length out.1.queue ≡ length g.queue + out.0.0)
        × (out.1.seq ≡ g.seq + out.0.0)
  unfolding schedule_nemesis_plan push_event schedule_nemesis
  schedule_nemesis_plan_count zero plan g = (omega arith, omega arith, omega arith)
  schedule_nemesis_plan_count (suc more) plan g =
      let a = next_action plan_draw (world_view g) plan g.tape in
      elim (Option-cases a.result) [
        | inl e ↦ rw (e, schedule_nemesis_plan) (omega arith, omega arith, omega arith)
        | inr ((at, action), e) ↦
            let next = schedule_nemesis at action (with_tape a.source g) in
            let (few, more_events, more_seqs) = schedule_nemesis_plan_count more a.plan next in
            let event : Keyed = record {
              time = at;
              seq = g.seq;
              kind = EventKind.nemesis action;
            } in
            rw (e, schedule_nemesis_plan)
              (
                omega (arith, few),
                omega (arith, more_events, length-push_sorted event g.queue),
                omega (arith, more_seqs),
              )
      ]
