-- ===== src/World/Dispatch/Schedule/Runs.antt =====
-- The order of dispatch over the event loop, a restart, and a whole run.
use detersim.Prelude.{
  ℕ, zero, suc, ◌≤◌, ◌≡◌, refl, subst, not, Option, List, lookup, member, set_remove, arith,
  Bool-cases, Option-cases, List-cases, inl, inr,
}
use detersim.World.{Keyed, Inner, WorldConfig, from_tape, poll_task}
use detersim.Tape.{EntropyTape}
use detersim.World.Events.{push_event, enqueue_poll_now, add_task}
use detersim.World.Faults.{restart_node, restart_node_outcome, spawn_registered_node}
use detersim.World.Dispatch.{
  PopResult, handle, spent, popped, pop_loop, pop_until_poll, turns, poll_once, run_loop, restart,
  poll, quiesce, abort,
}
use detersim.World.Dispatch.Schedule.{keys, Scheduled, IsScheduled, pop-Next}
use detersim.World.Dispatch.Schedule.Deliveries.{push_event-IsScheduled}
use detersim.World.Dispatch.Schedule.Turns.{handle-Keeps}

module _ {Fut : Type 0} where
  -- The order of dispatch holds, and time has not gone back.
  pub record Advances (g h : Inner Fut) : Type 0 where
    pub order : IsScheduled h
    pub later : g.now ≤ h.now

  pop_loop-Advances : (n : ℕ) (g : Inner Fut) → IsScheduled g → Advances g (pop_loop n g).1
  unfolding pop_loop
  pop_loop-Advances zero g s = record { order = s; later = omega arith }
  pop_loop-Advances (suc n) g s = elim (List-cases g.queue) [
    | inl e ↦ rw (e, pop_loop) (record { order = s; later = omega arith })
    | inr (event, rest, e) ↦
        let (next, later) =
          pop-Next (keys g.trace) event rest g.seq g.now
            (subst (λ (q : List Keyed). Scheduled (keys g.trace) q g.seq g.now) e s) in
        let g1 = popped event rest g in
        elim (Bool-cases (spent g1)) [
          | inl over ↦ rw (e, pop_loop, over) (record { order = next.rest; later = later })
          | inr go ↦
              let k = handle-Keeps event event.kind g1 (next, refl) in
              let turn = handle event event.kind g1 in
              let late : g.now ≤ turn.1.now = omega (arith, k.still, later) in
              elim (Option-cases turn.0) [
                | inr (r, q) ↦ rw (e, pop_loop, go, q) (record { order = k.order; later = late })
                | inl q ↦
                    let more = pop_loop-Advances n turn.1 k.order in
                    rw (e, pop_loop, go, q)
                      (record { order = more.order; later = omega (arith, late, more.later) })
              ]
        ]
  ]

  -- The event loop dispatches in the order of time and sequence number: if the events that the trace
  -- lists come, in that order, before all queued ones, so they do when the loop stops, for whatever
  -- reason, and the time of the world has not gone back.
  pub pop_until_poll-Advances : (g : Inner Fut) → IsScheduled g → Advances g (pop_until_poll g).1
  unfolding pop_until_poll
  pop_until_poll-Advances g s = pop_loop-Advances (suc (turns g)) g s

  pub spawn_registered_node-Advances :
      (node : ℕ) (fut : Fut) (g : Inner Fut)
      → IsScheduled g
      → Advances g (spawn_registered_node node fut g)
  unfolding spawn_registered_node enqueue_poll_now add_task push_event
  spawn_registered_node-Advances node fut g s = record {
    order =
        push_event-IsScheduled g.now (poll_task g.next_task_id) (add_task node fut g).1
          (omega arith) s;
    later = omega arith;
  }

  outcome-Advances :
      (node : ℕ) (g : Inner Fut) → IsScheduled g → Advances g (restart_node_outcome node g).1
  unfolding restart_node_outcome
  outcome-Advances node g s = elim (Bool-cases (not (member node g.nodes))) [
    | inl a ↦ rw (a, restart_node_outcome) (record { order = s; later = omega arith })
    | inr a ↦ elim (Bool-cases (not (member node g.crashed))) [
      | inl b ↦ rw (a, b, restart_node_outcome) (record { order = s; later = omega arith })
      | inr b ↦ elim (Option-cases (lookup node g.factories)) [
        | inl c ↦ rw (a, b, restart_node_outcome, c) (record { order = s; later = omega arith })
        | inr (factory, c) ↦
            let r =
              spawn_registered_node-Advances node factory
                (record g { crashed = set_remove node g.crashed }) s in
            rw (a, b, restart_node_outcome, c) (record { order = r.order; later = r.later })
      ]
    ]
  ]

  restart_node-Advances :
      (node : ℕ) (g : Inner Fut) → IsScheduled g → Advances g (restart_node node g)
  unfolding restart_node
  restart_node-Advances node g s =
      let r = outcome-Advances node g s in record { order = r.order; later = r.later }

  module _ (poll_future : Fut → Inner Fut → Option Fut × Inner Fut) where
    -- The system under test reaches the world through operations that schedule nothing in the past.
    abbrev pub IsFair : Type 0
    IsFair = (fut : Fut) (g : Inner Fut) → IsScheduled g → Advances g (poll_future fut g).1

    poll_once-Advances :
        (task : ℕ) (fut : Fut) (g : Inner Fut)
        → IsFair
        → IsScheduled g
        → Advances g (poll_once poll_future task fut g)
    unfolding poll_once
    poll_once-Advances task fut g fair s =
        let a = fair fut g s in
        elim (Option-cases (poll_future fut g).0) [
          | inl done ↦ rw (done, poll_once) (record { order = a.order; later = a.later })
          | inr (fut', pending) ↦
              rw (pending, poll_once) (record { order = a.order; later = a.later })
        ]

    -- A run of a system under test that schedules nothing in the past, at most `n` polls and restarts
    -- long, from a world whose queued events come after those it lists: the trace lists the events
    -- that were dispatched in strictly rising order of time and sequence number, all queued events
    -- come after them, and time does not go back.
    pub run_loop-Advances :
        (n : ℕ) (g : Inner Fut) → IsFair → IsScheduled g → Advances g (run_loop poll_future n g).1
    unfolding run_loop
    run_loop-Advances zero g fair s = record { order = s; later = omega arith }
    run_loop-Advances (suc n) g fair s =
        let a = pop_until_poll-Advances g s in
        let go = λ (h : Inner Fut) (b : Advances (pop_until_poll g).1 h).
          let c = run_loop-Advances n h fair b.order in
          let out : Advances g (run_loop poll_future n h).1 = record {
            order = c.order;
            later = omega (arith, a.later, b.later, c.later);
          } in
          out in
        by_result (pop_until_poll g).0 refl a go
      where
        by_result :
            (r : PopResult Fut)
            → (pop_until_poll g).0 ≡ r
            → Advances g (pop_until_poll g).1
            → ((h : Inner Fut)
                → Advances (pop_until_poll g).1 h
                → Advances g (run_loop poll_future n h).1)
            → Advances g (run_loop poll_future (suc n) g).1
        by_result quiesce e a go = rw (e, run_loop) a
        by_result abort e a go = rw (e, run_loop) a
        by_result (restart node) e a go =
            rw (e, run_loop) (go _ (restart_node-Advances node (pop_until_poll g).1 a.order))
        by_result (poll task fut) e a go =
            rw (e, run_loop) (go _ (poll_once-Advances task fut (pop_until_poll g).1 fair a.order))

-- A new world has nothing queued and nothing listed.
pub from_tape-IsScheduled :
    (Fut : Type 0) (seed : ℕ) (config : WorldConfig) (tape : EntropyTape)
    → IsScheduled (from_tape {Fut = Fut} seed config tape)
unfolding from_tape
from_tape-IsScheduled Fut seed config tape = record {
  past = tt;
  coming = tt;
  apart = tt;
  waits = tt;
  done = tt;
}
