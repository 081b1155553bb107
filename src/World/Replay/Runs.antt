-- ===== src/World/Replay/Runs.antt =====
-- A whole run is reproduced from the log of the tape.
use detersim.Prelude.{
  ℕ, zero, suc, ◌≡◌, refl, ap, sym, ◌∙◌, Bool, true, false, Option, none, some, List, [], ◌++◌,
  length, update, remove,
}
use detersim.Tape.{log, events, replay, replaying}
use detersim.Tape.Record.{CursorFits}
use detersim.Tape.Replay.{mirror}
use detersim.World.{Inner}
use detersim.World.Faults.{restart_node}
use detersim.World.Dispatch.{
  PopResult, pop_until_poll, poll_once, run_loop, quiesce, abort, restart, poll,
}
use detersim.World.Replay.{
  Op, with_tape, IsReplayable, step, step-IsReplayable, then-IsReplayable, Replays-by, IsQuietStep,
}
use detersim.World.Replay.Quiet.{restart_node-IsQuiet}
use detersim.World.Replay.Pops.{ret-IsReplayable, pop_until_poll-IsReplayable}

module _ {Fut : Type 0} where
  -- How a run goes on after a call of `pop_until_poll`.
  module _ (poll_future : Fut → Op Fut (Option Fut)) where
    settle : ℕ → Option Fut → Inner Fut → Inner Fut
    settle task left g1 =
        let g2 = record g1 { current_task = none } in
        elim left [
          | some fut' ↦ record g2 {
            tasks = update task (λ s. record s { future = some fut' }) g2.tasks;
          }
          | none ↦ record g2 { tasks = remove task g2.tasks }
        ]

    settle-IsQuiet : (task : ℕ) (left : Option Fut) → IsQuietStep (settle task left)
    unfolding settle
    settle-IsQuiet task none t g = refl
    settle-IsQuiet task (some fut) t g = refl

    poll_once-IsReplayable :
        ((fut : Fut) → IsReplayable (poll_future fut))
        → (task : ℕ) (fut : Fut) → IsReplayable (step (poll_once poll_future task fut))
    unfolding poll_once settle
    poll_once-IsReplayable polls task fut =
        then-IsReplayable (poll_future fut) (λ left. step (settle task left)) (polls fut)
          (λ left. step-IsReplayable (settle task left) (settle-IsQuiet task left))

    run_on : ℕ → PopResult Fut → Op Fut Bool
    run_on n quiesce g = (true, g)
    run_on n abort g = (true, g)
    run_on n (restart node) g = run_loop poll_future n (restart_node node g)
    run_on n (poll task fut) g = run_loop poll_future n (poll_once poll_future task fut g)

    run_loop_turn :
        (n : ℕ) (g : Inner Fut)
        → run_loop poll_future (suc n) g ≡ run_on n (pop_until_poll g).0 (pop_until_poll g).1
    unfolding run_loop run_on
    run_loop_turn n g = by_result (pop_until_poll g).0 (pop_until_poll g).1
      where
        by_result :
            (r : PopResult Fut) (h : Inner Fut)
            → elim r as (λ r. Bool × Inner Fut) [
              | quiesce ↦ (true, h)
              | abort ↦ (true, h)
              | restart node ↦ run_loop poll_future n (restart_node node h)
              | poll task fut ↦ run_loop poll_future n (poll_once poll_future task fut h)
            ]
              ≡ run_on n r h
        by_result quiesce h = refl
        by_result abort h = refl
        by_result (restart node) h = refl
        by_result (poll task fut) h = refl

    module _ (polls : (fut : Fut) → IsReplayable (poll_future fut)) where
      run_on-IsReplayable :
          (n : ℕ)
          → IsReplayable (run_loop poll_future n)
          → (r : PopResult Fut) → IsReplayable (run_on n r)
      unfolding run_on
      run_on-IsReplayable n later quiesce = ret-IsReplayable true
      run_on-IsReplayable n later abort = ret-IsReplayable true
      run_on-IsReplayable n later (restart node) =
          then-IsReplayable (step (restart_node node)) (λ u. run_loop poll_future n)
            (step-IsReplayable (restart_node node) (restart_node-IsQuiet node)) (λ u. later)
      run_on-IsReplayable n later (poll task fut) =
          then-IsReplayable (step (poll_once poll_future task fut)) (λ u. run_loop poll_future n)
            (poll_once-IsReplayable polls task fut) (λ u. later)

      pub run_loop-IsReplayable : (n : ℕ) → IsReplayable (run_loop poll_future n)
      unfolding run_loop
      run_loop-IsReplayable zero g h = ret-IsReplayable false g h
      run_loop-IsReplayable (suc n) g h =
          Replays-by (run_loop poll_future (suc n))
            (λ s. run_on n (pop_until_poll s).0 (pop_until_poll s).1) g
            (λ t. run_loop_turn n (with_tape t g))
            (then-IsReplayable pop_until_poll (run_on n) pop_until_poll-IsReplayable
              (run_on-IsReplayable n (run_loop-IsReplayable n)) g h)

      -- A run of the simulator is reproduced by replaying the log of its tape, whatever is appended to
      -- that log: from the same world the replay ends in the same way and in the same state, with the
      -- same trace, history and storage, and its tape has the same log and events and has consumed
      -- just that log. The tape starts fresh, generated or replayed, and each poll of the system under
      -- test is itself reproduced from the log of the tape.
      pub replay-run_loop :
          (n : ℕ) (g : Inner Fut) (rest : List ℕ)
          → log g.tape ≡ []
          → events g.tape ≡ []
          → CursorFits g.tape
          → let out = run_loop poll_future n g in
            let l = log out.1.tape in
            run_loop poll_future n (with_tape (replay (l ++ rest)) g)
            ≡ (out.0, with_tape (replaying (l ++ rest) (length l) l (events out.1.tape)) out.1)
      unfolding replay
      replay-run_loop n g rest l0 e0 h =
          let tape = log (run_loop poll_future n g).1.tape ++ rest in
          let fresh : mirror tape g.tape ≡ replay tape = rw (l0, e0) refl in
          ap (λ t. run_loop poll_future n (with_tape t g)) (sym fresh)
          ∙ (run_loop-IsReplayable n g h).again tape rest refl
