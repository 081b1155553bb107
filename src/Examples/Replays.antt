-- ===== src/Examples/Replays.antt =====
-- A run that draws from a generated tape, and its replay: node 0 sends a message to node 1 and ends.
use detersim.Prelude.{
  ℕ, ◌≡◌, refl, Bool, true, false, Option, none, some, List, [], ◌∷◌, ◌++◌, length,
}
use detersim.Tape.{generate, replay, replaying, log, events}
use detersim.World.{Inner, default_world, from_tape}
use detersim.World.Faults.{spawn_registered_node}
use detersim.World.Events.{add_task, enqueue_poll_now, push_event}
use detersim.World.Dispatch.{run_loop}
use detersim.World.Handles.{send}
use detersim.World.Replay.{Op, with_tape, IsReplayable, step, then-IsReplayable}
use detersim.World.Replay.Pops.{ret, ret-IsReplayable}
use detersim.World.Replay.Runs.{replay-run_loop}
use detersim.World.Replay.Handles.{send-IsReplayable}

-- Whether the message is sent.
abbrev pub poll_sender : Bool → Op Bool (Option Bool)
poll_sender true g = (none, g)
poll_sender false g = (some true, send 0 1 (7 ∷ []) g)

pub poll_sender-IsReplayable : (sent : Bool) → IsReplayable (poll_sender sent)
poll_sender-IsReplayable true = ret-IsReplayable none
poll_sender-IsReplayable false =
    then-IsReplayable (step (send 0 1 (7 ∷ []))) (λ u. ret (some true))
      (send-IsReplayable 0 1 (7 ∷ [])) (λ u. ret-IsReplayable (some true))

abbrev pub world : Inner Bool
world =
    let g = spawn_registered_node 0 false (from_tape 3 default_world (generate 3)) in
    record g { nodes = 0 ∷ 1 ∷ [] }

abbrev out : Bool × Inner Bool
out = run_loop poll_sender 9 world

abbrev drawn : List ℕ
drawn = log out.1.tape

replay-run_loop_example :
    run_loop poll_sender 9 (with_tape (replay (drawn ++ [])) world)
    ≡ (out.0, with_tape (replaying (drawn ++ []) (length drawn) drawn (events out.1.tape)) out.1)
unfolding spawn_registered_node add_task enqueue_poll_now push_event from_tape generate
replay-run_loop_example =
    replay-run_loop poll_sender poll_sender-IsReplayable 9 world [] refl refl tt
