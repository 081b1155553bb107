-- ===== src/Examples/Schedules.antt =====
-- A plan that partitions the nodes of the world, and a task that awaits another.
use detersim.Prelude.{
  ℕ, ◌+◌, ◌≤◌, ◌≡◌, refl, Bool, true, false, none, some, List, [], ◌∷◌, ◌++◌, length,
}
use detersim.Tape.{generate, replay, replaying, log, events}
use detersim.Nemesis.Plans.{
  Plan, random_partition, random_link_fault, composite, no_plans, more_plans,
}
use detersim.World.{Inner, from_tape}
use detersim.World.Events.{add_task, enqueue_poll_now, push_event}
use detersim.World.Faults.{spawn_registered_node}
use detersim.World.Dispatch.{run_loop}
use detersim.World.Handles.{ready, pending, panicked}
use detersim.World.Replay.{with_tape}
use detersim.World.Setup.{schedule_nemesis_plan}
use detersim.World.Setup.Schedules.{replay-schedule_nemesis_plan, schedule_nemesis_plan_count}
use detersim.World.Joins.{JoinSlot, finish, poll_join, drop_join, is_queued, join_wakes}
use detersim.Examples.Replays.{poll_sender, poll_sender-IsReplayable, world}

abbrev plan : Plan
plan =
    composite
      (more_plans (random_partition 40 10 2)
        (more_plans (random_link_fault 5 ((0, 1) ∷ (1, 0) ∷ []) true false) no_plans))
      []

abbrev drawn : List ℕ
drawn = log (run_loop poll_sender 9 (schedule_nemesis_plan 3 plan world).1).1.tape

replay-schedule_nemesis_plan_example :
    let out = run_loop poll_sender 9 (schedule_nemesis_plan 3 plan world).1 in
    let again = schedule_nemesis_plan 3 plan (with_tape (replay (drawn ++ 8 ∷ [])) world) in
    run_loop poll_sender 9 again.1 ≡ (
      out.0,
      with_tape (replaying (drawn ++ 8 ∷ []) (length drawn) drawn (events out.1.tape)) out.1,
    )
unfolding spawn_registered_node add_task enqueue_poll_now push_event from_tape generate
replay-schedule_nemesis_plan_example =
    replay-schedule_nemesis_plan poll_sender poll_sender-IsReplayable 3 plan 9 world (8 ∷ []) refl
      refl tt

schedule_nemesis_plan_count_example :
    let out = schedule_nemesis_plan 3 plan world in
    (out.0.0 ≤ 3)
    × (length out.1.queue ≡ length world.queue + out.0.0)
    × (out.1.seq ≡ world.seq + out.0.0)
schedule_nemesis_plan_count_example = schedule_nemesis_plan_count 3 plan world

abbrev slot : JoinSlot ℕ
slot = record { done = false; output = none; joiners = 5 ∷ [] }

abbrev polled : Inner Bool
polled = record world { current_task = some 4 }

join_wakes_example :
    let (answer, waits, held) = poll_join none slot polled in
    let (ended, woken) = finish 7 held world in
    let (joined, none_waits, left) = poll_join waits ended woken in
    let (unwatched, quiet) = finish 7 (drop_join waits held) world in
    (answer ≡ pending)
    × (is_queued 4 woken.queue ≡ true)
    × (joined ≡ ready 7)
    × ((poll_join none_waits left woken).0 ≡ panicked)
    × (is_queued 4 quiet.queue ≡ is_queued 4 world.queue)
join_wakes_example = join_wakes none slot polled world 4 7 refl refl
