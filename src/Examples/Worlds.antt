-- ===== src/Examples/Worlds.antt =====
-- The simulator of crates/detersim-sim on a world with one node, whose task sleeps until time 50.
use detersim.Prelude.{
  ℕ, negsuc, ◌≤◌, ◌≡◌, refl, lookup_or, Option, none, some, true, [], ◌∷◌, member, arith,
}
use detersim.Tape.{replay}
use detersim.Storage.{empty_store}
use detersim.Storage.Survival.{Survives}
use detersim.World.{Inner, default_world, from_tape}
use detersim.World.Events.{
  push_event, push_sorted, enqueue_poll_now, add_task, register_timer, cancel_timer,
}
use detersim.World.Clock.{local_now, global_from_local_deadline, sleep_deadline_reached}
use detersim.World.Faults.{spawn_registered_node, crash_node}
use detersim.World.Faults.Crash.{IsGone, crash_node-IsGone, crash_node-storage}
use detersim.World.Faults.Spared.{IsSpared}
use detersim.World.Dispatch.{
  pop_loop, pop_until_poll, run_loop, poll_once, handle, wake, fire_timer,
}
use detersim.World.Dispatch.Fuel.{pop_until_poll_fuel}
use detersim.World.Dispatch.Schedule.{IsScheduled, keys}
use detersim.World.Dispatch.Schedule.Runs.{
  Advances, IsFair, run_loop-Advances, from_tape-IsScheduled, spawn_registered_node-Advances,
}
use detersim.World.Handles.{Poll, ready, pending, panicked, poll_sleep, set_timer, send}
use detersim.World.Handles.Fair.{poll_sleep-Advances, send-Advances}

-- The future of `sleep_until(50)`: the timer it has set.
abbrev Sleep : Type 0
Sleep = Option ℕ

abbrev left_of : Poll Unit → Sleep → Option Sleep
left_of (ready u) timer = none
left_of pending timer = some timer
left_of panicked timer = some timer

abbrev poll_sleeper : Sleep → Inner Sleep → Option Sleep × Inner Sleep
poll_sleeper timer g =
    let (answer, timer', g') = poll_sleep 0 50 timer g in (left_of answer timer', g')

abbrev empty_world : Inner Sleep
empty_world = from_tape 1 default_world (replay [])

-- The node's task has been spawned.
abbrev world : Inner Sleep
world = spawn_registered_node 0 none empty_world

abbrev with_node : Inner Sleep
with_node = record world { nodes = 0 ∷ []; factories = (0, none) ∷ [] }

world-IsScheduled : IsScheduled world
world-IsScheduled =
    (spawn_registered_node-Advances 0 none empty_world
      (from_tape-IsScheduled Sleep 1 default_world (replay []))).order

poll_sleeper-IsFair : IsFair poll_sleeper
poll_sleeper-IsFair fut g s =
    let a = poll_sleep-Advances 0 50 fut g s in record { order = a.order; later = a.later }

-- The task is polled, sleeps, and is polled again when its timer has fired.
keys-run_loop : keys (run_loop poll_sleeper 9 world).1.trace ≡ (0, 0) ∷ (50, 1) ∷ (50, 2) ∷ []
unfolding run_loop pop_until_poll pop_loop handle wake fire_timer poll_once poll_sleep set_timer
    local_now global_from_local_deadline register_timer cancel_timer push_event push_sorted
    enqueue_poll_now spawn_registered_node add_task from_tape replay
keys-run_loop = refl

run_loop-Advances_example : Advances world (run_loop poll_sleeper 9 world).1
run_loop-Advances_example =
    run_loop-Advances poll_sleeper 9 world poll_sleeper-IsFair world-IsScheduled

pop_until_poll_fuel_example : pop_loop 9 world ≡ pop_until_poll world
unfolding spawn_registered_node add_task enqueue_poll_now push_event push_sorted from_tape
pop_until_poll_fuel_example = pop_until_poll_fuel 9 world (omega arith)

-- Node 0 crashes while it waits at node 1, whose own task waits there too.
abbrev two_nodes : Inner Sleep
two_nodes = record with_node {
  nodes = 0 ∷ 1 ∷ [];
  tasks = (0, record { node = 0; future = none }) ∷ (1, record { node = 1; future = none }) ∷ [];
  recv_waiters = (1, 0 ∷ 1 ∷ []) ∷ [];
}

crash_node-IsGone_example :
    IsGone 0 two_nodes (crash_node 0 two_nodes) × IsSpared 0 two_nodes (crash_node 0 two_nodes)
crash_node-IsGone_example = crash_node-IsGone 0 two_nodes refl

waiters_left : (crash_node 0 two_nodes).recv_waiters ≡ (1, 1 ∷ []) ∷ []
unfolding crash_node spawn_registered_node enqueue_poll_now push_event add_task from_tape
waiters_left = refl

-- An unflushed write, and the faults under which it is lost.
abbrev unflushed : Inner Sleep
unflushed = record with_node {
  storage = (0, record { pending = 5 ∷ []; committed = 9 ∷ []; write_log = (0, 5 ∷ []) ∷ [] }) ∷ [];
  faults = record with_node.faults { bit_rot_nodes = 0 ∷ [] };
}

crash_node-storage_example :
    Survives
      (member 0 unflushed.faults.lost_on_crash_nodes)
      true
      (lookup_or 0 empty_store unflushed.storage)
      (lookup_or 0 empty_store (crash_node 0 unflushed).storage)
crash_node-storage_example = crash_node-storage 0 unflushed refl

-- The clock is set back by 30 while the world's time goes from 40 to 45.
abbrev at_40 : Inner Sleep
at_40 = record empty_world { now = 40 }

abbrev set_back : Inner Sleep
set_back =
    let g = (local_now 0 at_40).1 in
    record g { now = 45; faults = record g.faults { clock_skew_ns = (0, negsuc 29) ∷ [] } }

abbrev at_50 : Inner Sleep
at_50 = record empty_world { now = 50 }

sleep_deadline_reached_example : 50 ≤ (local_now 0 at_50).0
unfolding global_from_local_deadline from_tape
sleep_deadline_reached_example =
    sleep_deadline_reached 0 50 at_40 at_50 refl (omega arith) (omega arith) (omega arith)

send-Advances_example : Advances world (send 0 1 (7 ∷ []) world)
unfolding spawn_registered_node add_task enqueue_poll_now push_event from_tape
send-Advances_example = send-Advances 0 1 (7 ∷ []) world (omega arith) world-IsScheduled

poll_sleep-Advances_example : Advances world (poll_sleep 0 50 none world).2
poll_sleep-Advances_example = poll_sleep-Advances 0 50 none world world-IsScheduled
