-- ===== src/World/Dispatch.antt =====
-- The event loop: `pop_until_poll` and `World::run`.
mod Counts
pub mod Fuel
pub mod Schedule
use detersim.Prelude.{
  ℕ, zero, suc, ◌+◌, ◌<◌, Bool, true, false, not, ◌&&◌, ◌||◌, Option, none, some, List, [], ◌∷◌,
  ◌++◌, length, Map, lookup, lookup_or, insert, update, remove, member, ltb, leb, ◌==◌,
  if◌then◌else◌,
}
use detersim.Tape
use detersim.Tape.{drop_decision}
use detersim.Nemesis.{NemesisAction}
use detersim.Nemesis.Connectivity.{is_connected}
use detersim.World.{
  EventKind, Keyed, TaskSlot, Inner, Message, TraceLine, DropKind, poll_task, timer_fire,
  deliver_msg, nemesis, unregistered, crashed_end, partitioned, random_drop, rendered, HistoryLine,
  restart_line,
}
use detersim.World.Events.{enqueue_poll_now, enqueue_polls, draw_percent}
use detersim.World.Faults.{apply_nemesis, restart_node}

pub data PopResult (Fut : Type 0) : Type 0 where
  quiesce abort : PopResult Fut
  restart : (node : ℕ) → PopResult Fut
  poll : (task : ℕ) (fut : Fut) → PopResult Fut

-- What a turn of the loop does after the event is popped: `none` is `continue`.
abbrev pub Turn : Type 0 → Type 0
Turn Fut = Option (PopResult Fut) × Inner Fut

abbrev pub drop_line : DropKind → Keyed → ℕ → ℕ → TraceLine
drop_line why event from to = TraceLine.dropped why event.time event.seq from to

abbrev pub restart_of : NemesisAction → Option ℕ
restart_of (NemesisAction.restart node) = some node
restart_of _ = none

abbrev pub fire_of : EventKind → ℕ
fire_of (timer_fire timer) = 1
fire_of _ = 0

abbrev pub fires : List Keyed → ℕ
fires [] = 0
fires (e ∷ q) = fire_of e.kind + fires q

abbrev pub waiting : Map (List ℕ) → ℕ
waiting [] = 0
waiting ((k, tasks) ∷ m) = length tasks + waiting m

module _ {Fut : Type 0} where
  -- `dispatched += 1` and a line of the trace.
  abbrev pub dispatch : TraceLine → Inner Fut → Inner Fut
  dispatch line g = record g { dispatched = suc g.dispatched; trace = g.trace ++ line ∷ [] }

  unfoldable pub fire_timer : Keyed → ℕ → Inner Fut → Inner Fut
  fire_timer event timer g = elim (lookup timer g.timers) [
    | none ↦ g
    | some task ↦
        enqueue_poll_now task
          (dispatch (rendered event) (record g { timers = remove timer g.timers }))
  ]

  -- The message reaches the inbox, and the tasks that wait for one are woken.
  unfoldable pub accept : Keyed → ℕ → ℕ → Message → Inner Fut → Inner Fut
  accept event from to msg g =
      let g1 = dispatch (rendered event) g in
      enqueue_polls (lookup_or to [] g.recv_waiters) (record g1 {
        inboxes = insert to (lookup_or to [] g.inboxes ++ (from, msg) ∷ []) g.inboxes;
        recv_waiters = update to (λ _. []) g.recv_waiters;
      })

  unfoldable pub deliver : Keyed → ℕ → ℕ → Message → Inner Fut → Inner Fut
  deliver event from to msg g =
      let (lost, g1) = draw_percent g.faults.drop_percent drop_decision g in
      if not (member to g.nodes)
      then dispatch (drop_line unregistered event from to) g
      else if member to g.crashed || member from g.crashed
      then dispatch (drop_line crashed_end event from to) g
      else if not (is_connected from to g.faults.connectivity)
      then dispatch (drop_line partitioned event from to) g
      else if lost
      then dispatch (drop_line random_drop event from to) g1
      else accept event from to msg g1

  unfoldable pub strike : Keyed → NemesisAction → Inner Fut → Turn Fut
  strike event action g =
      let g1 = dispatch (rendered event) g in
      elim (restart_of action) [
        | some node ↦
            (some (restart node), record g1 { nemesis_trace = g.nemesis_trace ++ action ∷ [] })
        | none ↦ (none, (apply_nemesis action g1).1)
      ]

  -- The future is taken out of its slot even if the node has crashed.
  unfoldable pub wake : Keyed → ℕ → Inner Fut → Turn Fut
  wake event task g = elim (lookup task g.tasks) [
    | none ↦ (none, g)
    | some slot ↦ elim slot.future [
      | none ↦ (none, g)
      | some fut ↦
          let g1 = record g { tasks = update task (λ s. record s { future = none }) g.tasks } in
          if member slot.node g.crashed then (none, g1) else (
            some (poll task fut),
            record (dispatch (rendered event) g1) { current_task = some task },
          )
    ]
  ]

  unfoldable pub handle : Keyed → EventKind → Inner Fut → Turn Fut
  handle event (timer_fire timer) g = (none, fire_timer event timer g)
  handle event (deliver_msg from to msg) g = (none, deliver event from to msg g)
  handle event (nemesis action) g = strike event action g
  handle event (poll_task task) g = wake event task g

  abbrev pub spent : Inner Fut → Bool
  spent g = ltb g.config.horizon_ns g.now || leb g.config.max_events g.dispatched

  -- The popped event, with the state after the pop.
  abbrev pub popped : Keyed → List Keyed → Inner Fut → Inner Fut
  popped event rest g = record g { now = event.time; queue = rest }

  unfoldable pub pop_loop : ℕ → Inner Fut → PopResult Fut × Inner Fut
  pop_loop zero g = (quiesce, g)
  pop_loop (suc n) g = elim g.queue [
    | [] ↦ (quiesce, g)
    | event ∷ rest ↦ elim (spent (popped event rest g)) [
      | true ↦ (abort, popped event rest g)
      | false ↦
          let (result, g') = handle event event.kind (popped event rest g) in
          elim result [ some r ↦ (r, g') | none ↦ pop_loop n g' ]
    ]
  ]

  -- Each turn of the loop takes an event off the queue, and puts at most the polls on it that a timer
  -- or the waiters of a node stood for.
  abbrev pub turns : Inner Fut → ℕ
  turns g = length g.queue + fires g.queue + waiting g.recv_waiters

  unfoldable pub pop_until_poll : Inner Fut → PopResult Fut × Inner Fut
  pop_until_poll g = pop_loop (suc (turns g)) g

  -- `Future::poll` of the system under test: the future that is left if it is pending.
  module _ (poll_future : Fut → Inner Fut → Option Fut × Inner Fut) where
    unfoldable pub poll_once : ℕ → Fut → Inner Fut → Inner Fut
    poll_once task fut g =
        let (left, g1) = poll_future fut g in
        let g2 = record g1 { current_task = none } in
        elim left [
          | some fut' ↦ record g2 {
            tasks = update task (λ s. record s { future = some fut' }) g2.tasks;
          }
          | none ↦ record g2 { tasks = remove task g2.tasks }
        ]

    -- The loop of `run`, at most `n` turns; whether it ended, with the state.
    unfoldable pub run_loop : ℕ → Inner Fut → Bool × Inner Fut
    run_loop zero g = (false, g)
    run_loop (suc n) g =
        let (result, g') = pop_until_poll g in
        elim result [
          | quiesce ↦ (true, g')
          | abort ↦ (true, g')
          | restart node ↦ run_loop n (restart_node node g')
          | poll task fut ↦ run_loop n (poll_once task fut g')
        ]
