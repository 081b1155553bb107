-- ===== src/World/Handles.antt =====
-- What a node's handles do to the world: `SimNet`, `SimClock` and `SimStorage`.
pub mod Fair
use detersim.Prelude.{
  ℕ, suc, ◌+◌, ◌%◌, Bool, true, false, not, ◌&&◌, Option, none, some, List, [], ◌∷◌, ◌++◌, Map,
  lookup, lookup_or, insert, update, contains_key, member, leb, if◌then◌else◌,
}
use detersim.Time.{SimTime, saturating_add, from_millis}
use detersim.Tape.{duplicate_decision, extra_delay}
use detersim.Storage
use detersim.Storage.{PageStore, empty_store}
use detersim.World.{EventKind, Inner, Message, TraceLine, deliver_msg, send_from_crashed}
use detersim.World.Events.{
  push_event, draw_net_delay_ms, draw_percent, draw_tape, register_recv_waiter,
  unregister_recv_waiter, register_timer, cancel_timer,
}
use detersim.World.Clock.{local_now, global_from_local_deadline}
use detersim.World.Faults.{with_store}

-- What a poll answers. A poll outside of a task panics.
pub data Poll (A : Type 0) : Type 0 where
  ready : (value : A) → Poll A
  pending panicked : Poll A

module _ {Fut : Type 0} where
  -- The part of `SimNet::send` after the delay is drawn.
  unfoldable pub transmit : ℕ → ℕ → Message → ℕ → Inner Fut → Inner Fut
  transmit from to msg delay g =
      let at = saturating_add g.now (from_millis delay) in
      let g2 = push_event at (deliver_msg from to msg) g in
      let (duplicate, g3) = draw_percent g2.faults.duplicate_percent duplicate_decision g2 in
      let (v, g4) = draw_tape extra_delay g3 in
      let again = saturating_add at (from_millis (1 + v % 10)) in
      if duplicate then push_event again (deliver_msg from to msg) g4 else g3

  unfoldable pub send : ℕ → ℕ → Message → Inner Fut → Inner Fut
  send from to msg g =
      let (delay, g1) = draw_net_delay_ms g in
      if member from g.crashed
      then record g { trace = g.trace ++ send_from_crashed from to ∷ [] }
      else transmit from to msg delay g1

  -- `RecvFuture::poll`: the answer, the registered task left, and the state.
  unfoldable pub poll_recv : ℕ → Option ℕ → Inner Fut → Poll (ℕ × Message) × Option ℕ × Inner Fut
  poll_recv node registered g = elim (lookup_or node [] g.inboxes) [
    | msg ∷ rest ↦
        let g1 = record g { inboxes = update node (λ _. rest) g.inboxes } in
        (
          ready msg,
          none,
          elim registered [ none ↦ g1 | some task ↦ unregister_recv_waiter node task g1 ],
        )
    | [] ↦ elim g.current_task [
      | none ↦ (panicked, registered, g)
      | some task ↦ (pending, some task, register_recv_waiter node task g)
    ]
  ]

  -- The timer that the current task waits for.
  unfoldable pub set_timer : ℕ → SimTime → Option ℕ → Inner Fut → Poll Unit × Option ℕ × Inner Fut
  set_timer node deadline none g = (panicked, none, g)
  set_timer node deadline (some task) g =
      let (id, g2) = register_timer task (global_from_local_deadline node deadline g) g in
      (pending, some id, g2)

  -- `SleepFuture::poll`: the answer, the timer left, and the state.
  unfoldable pub poll_sleep : ℕ → SimTime → Option ℕ → Inner Fut → Poll Unit × Option ℕ × Inner Fut
  poll_sleep node deadline timer g =
      let (reading, g1) = local_now node g in
      let live : Option ℕ = elim timer [
        | none ↦ none
        | some t ↦ if contains_key t g1.timers then some t else none
      ] in
      elim (leb deadline reading) [
        | true ↦ (ready tt, none, elim timer [ none ↦ g1 | some t ↦ cancel_timer t g1 ])
        | false ↦ elim live [
          | some t ↦ (pending, some t, g1)
          | none ↦ set_timer node deadline g1.current_task g1
        ]
      ]

  -- `Drop` of a sleep and of a receive, where the world is not borrowed.
  unfoldable pub drop_sleep : Bool → Option ℕ → Inner Fut → Inner Fut
  drop_sleep true timer g = g
  drop_sleep false none g = g
  drop_sleep false (some t) g = cancel_timer t g

  unfoldable pub drop_recv : ℕ → Option ℕ → Inner Fut → Inner Fut
  drop_recv node none g = g
  drop_recv node (some task) g = unregister_recv_waiter node task g

  -- The deadline of `SimClock::sleep`.
  unfoldable pub sleep_deadline : ℕ → ℕ → Inner Fut → SimTime × Inner Fut
  sleep_deadline node dur g =
      let (reading, g1) = local_now node g in (saturating_add reading dur, g1)

  unfoldable pub write_at : ℕ → ℕ → List ℕ → Inner Fut → Inner Fut
  write_at node offset bytes g =
      with_store node (Storage.write_at offset bytes (member node g.faults.torn_write_nodes)) g

  -- The bytes read: none for a node without a store; `none` is the panic of `PageStore::read_at`.
  unfoldable pub read_at : ℕ → ℕ → ℕ → Inner Fut → Option (List ℕ)
  read_at node offset len g = elim (lookup node g.storage) [
    | none ↦ some []
    | some store ↦ Storage.read_at offset len store
  ]

  unfoldable pub flush : ℕ → Inner Fut → Inner Fut
  flush node g = with_store node (Storage.flush (member node g.faults.pre_fsync_reorder_nodes)) g

  unfoldable pub len : ℕ → Inner Fut → ℕ
  len node g = elim (lookup node g.storage) [ none ↦ 0 | some store ↦ Storage.len store ]
