-- ===== src/World/Events.antt =====
-- The event queue, the tasks, the waiters and the timers of `Inner`, and its draws from the tape.
use detersim.Prelude.{
  ℕ, suc, ◌+◌, ◌%◌, min, Bool, false, not, ◌&&◌, ◌||◌, some, List, [], ◌∷◌, ◌++◌, filter, contains,
  lookup_or, insert, update, remove, ltb, ◌==◌, if◌then◌else◌,
}
use detersim.Time.{SimTime}
use detersim.Tape.{TapeLabel, net_delay, extra_delay, draw}
use detersim.World.{EventKind, Keyed, Inner, poll_task, timer_fire}

-- The order of `Keyed`: by time, then by sequence number.
abbrev pub before : Keyed → Keyed → Bool
before a b = ltb a.time b.time || ((a.time == b.time) && ltb a.seq b.seq)

-- `BinaryHeap::push` on the sorted list of events.
unfoldable pub push_sorted : Keyed → List Keyed → List Keyed
push_sorted e [] = e ∷ []
push_sorted e (f ∷ q) = if before e f then e ∷ f ∷ q else f ∷ push_sorted e q

module _ {Fut : Type 0} where
  unfoldable pub push_event : SimTime → EventKind → Inner Fut → Inner Fut
  unfolding push_sorted
  push_event time kind g = record g {
    seq = suc g.seq;
    queue = push_sorted (record { time = time; seq = g.seq; kind = kind }) g.queue;
  }

  unfoldable pub enqueue_poll_now : ℕ → Inner Fut → Inner Fut
  enqueue_poll_now task g = push_event g.now (poll_task task) g

  -- `for task in waiters`.
  unfoldable pub enqueue_polls : List ℕ → Inner Fut → Inner Fut
  enqueue_polls [] g = g
  enqueue_polls (task ∷ tasks) g = enqueue_polls tasks (enqueue_poll_now task g)

  unfoldable pub add_task : ℕ → Fut → Inner Fut → ℕ × Inner Fut
  add_task node fut g = (
    g.next_task_id,
    record g {
      next_task_id = suc g.next_task_id;
      tasks = insert g.next_task_id (record { node = node; future = some fut }) g.tasks;
    },
  )

  -- A draw from the tape.
  abbrev pub draw_tape : TapeLabel → Inner Fut → ℕ × Inner Fut
  draw_tape label g = let (v, tape) = draw label g.tape in (v, record g { tape = tape })

  unfoldable pub draw_net_delay_ms : Inner Fut → ℕ × Inner Fut
  draw_net_delay_ms g =
      let (v, g1) = draw_tape net_delay g in
      let base = 1 + v % 100 in
      let (w, g2) = draw_tape extra_delay g1 in
      if g.faults.extra_delay_ms == 0
      then (base, g1)
      else (base + w % (g.faults.extra_delay_ms + 1), g2)

  -- Nothing is drawn for a percentage of 0.
  unfoldable pub draw_percent : ℕ → TapeLabel → Inner Fut → Bool × Inner Fut
  draw_percent percent label g =
      let (v, g1) = draw_tape label g in
      if ltb 0 percent then (ltb (v % 100) (min percent 100), g1) else (false, g)

  unfoldable pub register_recv_waiter : ℕ → ℕ → Inner Fut → Inner Fut
  register_recv_waiter node task g =
      let waiters = lookup_or node [] g.recv_waiters in
      record g {
        recv_waiters =
            insert node (if contains waiters task then waiters else waiters ++ task ∷ [])
              g.recv_waiters;
      }

  unfoldable pub unregister_recv_waiter : ℕ → ℕ → Inner Fut → Inner Fut
  unregister_recv_waiter node task g = record g {
    recv_waiters = update node (filter (λ t. not (t == task))) g.recv_waiters;
  }

  unfoldable pub register_timer : ℕ → SimTime → Inner Fut → ℕ × Inner Fut
  register_timer task deadline g =
      let id = g.next_timer_id in
      (
        id,
        push_event deadline (timer_fire id)
            (record g { next_timer_id = suc id; timers = insert id task g.timers }),
      )

  unfoldable pub cancel_timer : ℕ → Inner Fut → Inner Fut
  cancel_timer timer g = record g { timers = remove timer g.timers }
