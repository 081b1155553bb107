-- ===== src/World/Dispatch/Fuel.antt =====
-- The turns that `pop_until_poll` allows itself are enough.
use detersim.Prelude.{
  ℕ, zero, suc, ◌+◌, ◌≤◌, ◌<◌, ◌≡◌, refl, ap, ◌∙◌, Bool, true, false, not, ◌||◌, none, List, [],
  ◌∷◌, ◌++◌, length, length-filter-le, lookup, lookup_or, insert, update, remove, member,
  if◌then◌else◌, arith, Bool-cases, Option-cases, List-cases, inl, inr,
}
use detersim.Tape.{drop_decision}
use detersim.Nemesis.{NemesisAction}
use detersim.Nemesis.Connectivity.{is_connected}
use detersim.World.{
  EventKind, Keyed, Inner, Message, TraceLine, poll_task, timer_fire, deliver_msg, nemesis,
  rendered, unregistered, crashed_end, partitioned, random_drop,
}
use detersim.World.Events.{push_event, enqueue_poll_now, enqueue_polls, draw_percent}
use detersim.World.Faults.{
  apply_nemesis, apply_action, crash_node, drop_node, keep_live, tasks_of,
  event_is_live_after_crash,
}
use detersim.World.Faults.Crash.{crash_node_known, lose_unflushed-storage}
use detersim.World.Dispatch.{
  dispatch, fire_timer, accept, deliver, strike, wake, handle, spent, popped, pop_loop,
  pop_until_poll, turns, fires, fire_of, restart_of, drop_line,
}
use detersim.World.Dispatch.Schedule.Deliveries.{draw_percent-tape}
use detersim.World.Dispatch.Counts.{
  push_sorted-poll, fires-filter-le, waiting-update, waiting-crash-le,
}

module _ {Fut : Type 0} where
  turns-poll : (task : ℕ) (g : Inner Fut) → turns (enqueue_poll_now task g) ≡ suc (turns g)
  unfolding enqueue_poll_now push_event
  turns-poll task g = let p = push_sorted-poll g.now g.seq task g.queue in omega (arith, p)

  turns-polls :
      (tasks : List ℕ) (g : Inner Fut) → turns (enqueue_polls tasks g) ≡ length tasks + turns g
  unfolding enqueue_polls
  turns-polls [] g = omega arith
  turns-polls (task ∷ tasks) g =
      let more = turns-polls tasks (enqueue_poll_now task g) in
      omega (arith, more, turns-poll task g)

  turns-fire_timer :
      (event : Keyed) (timer : ℕ) (g : Inner Fut) → turns (fire_timer event timer g) ≤ suc (turns g)
  unfolding fire_timer
  turns-fire_timer event timer g = elim (Option-cases (lookup timer g.timers)) [
    | inl gone ↦ rw (gone, fire_timer) (omega arith)
    | inr (task, hit) ↦
        let g1 = dispatch (rendered event) (record g { timers = remove timer g.timers }) in
        let p = turns-poll task g1 in rw (hit, fire_timer) (omega (arith, p))
  ]

  turns-accept :
      (event : Keyed) (from to : ℕ) (msg : Message) (g : Inner Fut)
      → turns (accept event from to msg g) ≡ turns g
  unfolding accept
  turns-accept event from to msg g =
      let g1 = dispatch (rendered event) g in
      let g2 = record g1 {
        inboxes = insert to (lookup_or to [] g.inboxes ++ (from, msg) ∷ []) g.inboxes;
        recv_waiters = update to (λ _. []) g.recv_waiters;
      } in
      let p = turns-polls (lookup_or to [] g.recv_waiters) g2 in
      omega (arith, p, waiting-update to g.recv_waiters)

  record Within (n : ℕ) (g : Inner Fut) : Type 0 where
    bound : turns g ≤ n

  if-Within :
      (n : ℕ) (b : Bool) (x y : Inner Fut) → Within n x → Within n y → Within n (if b then x else y)
  if-Within n true x y p q = p
  if-Within n false x y p q = q

  dispatch-Within :
      (line : TraceLine) (g h : Inner Fut) → turns h ≤ turns g → Within (turns g) (dispatch line h)
  dispatch-Within line g h e = record { bound = e }

  deliver-Within :
      (event : Keyed) (from to : ℕ) (msg : Message) (g : Inner Fut)
      → Within (turns g) (deliver event from to msg g)
  unfolding deliver
  deliver-Within event from to msg g =
      let (t, e) = draw_percent-tape g.faults.drop_percent drop_decision g in
      let g1 = (draw_percent g.faults.drop_percent drop_decision g).1 in
      let same : turns g1 ≡ turns g = ap turns e in
      let taken = turns-accept event from to msg g1 in
      let here : turns g ≤ turns g = omega arith in
      let le : turns g1 ≤ turns g = omega (arith, same) in
      let taken_le : turns (accept event from to msg g1) ≤ turns g = omega (arith, taken, same) in
      if-Within (turns g) (not (member to g.nodes)) _ _
        (dispatch-Within (drop_line unregistered event from to) g g here)
        (if-Within (turns g) (member to g.crashed || member from g.crashed) _ _
          (dispatch-Within (drop_line crashed_end event from to) g g here)
          (if-Within (turns g) (not (is_connected from to g.faults.connectivity)) _ _
            (dispatch-Within (drop_line partitioned event from to) g g here)
            (if-Within (turns g) (draw_percent g.faults.drop_percent drop_decision g).0 _
              (accept event from to msg g1)
              (dispatch-Within (drop_line random_drop event from to) g g1 le)
              (record { bound = taken_le }))))

  crash_node_unknown :
      (node : ℕ) (g : Inner Fut) → member node g.nodes ≡ false → crash_node node g ≡ g
  unfolding crash_node
  crash_node_unknown node g h = rw h refl

  turns-crash_node : (node : ℕ) (g : Inner Fut) → turns (crash_node node g) ≤ turns g
  unfolding drop_node keep_live
  turns-crash_node node g = elim (Bool-cases (member node g.nodes)) [
    | inr unknown ↦ let e = ap turns (crash_node_unknown node g unknown) in omega (arith, e)
    | inl known ↦
        let removed = tasks_of node g.tasks in
        let (store, e, _) = lose_unflushed-storage node (drop_node node removed g) in
        let live = λ (x : Keyed).
          event_is_live_after_crash x.kind node removed (drop_node node removed g).timers in
        let whole = ap turns (crash_node_known node g known ∙ ap (keep_live node removed) e) in
        omega (
          arith,
          whole,
          waiting-crash-le node removed g.recv_waiters,
          length-filter-le live g.queue,
          fires-filter-le live g.queue,
        )
  ]

  turns-apply_action :
      (action : NemesisAction) (g : Inner Fut) → turns (apply_action action g).1 ≤ turns g
  unfolding apply_action
  turns-apply_action (NemesisAction.partition groups) g = omega arith
  turns-apply_action (NemesisAction.asymmetric_partition from to) g = omega arith
  turns-apply_action (NemesisAction.set_link from to up) g = omega arith
  turns-apply_action NemesisAction.heal_all g = omega arith
  turns-apply_action (NemesisAction.crash node) g = turns-crash_node node g
  turns-apply_action (NemesisAction.restart node) g = omega arith
  turns-apply_action (NemesisAction.clock_skew node offset_ns) g = omega arith
  turns-apply_action (NemesisAction.bit_rot node) g = omega arith
  turns-apply_action (NemesisAction.torn_write node) g = omega arith
  turns-apply_action (NemesisAction.lost_on_crash node) g = omega arith
  turns-apply_action (NemesisAction.pre_fsync_reorder node) g = omega arith

  -- An event costs one turn, and a timer one more for the poll that it turns into.
  turns-handle :
      (event : Keyed) (kind : EventKind) (g : Inner Fut)
      → (handle event kind g).0 ≡ none
      → turns (handle event kind g).1 ≤ fire_of kind + turns g
  unfolding handle strike wake apply_nemesis
  turns-handle event (timer_fire timer) g h =
      let p = turns-fire_timer event timer g in omega (arith, p)
  turns-handle event (deliver_msg from to msg) g h =
      let p = (deliver-Within event from to msg g).bound in omega (arith, p)
  turns-handle event (nemesis action) g h = elim (Option-cases (restart_of action)) [
    | inr (node, e) ↦ absurd (ground (arith, rw (e, strike) at h))
    | inl e ↦
        let g1 = dispatch (rendered event) g in
        let p =
          turns-apply_action action
            (record g1 { nemesis_trace = g1.nemesis_trace ++ action ∷ [] }) in
        rw (e, strike) (omega (arith, p))
  ]
  turns-handle event (poll_task task) g h = elim (Option-cases (lookup task g.tasks)) [
    | inl e ↦ rw (e, wake) (omega arith)
    | inr (slot, e) ↦ elim (Option-cases slot.future) [
      | inl e' ↦ rw (e, wake, e') (omega arith)
      | inr (fut, e') ↦ elim (Bool-cases (member slot.node g.crashed)) [
        | inl c ↦ rw (e, wake, e', c) (omega arith)
        | inr c ↦ rw (e, wake, e', c) (omega arith)
      ]
    ]
  ]

  pop_loop_fuel :
      (n m : ℕ) (g : Inner Fut) → turns g < n → turns g < m → pop_loop n g ≡ pop_loop m g
  unfolding pop_loop
  pop_loop_fuel zero m g hn hm = absurd (omega arith)
  pop_loop_fuel (suc n) zero g hn hm = absurd (omega arith)
  pop_loop_fuel (suc n) (suc m) g hn hm = elim (List-cases g.queue) [
    | inl e ↦ rw (e, pop_loop) refl
    | inr (event, rest, e) ↦
        let g1 = popped event rest g in
        elim (Bool-cases (spent g1)) [
          | inl over ↦ rw (e, pop_loop, over) refl
          | inr go ↦
              let turn = handle event event.kind g1 in
              elim (Option-cases turn.0) [
                | inr (r, q) ↦ rw (e, pop_loop, go, q) refl
                | inl q ↦
                    let less = turns-handle event event.kind g1 q in
                    let len = ap length e in
                    let fired = ap fires e in
                    rw (e, pop_loop, go, q)
                      (pop_loop_fuel n m turn.1 (omega (arith, less, len, fired, hn))
                        (omega (arith, less, len, fired, hm)))
              ]
        ]
  ]

  -- The event loop always comes to a result: any number of turns above one for each queued event, each
  -- queued timer and each waiting task gives the same one.
  pub pop_until_poll_fuel : (n : ℕ) (g : Inner Fut) → turns g < n → pop_loop n g ≡ pop_until_poll g
  unfolding pop_until_poll
  pop_until_poll_fuel n g h = pop_loop_fuel n (suc (turns g)) g h (omega arith)
