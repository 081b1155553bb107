-- ===== src/World/Dispatch/Schedule/Turns.antt =====
-- Nemesis actions and whole turns keep the schedule.
use detersim.Prelude.{
  ℕ, ◌≡◌, refl, ap, ◌∙◌, List, [], ◌∷◌, ◌++◌, filter, lookup, member, Bool-cases, Option-cases, inl,
  inr,
}
use detersim.Nemesis.{NemesisAction}
use detersim.World.{EventKind, Keyed, Inner, poll_task, timer_fire, deliver_msg, nemesis, rendered}
use detersim.World.Faults.{
  apply_nemesis, apply_action, crash_node, drop_node, keep_live, tasks_of,
  event_is_live_after_crash,
}
use detersim.World.Faults.Crash.{crash_node_known, lose_unflushed-storage}
use detersim.World.Dispatch.{dispatch, strike, wake, handle, restart_of}
use detersim.World.Dispatch.Schedule.{Key, keys, Scheduled, IsScheduled, filter-Scheduled}
use detersim.World.Dispatch.Schedule.Deliveries.{
  ready-IsScheduled, IsReady, Keeps, dispatch-Keeps, fire_timer-Keeps, dropped-Keeps, deliver-Keeps,
}

module _ {Fut : Type 0} where
  crash_node-Scheduled :
      (node : ℕ) (ks : List Key) (g : Inner Fut)
      → Scheduled ks g.queue g.seq g.now
      → (q : List Keyed) × ((crash_node node g).queue ≡ q)
        × Scheduled ks q g.seq g.now
        × ((crash_node node g).trace ≡ g.trace)
        × ((crash_node node g).seq ≡ g.seq)
        × ((crash_node node g).now ≡ g.now)
  unfolding crash_node drop_node keep_live
  crash_node-Scheduled node ks g s = elim (Bool-cases (member node g.nodes)) [
    | inr unknown ↦ (g.queue, rw unknown refl, s, rw unknown refl, rw unknown refl, rw unknown refl)
    | inl known ↦
        let removed = tasks_of node g.tasks in
        let (store, e, _) = lose_unflushed-storage node (drop_node node removed g) in
        let whole = crash_node_known node g known ∙ ap (keep_live node removed) e in
        let live = λ (x : Keyed).
          event_is_live_after_crash x.kind node removed (drop_node node removed g).timers in
        (
          filter live g.queue,
          ap (λ h. h.queue) whole,
          filter-Scheduled live ks g.queue g.seq g.now s,
          ap (λ h. h.trace) whole,
          ap (λ h. h.seq) whole,
          ap (λ h. h.now) whole,
        )
  ]

  crash_node-Keeps : (node : ℕ) (g : Inner Fut) → IsScheduled g → Keeps g (crash_node node g)
  crash_node-Keeps node g s =
      let (q, eq, sq, et, es, en) = crash_node-Scheduled node (keys g.trace) g s in
      record { order = rw (et, eq, es, en) sq; still = en }

  apply_action-Keeps :
      (action : NemesisAction) (g : Inner Fut) → IsScheduled g → Keeps g (apply_action action g).1
  unfolding apply_action
  apply_action-Keeps (NemesisAction.partition groups) g s = record { order = s; still = refl }
  apply_action-Keeps (NemesisAction.asymmetric_partition from to) g s = record {
    order = s;
    still = refl;
  }
  apply_action-Keeps (NemesisAction.set_link from to up) g s = record { order = s; still = refl }
  apply_action-Keeps NemesisAction.heal_all g s = record { order = s; still = refl }
  apply_action-Keeps (NemesisAction.crash node) g s = crash_node-Keeps node g s
  apply_action-Keeps (NemesisAction.restart node) g s = record { order = s; still = refl }
  apply_action-Keeps (NemesisAction.clock_skew node offset_ns) g s = record {
    order = s;
    still = refl;
  }
  apply_action-Keeps (NemesisAction.bit_rot node) g s = record { order = s; still = refl }
  apply_action-Keeps (NemesisAction.torn_write node) g s = record { order = s; still = refl }
  apply_action-Keeps (NemesisAction.lost_on_crash node) g s = record { order = s; still = refl }
  apply_action-Keeps (NemesisAction.pre_fsync_reorder node) g s = record { order = s; still = refl }

  apply_nemesis-Keeps :
      (action : NemesisAction) (g : Inner Fut) → IsScheduled g → Keeps g (apply_nemesis action g).1
  unfolding apply_nemesis
  apply_nemesis-Keeps action g s =
      let k =
        apply_action-Keeps action (record g { nemesis_trace = g.nemesis_trace ++ action ∷ [] }) s in
      record { order = k.order; still = k.still }

  strike-Keeps :
      (event : Keyed) (action : NemesisAction) (g : Inner Fut)
      → IsReady event g
      → Keeps g (strike event action g).1
  unfolding strike
  strike-Keeps event action g r =
      let listed = dropped-Keeps event (rendered event) g refl r in
      elim (Option-cases (restart_of action)) [
        | inr (node, e) ↦ rw (e, strike) (record { order = listed.order; still = listed.still })
        | inl e ↦
            let k = apply_nemesis-Keeps action (dispatch (rendered event) g) listed.order in
            rw (e, strike) (record { order = k.order; still = k.still })
      ]

  wake-Keeps :
      (event : Keyed) (task : ℕ) (g : Inner Fut) → IsReady event g → Keeps g (wake event task g).1
  unfolding wake
  wake-Keeps event task g r =
      let s = ready-IsScheduled event g r in
      let listed = dispatch-Keeps event (rendered event) g refl r in
      elim (Option-cases (lookup task g.tasks)) [
        | inl e ↦ rw (e, wake) (record { order = s; still = refl })
        | inr (slot, e) ↦ elim (Option-cases slot.future) [
          | inl e' ↦ rw (e, wake, e') (record { order = s; still = refl })
          | inr (fut, e') ↦ elim (Bool-cases (member slot.node g.crashed)) [
            | inl c ↦ rw (e, wake, e', c) (record { order = s; still = refl })
            | inr c ↦ rw (e, wake, e', c) (record { order = listed; still = refl })
          ]
        ]
      ]

  pub handle-Keeps :
      (event : Keyed) (kind : EventKind) (g : Inner Fut)
      → IsReady event g
      → Keeps g (handle event kind g).1
  unfolding handle
  handle-Keeps event (poll_task task) g r = wake-Keeps event task g r
  handle-Keeps event (timer_fire timer) g r = fire_timer-Keeps event timer g r
  handle-Keeps event (deliver_msg from to msg) g r = deliver-Keeps event from to msg g r
  handle-Keeps event (nemesis action) g r = strike-Keeps event action g r
