-- ===== src/World/Replay/Quiet.antt =====
-- The parts of the simulator that leave the tape alone.
use detersim.Prelude.{
  ℕ, refl, ap, ◌∙◌, none, List, [], ◌∷◌, ◌++◌, lookup, member, arith, Bool-cases, Option-cases, inl,
  inr,
}
use detersim.Nemesis.{NemesisAction}
use detersim.World.{EventKind, Keyed, Message, TraceLine}
use detersim.World.Events.{push_event, enqueue_poll_now, enqueue_polls, add_task}
use detersim.World.Faults.{
  crash_node, lose_unflushed, drop_node, keep_live, tasks_of, apply_action, apply_nemesis,
  spawn_registered_node, restart_node_outcome, restart_node, restart_precheck,
}
use detersim.World.Dispatch.{dispatch, fire_timer, accept, strike, wake, restart_of}
use detersim.World.Replay.{IsQuiet, IsQuietStep}

module _ {Fut : Type 0} where
  pub push_event-IsQuiet :
      (time : ℕ) (kind : EventKind) → IsQuietStep {Fut = Fut} (push_event time kind)
  unfolding push_event
  push_event-IsQuiet time kind t g = refl

  enqueue_poll_now-IsQuiet : (task : ℕ) → IsQuietStep {Fut = Fut} (enqueue_poll_now task)
  unfolding enqueue_poll_now push_event
  enqueue_poll_now-IsQuiet task t g = refl

  enqueue_polls-IsQuiet : (tasks : List ℕ) → IsQuietStep {Fut = Fut} (enqueue_polls tasks)
  unfolding enqueue_polls
  enqueue_polls-IsQuiet [] t g = refl
  enqueue_polls-IsQuiet (task ∷ tasks) t g =
      ap (enqueue_polls tasks) (enqueue_poll_now-IsQuiet task t g)
      ∙ enqueue_polls-IsQuiet tasks t (enqueue_poll_now task g)

  pub fire_timer-IsQuiet :
      (event : Keyed) (timer : ℕ) → IsQuietStep {Fut = Fut} (fire_timer event timer)
  unfolding fire_timer enqueue_poll_now push_event
  fire_timer-IsQuiet event timer t g = elim (Option-cases (lookup timer g.timers)) [
    | inl e ↦ rw (e, fire_timer) refl
    | inr (task, e) ↦ rw (e, fire_timer) refl
  ]

  pub accept-IsQuiet :
      (event : Keyed) (from to : ℕ) (msg : Message)
      → IsQuietStep {Fut = Fut} (accept event from to msg)
  unfolding accept
  accept-IsQuiet event from to msg t g = enqueue_polls-IsQuiet _ t _

  lose_unflushed-IsQuiet : (node : ℕ) → IsQuietStep {Fut = Fut} (lose_unflushed node)
  unfolding lose_unflushed
  lose_unflushed-IsQuiet node t g = ground arith

  crash_node-IsQuiet : (node : ℕ) → IsQuietStep {Fut = Fut} (crash_node node)
  unfolding crash_node
  crash_node-IsQuiet node t g = elim (Bool-cases (member node g.nodes)) [
    | inl known ↦
        let removed = tasks_of node g.tasks in
        rw (known, crash_node)
          (ap (keep_live node removed) (lose_unflushed-IsQuiet node t (drop_node node removed g)))
    | inr other ↦ rw (other, crash_node) refl
  ]

  apply_action-IsQuiet : (action : NemesisAction) → IsQuiet {Fut = Fut} (apply_action action)
  unfolding apply_action restart_precheck
  apply_action-IsQuiet (NemesisAction.partition groups) t g = refl
  apply_action-IsQuiet (NemesisAction.asymmetric_partition from to) t g = refl
  apply_action-IsQuiet (NemesisAction.set_link from to up) t g = refl
  apply_action-IsQuiet NemesisAction.heal_all t g = refl
  apply_action-IsQuiet (NemesisAction.crash node) t g =
      ap (λ h. (none, h)) (crash_node-IsQuiet node t g)
  apply_action-IsQuiet (NemesisAction.restart node) t g = refl
  apply_action-IsQuiet (NemesisAction.clock_skew node offset_ns) t g = refl
  apply_action-IsQuiet (NemesisAction.bit_rot node) t g = refl
  apply_action-IsQuiet (NemesisAction.torn_write node) t g = refl
  apply_action-IsQuiet (NemesisAction.lost_on_crash node) t g = refl
  apply_action-IsQuiet (NemesisAction.pre_fsync_reorder node) t g = refl

  pub strike-IsQuiet :
      (event : Keyed) (action : NemesisAction) → IsQuiet {Fut = Fut} (strike event action)
  unfolding strike apply_nemesis
  strike-IsQuiet event action t g = elim (Option-cases (restart_of action)) [
    | inl e ↦
        let g1 = dispatch (TraceLine.rendered event) g in
        rw (e, strike)
          (ap (λ r. (none, r.1))
            (apply_action-IsQuiet action t
              (record g1 { nemesis_trace = g1.nemesis_trace ++ action ∷ [] })))
    | inr (node, e) ↦ rw (e, strike) refl
  ]

  pub wake-IsQuiet : (event : Keyed) (task : ℕ) → IsQuiet {Fut = Fut} (wake event task)
  unfolding wake
  wake-IsQuiet event task t g = elim (Option-cases (lookup task g.tasks)) [
    | inl e ↦ rw (e, wake) refl
    | inr (slot, e) ↦ elim (Option-cases slot.future) [
      | inl q ↦ rw (e, q, wake) refl
      | inr (fut, q) ↦ elim (Bool-cases (member slot.node g.crashed)) [
        | inl down ↦ rw (e, q, down, wake) refl
        | inr up ↦ rw (e, q, up, wake) refl
      ]
    ]
  ]

  pub restart_node-IsQuiet : (node : ℕ) → IsQuietStep {Fut = Fut} (restart_node node)
  unfolding restart_node restart_node_outcome spawn_registered_node add_task enqueue_poll_now
      push_event
  restart_node-IsQuiet node t g = ground arith
