-- ===== src/World/Handles/Fair.antt =====
-- The handles keep the order of dispatch: they schedule nothing in the past.
use detersim.Prelude.{
  ℕ, suc, ◌+◌, ◌%◌, ◌≤◌, ◌≡◌, refl, subst, sym, ◌∙◌, Bool, true, false, Option, none, some, List,
  [], ◌∷◌, ◌++◌, append-nil, member, insert, remove, Map, contains_key, leb, ◌==◌, if◌then◌else◌,
  arith, Bool-cases, Option-cases, inl, inr,
}
use detersim.Rng.{u64_max}
use detersim.Time.{saturating_add, from_millis, le-saturating_add}
use detersim.Tape.{EntropyTape, draw, duplicate_decision, extra_delay, net_delay}
use detersim.World.{Inner, Message, deliver_msg, send_from_crashed, timer_fire}
use detersim.World.Events.{
  push_event, draw_net_delay_ms, draw_percent, draw_tape, register_timer, cancel_timer,
}
use detersim.World.Clock.{local_now, global_from_local_deadline}
use detersim.World.Handles.{send, transmit, set_timer, poll_sleep}
use detersim.World.Dispatch.Schedule.{Key, keys, keys-append, Scheduled, IsScheduled}
use detersim.World.Dispatch.Schedule.Deliveries.{push_event-IsScheduled, draw_percent-tape}
use detersim.World.Dispatch.Schedule.Runs.{Advances}

module _ {Fut : Type 0} where
  -- The delay drawn for a message, in milliseconds: from 1 to 100, and the configured extra at most
  -- on top. Only the tape changes.
  pub draw_net_delay_ms_bounds :
      (g : Inner Fut)
      → let r = draw_net_delay_ms g in
        (1 ≤ r.0)
        × (r.0 ≤ 100 + g.faults.extra_delay_ms)
        × ((t : EntropyTape) × (r.1 ≡ record g { tape = t }))
  unfolding draw_net_delay_ms
  draw_net_delay_ms_bounds g =
      let t1 = (draw net_delay g.tape).1 in
      elim (Bool-cases (g.faults.extra_delay_ms == 0)) [
        | inl plain ↦ rw plain (omega arith, omega arith, (t1, refl))
        | inr extra ↦ rw extra (omega arith, omega arith, ((draw extra_delay t1).1, refl))
      ]

  if-Advances :
      (g : Inner Fut) (b : Bool) (x y : Inner Fut)
      → Advances g x
      → Advances g y
      → Advances g (if b then x else y)
  if-Advances g true x y p q = p
  if-Advances g false x y p q = q

  crashed-IsScheduled :
      (from to : ℕ) (g : Inner Fut)
      → IsScheduled g
      → IsScheduled (record g { trace = g.trace ++ send_from_crashed from to ∷ [] })
  crashed-IsScheduled from to g s =
      let e : keys (g.trace ++ send_from_crashed from to ∷ []) ≡ keys g.trace =
        keys-append g.trace (send_from_crashed from to ∷ []) ∙ append-nil (keys g.trace) in
      subst (λ (ks : List Key). Scheduled ks g.queue g.seq g.now) (sym e) s

  transmit-Advances :
      (from to : ℕ) (msg : Message) (delay : ℕ) (g : Inner Fut)
      → g.now ≤ u64_max
      → IsScheduled g
      → Advances g (transmit from to msg delay g)
  unfolding transmit push_event saturating_add
  transmit-Advances from to msg delay g small s =
      let at = saturating_add g.now (from_millis delay) in
      let at_ok = le-saturating_add g.now (from_millis delay) small in
      let g2 = push_event at (deliver_msg from to msg) g in
      let s2 = push_event-IsScheduled at (deliver_msg from to msg) g at_ok.0 s in
      let twice = (draw_percent g2.faults.duplicate_percent duplicate_decision g2).0 in
      let (t, e) = draw_percent-tape g2.faults.duplicate_percent duplicate_decision g2 in
      let last = λ (d : Inner Fut).
        if twice
        then push_event (saturating_add at (from_millis (1 + (draw extra_delay d.tape).0 % 10)))
            (deliver_msg from to msg) (draw_tape extra_delay d).1
        else d in
      let g3 : Inner Fut = record g2 { tape = t } in
      let again_ok = le-saturating_add at (from_millis (1 + (draw extra_delay t).0 % 10)) at_ok.1 in
      let ends : Advances g (last g3) =
        if-Advances g twice _ _
          (record {
            order =
                push_event-IsScheduled _ (deliver_msg from to msg) (draw_tape extra_delay g3).1
                  (omega (arith, again_ok.0, at_ok.0)) s2;
            later = omega arith;
          })
          (record { order = s2; later = omega arith }) in
      subst (λ (d : Inner Fut). Advances g (last d)) (sym e) ends

  -- A send keeps the order of dispatch on every path: from a crashed node, with and without a
  -- duplicate. Nothing is scheduled in the past.
  pub send-Advances :
      (from to : ℕ) (msg : Message) (g : Inner Fut)
      → g.now ≤ u64_max
      → IsScheduled g
      → Advances g (send from to msg g)
  unfolding send
  send-Advances from to msg g small s =
      let (t1, e1) = (draw_net_delay_ms_bounds g).2 in
      let delay = (draw_net_delay_ms g).0 in
      let sent = transmit-Advances from to msg delay (record g { tape = t1 }) small s in
      if-Advances g (member from g.crashed) _ _
        (record { order = crashed-IsScheduled from to g s; later = omega arith })
        (subst (λ (d : Inner Fut). Advances g (transmit from to msg delay d)) (sym e1)
          (record { order = sent.order; later = sent.later }))

  set_timer-Advances :
      (node deadline : ℕ) (current : Option ℕ) (g : Inner Fut)
      → IsScheduled g
      → Advances g (set_timer node deadline current g).2
  unfolding set_timer register_timer global_from_local_deadline push_event
  set_timer-Advances node deadline none g s = record { order = s; later = omega arith }
  set_timer-Advances node deadline (some task) g s = record {
    order =
        push_event-IsScheduled (global_from_local_deadline node deadline g)
          (timer_fire g.next_timer_id)
          (record g {
            next_timer_id = suc g.next_timer_id;
            timers = insert g.next_timer_id task g.timers;
          })
          (omega arith) s;
    later = omega arith;
  }

  -- A poll of a sleep keeps the order of dispatch: the timer is set to no time that is past.
  pub poll_sleep-Advances :
      (node deadline : ℕ) (timer : Option ℕ) (g : Inner Fut)
      → IsScheduled g
      → Advances g (poll_sleep node deadline timer g).2
  unfolding poll_sleep cancel_timer local_now
  poll_sleep-Advances node deadline timer g s =
      let g1 = (local_now node g).1 in
      let kept = λ (t : Map ℕ).
        let out : Advances g (record g1 { timers = t }) = record {
          order = s;
          later = omega arith;
        } in
        out in
      let live : Option ℕ = elim timer [
        | none ↦ none
        | some t ↦ if contains_key t g1.timers then some t else none
      ] in
      elim (Bool-cases (leb deadline (local_now node g).0)) [
        | inl over ↦ elim (Option-cases timer) [
          | inl e ↦ rw (over, poll_sleep, e) (kept g.timers)
          | inr (t, e) ↦ rw (over, poll_sleep, e) (kept (remove t g.timers))
        ]
        | inr early ↦ elim (Option-cases live) [
          | inr (t, e) ↦ rw (early, poll_sleep, e) (kept g.timers)
          | inl e ↦
              let set = set_timer-Advances node deadline g.current_task g1 s in
              rw (early, poll_sleep, e) (record { order = set.order; later = set.later })
        ]
      ]
