-- ===== src/World/Dispatch/Schedule/Deliveries.antt =====
-- Deliveries and timers keep the schedule.
use detersim.Prelude.{
  ℕ, ◌≤◌, ◌≡◌, refl, subst, sym, ap, ◌∙◌, Bool, true, false, ltb, List, [], ◌∷◌, ◌++◌, lookup,
  lookup_or, update, insert, remove, if◌then◌else◌, arith, Bool-cases, Option-cases, inl, inr,
}
use detersim.Tape.{TapeLabel, EntropyTape, drop_decision, draw}
use detersim.World.{
  EventKind, Keyed, Inner, Message, TraceLine, poll_task, rendered, unregistered, crashed_end,
  partitioned, random_drop,
}
use detersim.World.Events.{push_event, enqueue_poll_now, enqueue_polls, draw_percent}
use detersim.World.Dispatch.{dispatch, fire_timer, accept, deliver, drop_line}
use detersim.World.Dispatch.Schedule.{
  Key, key, keys, keys-append, Scheduled, IsScheduled, push-Scheduled, Next, list-Scheduled,
}

module _ {Fut : Type 0} where
  -- The state just after `event` was popped.
  abbrev pub IsReady : Keyed → Inner Fut → Type 0
  IsReady event g = Next (keys g.trace) event g.queue g.seq × (g.now ≡ event.time)

  -- The order is kept, and time stands still.
  pub record Keeps (g h : Inner Fut) : Type 0 where
    pub order : IsScheduled h
    pub still : h.now ≡ g.now

  pub push_event-IsScheduled :
      (time : ℕ) (kind : EventKind) (g : Inner Fut)
      → g.now ≤ time
      → IsScheduled g
      → IsScheduled (push_event time kind g)
  unfolding push_event
  push_event-IsScheduled time kind g h s =
      push-Scheduled (keys g.trace) g.queue g.seq g.now time kind h s

  enqueue_polls-Keeps :
      (tasks : List ℕ) (g : Inner Fut) → IsScheduled g → Keeps g (enqueue_polls tasks g)
  unfolding enqueue_polls enqueue_poll_now push_event
  enqueue_polls-Keeps [] g s = record { order = s; still = refl }
  enqueue_polls-Keeps (task ∷ tasks) g s =
      let r =
        enqueue_polls-Keeps tasks (enqueue_poll_now task g)
          (push_event-IsScheduled g.now (poll_task task) g (omega arith) s) in
      record { order = r.order; still = r.still }

  pub ready-IsScheduled : (event : Keyed) (g : Inner Fut) → IsReady event g → IsScheduled g
  ready-IsScheduled event g r =
      subst (λ (t : ℕ). Scheduled (keys g.trace) g.queue g.seq t) (sym r.1) r.0.rest

  -- A line with the key of the popped event.
  pub dispatch-Keeps :
      (event : Keyed) (line : TraceLine) (g : Inner Fut)
      → keys (line ∷ []) ≡ key event ∷ []
      → IsReady event g
      → IsScheduled (dispatch line g)
  dispatch-Keeps event line g e r =
      let listed = list-Scheduled (keys g.trace) event g.queue g.seq r.0 in
      let k : keys (g.trace ++ line ∷ []) ≡ keys g.trace ++ key event ∷ [] =
        keys-append g.trace (line ∷ []) ∙ ap (λ l. keys g.trace ++ l) e in
      subst (λ (l : List Key). Scheduled l g.queue g.seq g.now) (sym k)
        (subst (λ (t : ℕ). Scheduled (keys g.trace ++ key event ∷ []) g.queue g.seq t) (sym r.1)
          listed)

  pub fire_timer-Keeps :
      (event : Keyed) (timer : ℕ) (g : Inner Fut)
      → IsReady event g
      → Keeps g (fire_timer event timer g)
  unfolding fire_timer enqueue_poll_now push_event
  fire_timer-Keeps event timer g r = elim (Option-cases (lookup timer g.timers)) [
    | inl gone ↦
        rw (gone, fire_timer) (record { order = ready-IsScheduled event g r; still = refl })
    | inr (task, hit) ↦
        let g1 = dispatch (rendered event) (record g { timers = remove timer g.timers }) in
        let s =
          dispatch-Keeps event (rendered event) (record g { timers = remove timer g.timers }) refl
            r in
        rw (hit, fire_timer)
          (record {
            order = push_event-IsScheduled g.now (poll_task task) g1 (omega arith) s;
            still = refl;
          })
  ]

  accept-Keeps :
      (event : Keyed) (from to : ℕ) (msg : Message) (g : Inner Fut)
      → IsReady event g
      → Keeps g (accept event from to msg g)
  unfolding accept
  accept-Keeps event from to msg g r =
      let g1 = dispatch (rendered event) g in
      let g2 = record g1 {
        inboxes = insert to (lookup_or to [] g.inboxes ++ (from, msg) ∷ []) g.inboxes;
        recv_waiters = update to (λ _. []) g.recv_waiters;
      } in
      let r =
        enqueue_polls-Keeps (lookup_or to [] g.recv_waiters) g2
          (dispatch-Keeps event (rendered event) g refl r) in
      record { order = r.order; still = r.still }

  if-Keeps :
      (g : Inner Fut) (b : Bool) (x y : Inner Fut)
      → Keeps g x
      → Keeps g y
      → Keeps g (if b then x else y)
  if-Keeps g true x y p q = p
  if-Keeps g false x y p q = q

  pub draw_percent-tape :
      (percent : ℕ) (label : TapeLabel) (g : Inner Fut)
      → (t : EntropyTape) × ((draw_percent percent label g).1 ≡ record g { tape = t })
  unfolding draw_percent
  draw_percent-tape percent label g = elim (Bool-cases (ltb 0 percent)) [
    | inl drawn ↦ ((draw label g.tape).1, rw drawn refl)
    | inr never ↦ (g.tape, rw never refl)
  ]

  pub dropped-Keeps :
      (event : Keyed) (line : TraceLine) (g : Inner Fut)
      → keys (line ∷ []) ≡ key event ∷ []
      → IsReady event g
      → Keeps g (dispatch line g)
  dropped-Keeps event line g e r = record { order = dispatch-Keeps event line g e r; still = refl }

  pub deliver-Keeps :
      (event : Keyed) (from to : ℕ) (msg : Message) (g : Inner Fut)
      → IsReady event g
      → Keeps g (deliver event from to msg g)
  unfolding deliver
  deliver-Keeps event from to msg g r =
      let (t, e) = draw_percent-tape g.faults.drop_percent drop_decision g in
      let g1 : Inner Fut = record g { tape = t } in
      let lost = dropped-Keeps event (drop_line random_drop event from to) g1 refl r in
      let taken = accept-Keeps event from to msg g1 r in
      let gone = (draw_percent g.faults.drop_percent drop_decision g).0 in
      let tail = λ (d : Inner Fut).
        if gone
        then dispatch (drop_line random_drop event from to) d
        else accept event from to msg d in
      let last : Keeps g (tail g1) =
        if-Keeps g gone _ _ (record { order = lost.order; still = lost.still })
          (record { order = taken.order; still = taken.still }) in
      if-Keeps g _ _ _ (dropped-Keeps event (drop_line unregistered event from to) g refl r) (
        if-Keeps g _ _ _ (dropped-Keeps event (drop_line crashed_end event from to) g refl r) (
          if-Keeps g _ _ _ (dropped-Keeps event (drop_line partitioned event from to) g refl r)
            (subst (λ (d : Inner Fut). Keeps g (tail d)) (sym e) last)))
