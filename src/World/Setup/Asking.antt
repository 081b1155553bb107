-- ===== src/World/Setup/Asking.antt =====
-- A plan that draws from the tape of the world is reproduced from its log.
use detersim.Prelude.{
  ℕ, zero, suc, ◌+◌, ◌≡◌, refl, Bool, true, false, Option, none, some, List, [], ◌∷◌, Map, length,
  contains_key, insert, get_or, get_elem?, take, drop, ◌%◌, ◌-◌, ltb, arith, Bool-cases,
  Option-cases, inl, inr,
}
use detersim.Time.{SimTime, saturating_add}
use detersim.Nemesis.{NemesisAction}
use detersim.Nemesis.View.{WorldView, live_nodes}
use detersim.Nemesis.Plans.{
  Timed, Plan, Plans, scripted, random_link_fault, random_partition, composite, no_plans,
  more_plans, select, ask_link_fault, ask_partition, ask_scripted, next_action, ask_children,
}
use detersim.World.{Keyed}
use detersim.World.Events.{push_sorted, draw_tape}
use detersim.World.Replay.{
  Op, with_tape, IsReplayable, draw_tape-IsReplayable, then-IsReplayable, Replays-by,
}
use detersim.World.Replay.Pops.{ret, ret-IsReplayable}
use detersim.World.Setup.{tape_label, plan_draw}

pub length-push_sorted : (e : Keyed) (q : List Keyed) → length (push_sorted e q) ≡ suc (length q)
unfolding push_sorted
length-push_sorted e [] = refl
length-push_sorted e (f ∷ q) = ground (arith, length-push_sorted e q)

abbrev pub Answer : Type 0
Answer = Option Timed × Plan

module _ {Fut : Type 0} where
  -- Asking a plan, as an operation on the world that draws from its tape.
  abbrev pub ask : WorldView → Plan → Op Fut Answer
  ask view plan g =
      let a = next_action plan_draw view plan g.tape in ((a.result, a.plan), with_tape a.source g)

  abbrev ask_all : WorldView → Plans → ℕ → Map Timed → Op Fut (Map Timed × Plans)
  ask_all view plans idx pending g =
      let p = ask_children plan_draw view plans idx pending g.tape in
      ((p.pending, p.plans), with_tape p.source g)

  ask_scripted-IsReplayable :
      (view : WorldView) (actions : List Timed) (cursor : ℕ)
      → IsReplayable (ask view (scripted actions cursor))
  unfolding next_action
  ask_scripted-IsReplayable view actions cursor g h =
      elim (Option-cases (get_elem? actions cursor)) [
        | inl e ↦
            Replays-by (ask view (scripted actions cursor)) (ret (none, scripted actions cursor)) g
              (λ t. rw (e, ask_scripted) refl)
              (ret-IsReplayable (none, scripted actions cursor) g h)
        | inr (next, e) ↦
            Replays-by (ask view (scripted actions cursor))
              (ret (some next, scripted actions (suc cursor))) g (λ t. rw (e, ask_scripted) refl)
              (ret-IsReplayable (some next, scripted actions (suc cursor)) g h)
      ]

  ask_link-IsReplayable :
      (view : WorldView) (at : SimTime) (candidates : List (ℕ × ℕ)) (up emitted : Bool)
      → IsReplayable (ask view (random_link_fault at candidates up emitted))
  unfolding next_action ask_link_fault
  ask_link-IsReplayable view at [] up emitted =
      ret-IsReplayable (none, random_link_fault at [] up emitted)
  ask_link-IsReplayable view at (c ∷ cs) up true =
      ret-IsReplayable (none, random_link_fault at (c ∷ cs) up true)
  ask_link-IsReplayable view at (c ∷ cs) up false =
      let answer : ℕ → Answer = λ v.
        let link = get_or (c ∷ cs) (v % length (c ∷ cs)) c in
        (
          some (at, NemesisAction.set_link link.0 link.1 up),
          random_link_fault at (c ∷ cs) up true,
        ) in
      then-IsReplayable (draw_tape (tape_label "nemesis.link")) (λ v. ret (answer v))
        (draw_tape-IsReplayable (tape_label "nemesis.link")) (λ v. ret-IsReplayable (answer v))

  ask_partition-IsReplayable :
      (view : WorldView) (next_at : SimTime) (interval remaining : ℕ)
      → IsReplayable (ask view (random_partition next_at interval remaining))
  unfolding next_action ask_partition
  ask_partition-IsReplayable view next_at interval zero g h =
      ret-IsReplayable (none, random_partition next_at interval zero) g h
  ask_partition-IsReplayable view next_at interval (suc remaining) g h =
      let nodes = live_nodes view in
      let answer : ℕ → Answer = λ v.
        let pivot = 1 + v % (length nodes - 1) in
        (
          some (next_at, NemesisAction.partition (take pivot nodes ∷ drop pivot nodes ∷ [])),
          random_partition (saturating_add next_at interval) interval remaining,
        ) in
      elim (Bool-cases (ltb (length nodes) 2)) [
        | inl few ↦
            Replays-by (ask view (random_partition next_at interval (suc remaining)))
              (ret (none, random_partition next_at interval (suc remaining))) g (λ t. rw few refl)
              (ret-IsReplayable (none, random_partition next_at interval (suc remaining)) g h)
        | inr many ↦
            Replays-by (ask view (random_partition next_at interval (suc remaining)))
              (λ s.
                ret (answer (draw_tape (tape_label "nemesis.partition") s).0)
                  (draw_tape (tape_label "nemesis.partition") s).1)
              g (λ t. rw many refl)
              (then-IsReplayable (draw_tape (tape_label "nemesis.partition")) (λ v. ret (answer v))
                (draw_tape-IsReplayable (tape_label "nemesis.partition"))
                (λ v. ret-IsReplayable (answer v)) g h)
      ]

  mutual
    unfolding next_action ask_children

    pub ask-IsReplayable : (view : WorldView) (plan : Plan) → IsReplayable (ask view plan)
    ask-IsReplayable view (scripted actions cursor) = ask_scripted-IsReplayable view actions cursor
    ask-IsReplayable view (random_link_fault at candidates up emitted) =
        ask_link-IsReplayable view at candidates up emitted
    ask-IsReplayable view (random_partition next_at interval remaining) =
        ask_partition-IsReplayable view next_at interval remaining
    ask-IsReplayable view (composite plans pending) =
        let answer : Map Timed × Plans → Answer =
          λ p. ((select p.0).0, composite p.1 (select p.0).1) in
        then-IsReplayable (ask_all view plans 0 pending) (λ p. ret (answer p))
          (ask_all-IsReplayable view plans 0 pending) (λ p. ret-IsReplayable (answer p))

    ask_all-IsReplayable :
        (view : WorldView) (plans : Plans) (idx : ℕ) (pending : Map Timed)
        → IsReplayable (ask_all view plans idx pending)
    ask_all-IsReplayable view no_plans idx pending g h = ret-IsReplayable (pending, no_plans) g h
    ask_all-IsReplayable view (more_plans plan plans) idx pending g h =
        let held : Map Timed × Plans → Map Timed × Plans = λ p. (p.0, more_plans plan p.1) in
        let put : Option Timed → Map Timed =
          λ o. elim o [ none ↦ pending | some next ↦ insert idx next pending ] in
        let asked : Answer → Map Timed × Plans → Map Timed × Plans =
          λ a p. (p.0, more_plans a.1 p.1) in
        let rest : Answer → Op Fut (Map Timed × Plans) = λ a s.
          ret (asked a (ask_all view plans (suc idx) (put a.0) s).0)
            (ask_all view plans (suc idx) (put a.0) s).1 in
        elim (Bool-cases (contains_key idx pending)) [
          | inl waits ↦
              Replays-by (ask_all view (more_plans plan plans) idx pending)
                (λ s.
                  ret (held (ask_all view plans (suc idx) pending s).0)
                    (ask_all view plans (suc idx) pending s).1)
                g (λ t. rw waits refl)
                (then-IsReplayable (ask_all view plans (suc idx) pending) (λ p. ret (held p))
                  (ask_all-IsReplayable view plans (suc idx) pending)
                  (λ p. ret-IsReplayable (held p)) g h)
          | inr idle ↦
              Replays-by (ask_all view (more_plans plan plans) idx pending)
                (λ s. rest (ask view plan s).0 (ask view plan s).1) g (λ t. rw idle refl)
                (then-IsReplayable (ask view plan) rest (ask-IsReplayable view plan)
                  (λ a.
                    then-IsReplayable (ask_all view plans (suc idx) (put a.0))
                      (λ p. ret (asked a p)) (ask_all-IsReplayable view plans (suc idx) (put a.0))
                      (λ p. ret-IsReplayable (asked a p)))
                  g h)
        ]
