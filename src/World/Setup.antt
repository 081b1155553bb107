-- ===== src/World/Setup.antt =====
-- What a harness does to a `World` before it runs: its constructors, its setters, and the schedule of
-- faults. A setter that calls `apply_nemesis` drops the node that is to be restarted.
mod Asking
pub mod Schedules
use Prim.Native.String.{String}
use text.Mathlib.Text.{◌==◌ as str_eq}
use detersim.Prelude.{
  ℕ, zero, suc, ◌+◌, min, Bool, true, false, ◌||◌, Option, none, some, List, [], ◌∷◌, ◌++◌, ℤ,
  if◌then◌else◌, ◌>>=◌, range,
}
use detersim.Time.{SimTime}
use detersim.Tape.{
  TapeLabel, EntropyTape, partition, restart, clock_skew, nemesis, generate, replay, draw,
}
use detersim.Nemesis.{NemesisAction}
use detersim.Nemesis.Plans.{Plan, Asked, next_action}
use detersim.World.{
  EventKind, Inner, WorldConfig, HistoryLine, default_world, from_tape, restart_line, recorded,
}
use detersim.World.Events.{push_event}
use detersim.World.Faults.{apply_nemesis, world_view, add_node_factory, restart_node}

module _ {Fut : Type 0} where
  unfoldable pub with_config : ℕ → WorldConfig → Inner Fut
  with_config seed config = from_tape seed config (generate seed)

  unfoldable pub new : ℕ → Inner Fut
  unfolding with_config
  new seed = with_config seed default_world

  unfoldable pub replay_world : ℕ → List ℕ → WorldConfig → Inner Fut
  replay_world seed tape config = from_tape seed config (replay tape)

  -- `none` is the panic on a node that is registered already.
  unfoldable pub add_each : List ℕ → (ℕ → Fut) → Inner Fut → Option (Inner Fut)
  add_each [] f g = some g
  add_each (node ∷ nodes) f g = add_node_factory node (f node) g >>= λ s. add_each nodes f s

  unfoldable pub add_nodes : ℕ → (ℕ → Fut) → Inner Fut → Option (Inner Fut)
  unfolding add_each
  add_nodes count f g = add_each (range 0 count) f g

  unfoldable pub schedule_nemesis : SimTime → NemesisAction → Inner Fut → Inner Fut
  schedule_nemesis at action g = push_event at (EventKind.nemesis action) g

  unfoldable pub set_partition : List (List ℕ) → Inner Fut → Inner Fut
  set_partition groups g = (apply_nemesis (NemesisAction.partition groups) g).1

  unfoldable pub heal_all : Inner Fut → Inner Fut
  heal_all g = (apply_nemesis NemesisAction.heal_all g).1

  unfoldable pub set_drop_percent : ℕ → Inner Fut → Inner Fut
  set_drop_percent percent g = record g {
    faults = record g.faults { drop_percent = min percent 100 };
  }

  unfoldable pub set_duplicate_percent : ℕ → Inner Fut → Inner Fut
  set_duplicate_percent percent g = record g {
    faults = record g.faults { duplicate_percent = min percent 100 };
  }

  unfoldable pub set_extra_delay_ms : ℕ → Inner Fut → Inner Fut
  set_extra_delay_ms max_extra_delay_ms g = record g {
    faults = record g.faults { extra_delay_ms = max_extra_delay_ms };
  }

  unfoldable pub set_clock_skew : ℕ → ℤ → Inner Fut → Inner Fut
  set_clock_skew node offset_ns g = (apply_nemesis (NemesisAction.clock_skew node offset_ns) g).1

  unfoldable pub strike_node : ℕ → Inner Fut → Inner Fut
  strike_node node g = (apply_nemesis (NemesisAction.crash node) g).1

-- `TapeDraw`: the label of the tape for the label of a plan's draw.
unfoldable pub tape_label : String → TapeLabel
tape_label label =
    if str_eq label "nemesis.partition" || str_eq label "nemesis.link"
    then partition
    else if str_eq label "nemesis.restart"
    then restart
    else if str_eq label "nemesis.clock-skew"
    then clock_skew
    else nemesis

abbrev pub plan_draw : String → EntropyTape → ℕ × EntropyTape
plan_draw label tape = draw (tape_label label) tape

module _ {Fut : Type 0} where
  -- The number of actions scheduled, the plan after them and the state.
  unfoldable pub schedule_nemesis_plan : ℕ → Plan → Inner Fut → (ℕ × Plan) × Inner Fut
  unfolding schedule_nemesis
  schedule_nemesis_plan zero plan g = ((0, plan), g)
  schedule_nemesis_plan (suc more) plan g =
      let a = next_action plan_draw (world_view g) plan g.tape in
      let g1 = record g { tape = a.source } in
      elim a.result [
        | none ↦ ((0, a.plan), g1)
        | some (at, action) ↦
            let (counted, g2) = schedule_nemesis_plan more a.plan (schedule_nemesis at action g1) in
            ((suc counted.0, counted.1), g2)
      ]

  -- `SimEnv::record`.
  unfoldable pub record_event : String → Inner Fut → Inner Fut
  record_event event g = record g { history = g.history ++ recorded event ∷ [] }
