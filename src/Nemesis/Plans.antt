-- ===== src/Nemesis/Plans.antt =====
-- `NemesisPlan` and its four implementations. Entropy comes from a parameter: `draw` is the
-- `NemesisDraw` that the simulator supplies, over a source that a draw advances.
pub mod Partitions
pub mod Merge
use Prim.Native.String.{String}
use detersim.Prelude.{
  ℕ, zero, suc, ◌+◌, ◌-◌, ◌%◌, ◌≤◌, ◌<◌, ◌≡◌, Bool, true, false, not, ◌&&◌, ◌||◌, Option, none,
  some, List, [], ◌∷◌, Map, lookup, insert, remove, contains_key, length, get_elem?, get_or, take,
  drop, ltb, leb, ◌==◌, if◌then◌else◌,
}
use detersim.Time.{SimTime, saturating_add}
use detersim.Nemesis.{NemesisAction}
use detersim.Nemesis.View.{WorldView, live_nodes}

-- A time and an action.
abbrev pub Timed : Type 0
Timed = SimTime × NemesisAction

-- `Box<dyn NemesisPlan>` is one of the four plans of the crate.
mutual
  pub data Plan : Type 0 where
    scripted : (actions : List Timed) (cursor : ℕ) → Plan
    random_link_fault : (at : SimTime) (candidates : List (ℕ × ℕ)) (up emitted : Bool) → Plan
    random_partition : (next_at : SimTime) (interval_ns remaining : ℕ) → Plan
    composite : (plans : Plans) (pending : Map Timed) → Plan

  pub data Plans : Type 0 where
    no_plans : Plans
    more_plans : Plan → Plans → Plans

-- What `next_action` returns, with the plan and the source after the call.
pub record Asked (D : Type 0) : Type 0 where
  pub result : Option Timed
  pub plan : Plan
  pub source : D

pub record Polled (D : Type 0) : Type 0 where
  pub pending : Map Timed
  pub plans : Plans
  pub source : D

-- The earlier `(time, index)` pair: `min_by_key` keeps the first of equal keys.
abbrev pub before : ℕ × Timed → ℕ × Timed → Bool
before (i, (s, a)) (j, (t, b)) = ltb s t || ((s == t) && leb i j)

unfoldable pub earliest : Map Timed → Option (ℕ × Timed)
earliest [] = none
earliest (e ∷ m) = elim (earliest m) [ none ↦ some e | some f ↦ some (if before e f then e else f) ]

-- The entry chosen, and the pending map without it.
unfoldable pub select : Map Timed → Option Timed × Map Timed
unfolding earliest
select m = elim (earliest m) [ none ↦ (none, m) | some (i, e) ↦ (some e, remove i m) ]

module _ {D : Type 0} (draw : String → D → ℕ × D) (view : WorldView) where
  unfoldable pub ask_link_fault : SimTime → List (ℕ × ℕ) → Bool → Bool → D → Asked D
  ask_link_fault at [] up emitted d = record {
    result = none;
    plan = random_link_fault at [] up emitted;
    source = d;
  }
  ask_link_fault at (c ∷ cs) up true d = record {
    result = none;
    plan = random_link_fault at (c ∷ cs) up true;
    source = d;
  }
  ask_link_fault at (c ∷ cs) up false d =
      let (v, d') = draw "nemesis.link" d in
      let link = get_or (c ∷ cs) (v % length (c ∷ cs)) c in
      record {
        result = some (at, NemesisAction.set_link link.0 link.1 up);
        plan = random_link_fault at (c ∷ cs) up true;
        source = d';
      }

  unfoldable pub ask_partition : SimTime → ℕ → ℕ → D → Asked D
  unfolding live_nodes saturating_add
  ask_partition next_at interval zero d = record {
    result = none;
    plan = random_partition next_at interval zero;
    source = d;
  }
  ask_partition next_at interval (suc remaining) d =
      let nodes = live_nodes view in
      let (v, d') = draw "nemesis.partition" d in
      let pivot = 1 + v % (length nodes - 1) in
      if ltb (length nodes) 2
      then record {
        result = none;
        plan = random_partition next_at interval (suc remaining);
        source = d;
      }
      else record {
        result = some (next_at, NemesisAction.partition (take pivot nodes ∷ drop pivot nodes ∷ []));
        plan = random_partition (saturating_add next_at interval) interval remaining;
        source = d';
      }

  unfoldable pub ask_scripted : List Timed → ℕ → D → Asked D
  ask_scripted actions cursor d = elim (get_elem? actions cursor) [
    | none ↦ record { result = none; plan = scripted actions cursor; source = d }
    | some next ↦ record { result = some next; plan = scripted actions (suc cursor); source = d }
  ]

  -- `composite` asks each child that has no pending action, then emits the earliest pending one.
  unfoldable mutual
    unfolding ask_link_fault ask_partition ask_scripted select

    pub next_action : Plan → D → Asked D
    next_action (scripted actions cursor) d = ask_scripted actions cursor d
    next_action (random_link_fault at candidates up emitted) d =
        ask_link_fault at candidates up emitted d
    next_action (random_partition next_at interval remaining) d =
        ask_partition next_at interval remaining d
    next_action (composite plans pending) d =
        let p = ask_children plans 0 pending d in
        let (chosen, rest) = select p.pending in
        record { result = chosen; plan = composite p.plans rest; source = p.source }

    pub ask_children : Plans → ℕ → Map Timed → D → Polled D
    ask_children no_plans idx pending d = record { pending = pending; plans = no_plans; source = d }
    ask_children (more_plans plan plans) idx pending d =
        let a = next_action plan d in
        let kept = ask_children plans (suc idx) pending d in
        let asked =
          ask_children plans (suc idx)
            (elim a.result [ none ↦ pending | some next ↦ insert idx next pending ]) a.source in
        if contains_key idx pending
        then record kept { plans = more_plans plan kept.plans }
        else record asked { plans = more_plans a.plan asked.plans }
