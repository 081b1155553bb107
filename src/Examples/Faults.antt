-- ===== src/Examples/Faults.antt =====
-- The connectivity matrix and the fault plans at concrete inputs.
use Prim.Native.String.{String}
use detersim.Prelude.{ℕ, suc, ◌≡◌, ◌↔◌, ◌&&◌, none, some, List, [], ◌∷◌, remove}
use detersim.Nemesis.{NemesisAction}
use detersim.Nemesis.Connectivity.{ConnectivityMatrix, is_connected, partition, same_group}
use detersim.Nemesis.Connectivity.Partition.{group_index, registered, is_connected-partition}
use detersim.Nemesis.View.{WorldView}
use detersim.Nemesis.Plans.{
  Timed, Plans, no_plans, more_plans, scripted, composite, next_action, ask_children,
}
use detersim.Nemesis.Plans.Merge.{IsEarliest, next_action-composite}

-- Nodes 1, 2 and 3, the link from 1 to 2 down.
abbrev matrix : ConnectivityMatrix
matrix = record { nodes = 1 ∷ 2 ∷ 3 ∷ []; blocked = (1, 2) ∷ [] }

-- The source of entropy counts its draws.
abbrev count : String → ℕ → ℕ × ℕ
count label d = (d, suc d)

abbrev view : WorldView
view = record { now = 0; nodes = 1 ∷ 2 ∷ 3 ∷ []; crashed = 2 ∷ []; connectivity = matrix }

abbrev late : Timed
late = (9, NemesisAction.heal_all)

abbrev early : Timed
early = (4, NemesisAction.crash 1)

abbrev children : Plans
children = more_plans (scripted (late ∷ []) 0) (more_plans (scripted (early ∷ []) 0) no_plans)

abbrev groups : List (List ℕ)
groups = (1 ∷ 2 ∷ []) ∷ (4 ∷ []) ∷ []

is_connected-partition_example :
    (is_connected 1 3 (partition groups matrix) ≡ (
      registered groups matrix 1
      && (registered groups matrix 3
          && same_group (group_index 0 groups 1) (group_index 0 groups 3))))
    × (is_connected 1 3 (partition groups matrix) ≡ is_connected 3 1 (partition groups matrix))
is_connected-partition_example = is_connected-partition 1 3 groups matrix

next_action-composite_example :
    let asked = next_action count view (composite children []) 0 in
    let polled = ask_children count view children 0 [] 0 in
    (asked.result ≡ none ↔ polled.pending ≡ [])
    × ((e : Timed)
        → asked.result ≡ some e
        → (i : ℕ) × IsEarliest polled.pending i e
          × (asked.plan ≡ composite polled.plans (remove i polled.pending)))
next_action-composite_example = next_action-composite count view children [] 0

abbrev two : ℕ
two = 2
