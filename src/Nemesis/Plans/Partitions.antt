-- ===== src/Nemesis/Plans/Partitions.antt =====
-- The random plans: which partitions and link faults they emit.
use Prim.Native.String.{String}
use mathlib.Core.Logic.Or
use mathlib.Core.List.{Mem, mem-cons, mem-cons_self}
use detersim.Prelude.{
  ℕ, zero, suc, ◌+◌, ◌-◌, ◌%◌, ◌≤◌, ◌<◌, ◌≡◌, refl, ◌⊎◌, Bool, true, false, none, some, List, [],
  ◌∷◌, ◌++◌, length, take, drop, arith, take-append-drop, length-take, length-drop, get_or, ltb,
  lt→ltb, ◌≢◌,
}
use detersim.Time.{SimTime, saturating_add}
use detersim.Nemesis.{NemesisAction}
use detersim.Nemesis.View.{WorldView, live_nodes}
use detersim.Nemesis.Plans.{random_partition, random_link_fault, next_action}

mem-get_or {ℓ} : {A : Type ℓ} (xs : List A) (i : ℕ) (a : A) → i < length xs → Mem (get_or xs i a) xs
mem-get_or [] i a h = absurd (omega arith)
mem-get_or (x ∷ xs) zero a h = mem-cons_self
mem-get_or (x ∷ xs) (suc i) a h = mem-cons.1 (Or.inr (mem-get_or xs i a (omega arith)))

-- While actions remain and two nodes are live, a random partition emits, at its due time, a split of
-- the live nodes into two non-empty groups, in order, and comes due again one interval later with
-- one action less. Otherwise it emits nothing, draws nothing and stays as it is.
pub next_action-random_partition :
    {D : Type 0} (draw : String → D → ℕ × D) (view : WorldView) (at : SimTime)
    (interval remaining : ℕ) (d : D)
    → let asked = next_action draw view (random_partition at interval remaining) d in
      ((0 < remaining) × (1 < length (live_nodes view))
        → (left : List ℕ) × (right : List ℕ) × (asked.result
            ≡ some (at, NemesisAction.partition (left ∷ right ∷ [])))
          × (left ++ right ≡ live_nodes view)
          × (0 < length left)
          × (0 < length right)
          × (asked.plan ≡ random_partition (saturating_add at interval) interval (remaining - 1))
          × (asked.source ≡ (draw "nemesis.partition" d).1))
      × ((remaining ≡ 0) ⊎ (length (live_nodes view) ≤ 1)
          → (asked.result ≡ none)
            × (asked.plan ≡ random_partition at interval remaining)
            × (asked.source ≡ d))
unfolding next_action
next_action-random_partition draw view at interval zero d =
    (λ h. absurd (omega arith), λ h. (refl, refl, refl))
next_action-random_partition draw view at interval (suc remaining) d =
    let nodes = live_nodes view in
    let pivot = 1 + (draw "nemesis.partition" d).0 % (length nodes - 1) in
    let lt = length-take pivot nodes in
    let ld = length-drop pivot nodes in
    let less : suc remaining - 1 ≡ remaining = omega arith in
    (
      λ h.
          let many : ltb (length nodes) 2 ≡ false = ground (arith, h.1) in
          let inside : pivot < length nodes = omega (arith, h.1) in
          rw (many, less)
            (
              take pivot nodes,
              drop pivot nodes,
              refl,
              take-append-drop pivot nodes,
              omega arith,
              omega arith,
              refl,
              refl,
            ),
      λ h.
          let few : ltb (length nodes) 2 ≡ true = lt→ltb _ _ (omega (arith, h)) in
          rw few (refl, refl, refl),
    )

-- A random link fault emits one of its candidate links, once: asked again, or with no candidates, it
-- emits nothing and draws nothing.
pub next_action-random_link_fault :
    {D : Type 0} (draw : String → D → ℕ × D) (view : WorldView) (at : SimTime)
    (links : List (ℕ × ℕ)) (up : Bool) (d : D)
    → let asked = next_action draw view (random_link_fault at links up false) d in
      (links ≢ []
        → (from : ℕ) × (to : ℕ) × Mem (from, to) links
          × (asked.result ≡ some (at, NemesisAction.set_link from to up)))
      × (links ≡ [] → asked.result ≡ none)
      × ((d' : D)
          → ((next_action draw view asked.plan d').result ≡ none)
            × ((next_action draw view asked.plan d').source ≡ d'))
unfolding next_action
next_action-random_link_fault draw view at [] up d =
    (λ h. absurd (h refl), λ _. refl, λ d'. (refl, refl))
next_action-random_link_fault draw view at (c ∷ cs) up d =
    let k = (draw "nemesis.link" d).0 % length (c ∷ cs) in
    (
      λ _. (_, _, mem-get_or (c ∷ cs) k c (omega arith), refl),
      λ h. absurd (ground arith),
      λ d'. (refl, refl),
    )
