-- ===== src/World/Dispatch/Counts.antt =====
-- Counting the events that fire timers or poll, and the waiters.
use detersim.Prelude.{
  ℕ, suc, ◌+◌, ◌≤◌, ◌≡◌, refl, ap, Bool, not, List, [], ◌∷◌, map, length, filter, length-filter-le,
  Map, lookup, lookup_or, update, remove, member, ◌==◌, arith, Bool-cases, inl, inr,
}
use detersim.World.{Keyed, poll_task}
use detersim.World.Events.{push_sorted, before}
use detersim.World.Dispatch.{fires, fire_of, waiting}

pub push_sorted-poll :
    (time seq task : ℕ) (q : List Keyed)
    → let e : Keyed = record { time = time; seq = seq; kind = poll_task task } in
      (length (push_sorted e q) ≡ suc (length q)) × (fires (push_sorted e q) ≡ fires q)
unfolding push_sorted
push_sorted-poll time seq task [] = (refl, refl)
push_sorted-poll time seq task (f ∷ q) =
    let ih = push_sorted-poll time seq task q in
    elim (Bool-cases (before (record { time = time; seq = seq; kind = poll_task task }) f)) [
      | inl first ↦ rw first (refl, omega arith)
      | inr later ↦ rw later (ap suc ih.0, ap (λ n. fire_of f.kind + n) ih.1)
    ]

pub fires-filter-le : (p : Keyed → Bool) (q : List Keyed) → fires (filter p q) ≤ fires q
fires-filter-le p [] = omega arith
fires-filter-le p (e ∷ q) = let ih = fires-filter-le p q in ground (arith, ih)

pub waiting-update :
    (k : ℕ) (m : Map (List ℕ))
    → waiting (update k (λ _. []) m) + length (lookup_or k [] m) ≡ waiting m
waiting-update k [] = omega arith
waiting-update k ((j, v) ∷ m) = elim (Bool-cases (j == k)) [
  | inl hit ↦ rw (hit, lookup_or, lookup) (omega arith)
  | inr miss ↦ let ih = waiting-update k m in rw (miss, lookup_or, lookup) (omega (arith, ih))
]

pub waiting-crash-le :
    (node : ℕ) (removed : List ℕ) (m : Map (List ℕ))
    → waiting (
        map {A = ℕ × List ℕ}
          (λ e. (e.0, filter (λ task. not (member task removed)) e.1))
          (remove node m))
      ≤ waiting m
waiting-crash-le node removed [] = omega arith
waiting-crash-le node removed ((k, v) ∷ m) =
    ground (
      arith,
      waiting-crash-le node removed m,
      length-filter-le (λ task. not (member task removed)) v,
    )
