-- ===== src/Nemesis/Plans/Merge.antt =====
-- The composite plan: which pending action it emits.
use Prim.Native.String.{String}
use detersim.Prelude.{
  ℕ, ◌≤◌, ◌<◌, ◌≡◌, refl, ◌⊎◌, ◌↔◌, inl, inr, subst, true, false, none, some, [], ◌∷◌, Map, remove,
  Entries, Entries-imp, arith, Option-cases, Bool-cases,
}
use detersim.Nemesis.View.{WorldView}
use detersim.Nemesis.Plans.{
  Timed, Plans, composite, before, earliest, select, next_action, ask_children,
}

-- The entry stands in the map.
abbrev pub Holds : ℕ → Timed → Map Timed → Type 0
Holds i e [] = ⊥
Holds i e ((j, f) ∷ m) = ((i ≡ j) × (e ≡ f)) ⊎ Holds i e m

-- `e` at index `i` comes no later than `f` at index `j`.
abbrev pub NotAfter : ℕ → Timed → ℕ → Timed → Type 0
NotAfter i e j f = (e.0 < f.0) ⊎ ((e.0 ≡ f.0) × (i ≤ j))

NotAfter-trans :
    (i j k : ℕ) (e f g : Timed) → NotAfter i e j f → NotAfter j f k g → NotAfter i e k g
NotAfter-trans i j k e f g p q = omega arith

before-NotAfter : (i j : ℕ) (e f : Timed) → before (i, e) (j, f) ≡ true → NotAfter i e j f
before-NotAfter i j (s, a) (t, b) h = ground arith

before-false : (i j : ℕ) (e f : Timed) → before (i, e) (j, f) ≡ false → NotAfter j f i e
before-false i j (s, a) (t, b) h = ground arith

-- The choice of `earliest` and what it says of the map.
pub record IsEarliest (m : Map Timed) (i : ℕ) (e : Timed) : Type 0 where
  pub holds : Holds i e m
  pub first : Entries (NotAfter i e) m

earliest-none : (m : Map Timed) → earliest m ≡ none → m ≡ []
unfolding earliest
earliest-none [] h = refl
earliest-none (e ∷ m) h = absurd (ground arith)

earliest-IsEarliest :
    (m : Map Timed) (i : ℕ) (e : Timed) → earliest m ≡ some (i, e) → IsEarliest m i e
unfolding earliest
earliest-IsEarliest [] i e h = absurd (ground arith)
earliest-IsEarliest ((j, f) ∷ m) i e h = elim (Option-cases (earliest m)) [
  | inl q ↦
      let empty : m ≡ [] = earliest-none m q in
      let idx : i ≡ j = ground arith in
      let val : e ≡ f = ground arith in
      rw (empty, idx, val)
        (record { holds = inl (refl, refl); first = (inr (refl, omega arith), tt) })
  | inr ((k, g), q) ↦
      let r = earliest-IsEarliest m k g q in
      elim (Bool-cases (before (j, f) (k, g))) [
        | inl b ↦
            let idx : i ≡ j = ground arith in
            let val : e ≡ f = ground arith in
            rw (idx, val)
              (record {
                holds = inl (refl, refl);
                first = (
                  inr (refl, omega arith),
                  Entries-imp (NotAfter k g) (NotAfter j f) m
                      (λ l x p. NotAfter-trans j k l f g x (before-NotAfter j k f g b) p) r.first,
                );
              })
        | inr b ↦
            let idx : i ≡ k = ground arith in
            let val : e ≡ g = ground arith in
            rw (idx, val)
              (record { holds = inr r.holds; first = (before-false j k f g b, r.first) })
      ]
]

-- A composite plan emits nothing exactly when no child has a pending action after the poll;
-- otherwise it emits an action that is pending, none of the pending ones being earlier, nor as early
-- under a smaller child index, and it drops that child's entry alone.
pub next_action-composite :
    {D : Type 0} (draw : String → D → ℕ × D) (view : WorldView) (plans : Plans)
    (pending : Map Timed) (d : D)
    → let asked = next_action draw view (composite plans pending) d in
      let polled = ask_children draw view plans 0 pending d in
      (asked.result ≡ none ↔ polled.pending ≡ [])
      × ((e : Timed)
          → asked.result ≡ some e
          → (i : ℕ) × IsEarliest polled.pending i e
            × (asked.plan ≡ composite polled.plans (remove i polled.pending)))
unfolding next_action
next_action-composite draw view plans pending d =
    let polled = ask_children draw view plans 0 pending d in
    elim (Option-cases (earliest polled.pending)) [
      | inl q ↦
          rw (q, select)
            ((λ _. earliest-none polled.pending q, λ _. refl), λ e h. absurd (ground arith))
      | inr ((i, f), q) ↦
          let r = earliest-IsEarliest polled.pending i f q in
          rw (q, select)
            (
              (λ h. absurd (ground arith), λ h. absurd (not_empty i f r.holds h)),
              λ e h. let same : f ≡ e = ground arith in (i, rw (← same) r, refl),
            )
    ]
  where
    not_empty : {m : Map Timed} (i : ℕ) (e : Timed) → Holds i e m → m ≡ [] → ⊥
    not_empty {m} i e h q = subst (Holds i e) q h
