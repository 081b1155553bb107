-- ===== src/Check/Space/Orders.antt =====
-- A legal order of all operations is the same as a path of the search from its start to its goal.
use detersim.Prelude.{
  ℕ, ◌<◌, ◌≡◌, refl, subst, sym, ◌∙◌, Bool, true, false, ◌↔◌, Option, List, [], ◌∷◌, length,
  replicate, get_or, set, member, All, All-imp, ◌==◌, arith, Bool-cases, inl, inr, length-replicate,
}
use detersim.Check.Space.{
  get_or-set, length-set, get_or-replicate, Pairwise, Accepted, IsLegalOrder, Extends,
}

All-member {ℓ} : (R : ℕ → Type ℓ) (xs : List ℕ) (p : ℕ) → All R xs → member p xs ≡ true → R p
All-member R [] p h m = absurd (ground arith)
All-member R (x ∷ xs) p h m = elim (Bool-cases (x == p)) [
  | inl hit ↦ let e : x ≡ p = ground arith in subst R e h.0
  | inr miss ↦ All-member R xs p h.1 (ground (arith, m, miss))
]

All-both {ℓ κ} :
    (P : ℕ → Type ℓ) (Q : ℕ → Type κ) (xs : List ℕ) → All P xs → All Q xs → All (λ a. P a × Q a) xs
All-both P Q [] h k = tt
All-both P Q (x ∷ xs) h k = ((h.0, k.0), All-both P Q xs h.1 k.1)

module _ {State : Type 0} (size : ℕ) (before : ℕ → ℕ → Bool)
    (apply : ℕ → State → Option State) where
  abbrev Unused : List Bool → ℕ → Type 0
  Unused used i = (i < size) × (get_or used i false ≡ false)

  -- A legal order of the operations that are not used yet.
  record Remaining (used : List Bool) (s : State) (is : List ℕ) : Type 0 where
    inside : All (Unused used) is
    once : Pairwise (λ i j. ¬ (i ≡ j)) is
    every : (i : ℕ) → i < size → get_or used i false ≡ false → member i is ≡ true
    real_time : Pairwise (λ i j. before j i ≡ false) is
    accepted : Accepted size before apply s is

  Unused-set :
      (used : List Bool) (i j : ℕ)
      → length used ≡ size
      → i < size
      → Unused (set used i true) j
      → Unused used j × ¬ (i ≡ j)
  Unused-set used i j e h u =
      let g = get_or-set used i j (omega (arith, e, h)) in
      ((u.0, ground (arith, g, u.1)), λ same. absurd (ground (arith, g, u.1, same)))

  set-Unused :
      (used : List Bool) (i j : ℕ)
      → length used ≡ size
      → i < size
      → Unused used j
      → ¬ (i ≡ j)
      → Unused (set used i true) j
  set-Unused used i j e h u ne =
      let g = get_or-set used i j (omega (arith, e, h)) in (u.0, ground (arith, g, u.1, ne))

  Extends-Remaining :
      (is : List ℕ) (used : List Bool) (s : State)
      → length used ≡ size
      → Extends size before apply used s is
      → Remaining used s is
  Extends-Remaining [] used s e x = record {
    inside = tt;
    once = tt;
    every = λ i h u. absurd (let q = x i h in ground arith);
    real_time = tt;
    accepted = tt;
  }
  Extends-Remaining (i ∷ is) used s e ((h, u, ready), (t, a, x)) =
      let r = Extends-Remaining is (set used i true) t (length-set used i true ∙ e) x in
      let step = λ (j : ℕ) (v : Unused (set used i true) j). Unused-set used i j e h v in
      record {
        inside = ((h, u), All-imp _ _ is (λ j v. (step j v).0) r.inside);
        once = (All-imp _ _ is (λ j v. (step j v).1) r.inside, r.once);
        every = λ j hj v. elim (Bool-cases (i == j)) [
          | inl same ↦ rw same refl
          | inr other ↦
              let next = set-Unused used i j e h (hj, v) (λ q. absurd (ground (arith, other, q))) in
              let m = r.every j hj next.1 in rw other m
        ];
        real_time = (
          All-imp _ _ is
              (λ j v. elim (Bool-cases (before j i)) [
                | inl b ↦
                    absurd (let q = ready j v.0 b in let w = (step j v).0.1 in ground (arith, q, w))
                | inr b ↦ b
              ])
              r.inside,
          r.real_time,
        );
        accepted = (t, a, r.accepted);
      }

  -- After the first operation of a legal order the rest is one.
  Remaining-tail :
      (i : ℕ) (is : List ℕ) (used : List Bool) (s t : State)
      → length used ≡ size
      → Remaining used s (i ∷ is)
      → Accepted size before apply t is
      → Remaining (set used i true) t is
  Remaining-tail i is used s t e r acc =
      let (h, u) = r.inside.0 in
      record {
        inside =
            All-imp _ (Unused (set used i true)) is (λ j v. set-Unused used i j e h v.0 v.1)
              (All-both _ _ is r.inside.1 r.once.0);
        once = r.once.1;
        every = λ j hj v.
            let back = Unused-set used i j e h (hj, v) in
            let m = r.every j hj back.0.1 in ground (arith, m, back.1);
        real_time = r.real_time.1;
        accepted = acc;
      }

  Remaining-Extends :
      ((i : ℕ) → before i i ≡ false)
      → (is : List ℕ) (used : List Bool) (s : State) → length used ≡ size
      → Remaining used s is
      → Extends size before apply used s is
  Remaining-Extends irrefl [] used s e r = λ j h. elim (Bool-cases (get_or used j false)) [
    | inl q ↦ q
    | inr q ↦ absurd (let m = r.every j h q in ground arith)
  ]
  Remaining-Extends irrefl (i ∷ is) used s e r =
      let (h, u) = r.inside.0 in
      let (t, a, acc) = r.accepted in
      (
        (
          h,
          u,
          λ p hp b. elim (Bool-cases (get_or used p false)) [
            | inl q ↦ q
            | inr q ↦
                let m = r.every p hp q in
                elim (Bool-cases (i == p)) [
                  | inl same ↦
                      let eq : i ≡ p = ground arith in
                      absurd (
                        let no = irrefl i in
                        let b' = subst (λ (k : ℕ). before k i ≡ true) (sym eq) b in
                        ground (arith, no, b'))
                  | inr other ↦
                      let later =
                        All-member (λ j. before j i ≡ false) is p r.real_time.0
                          (ground (arith, m, other)) in
                      absurd (ground (arith, later, b))
                ]
          ],
        ),
        (
          t,
          a,
          Remaining-Extends irrefl is (set used i true) t (length-set used i true ∙ e)
              (Remaining-tail i is used s t e r acc),
        ),
      )

  -- From the start of the search.
  pub IsLegalOrder-iff :
      ((i : ℕ) → before i i ≡ false)
      → (s : State) (is : List ℕ)
      → IsLegalOrder size before apply s is ↔ Extends size before apply (replicate size false) s is
  IsLegalOrder-iff irrefl s is =
      let start = replicate size false in
      let len = length-replicate size false in
      (
        λ o. Remaining-Extends irrefl is start s len (record {
          inside = All-imp _ _ is (λ j h. (h, get_or-replicate size j)) o.inside;
          once = o.once;
          every = λ i h u. o.every i h;
          real_time = o.real_time;
          accepted = o.accepted;
        }),
        λ x.
            let r = Extends-Remaining is start s len x in
            record {
              inside = All-imp _ _ is (λ j h. h.0) r.inside;
              once = r.once;
              every = λ i h. r.every i h (get_or-replicate size i);
              real_time = r.real_time;
              accepted = r.accepted;
            },
      )
