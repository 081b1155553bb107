-- ===== src/World/Dispatch/Schedule.antt =====
-- The order of dispatch: the events still queued come after those that the trace lists, which are
-- listed in the order of their time and sequence number.
pub mod Deliveries
pub mod Turns
pub mod Runs
use detersim.Prelude.{
  ℕ, zero, suc, ◌+◌, ◌≤◌, ◌<◌, ◌≡◌, refl, subst, sym, ap, Bool, true, false, ◌||◌, ◌&&◌, ◌⊎◌, inl,
  inr, List, [], ◌∷◌, ◌++◌, filter, All, All-imp, All-append, ltb, ◌==◌, arith, Bool-cases,
}
use detersim.World.{Keyed, EventKind, Inner, TraceLine, send_from_crashed, rendered}
use detersim.World.Events.{push_sorted, before}

-- A time and a sequence number.
abbrev pub Key : Type 0
Key = ℕ × ℕ

abbrev pub Lt : Key → Key → Type 0
Lt k l = (k.0 < l.0) ⊎ ((k.0 ≡ l.0) × (k.1 < l.1))

abbrev pub key : Keyed → Key
key e = (e.time, e.seq)

-- Every key is less than all that follow it.
abbrev pub Rising : List Key → Type 0
Rising [] = Unit
Rising (k ∷ ks) = All (Lt k) ks × Rising ks

abbrev pub InOrder : List Keyed → Type 0
InOrder [] = Unit
InOrder (e ∷ q) = All (λ f. Lt (key e) (key f)) q × InOrder q

-- The keys of the events that a trace lists.
abbrev pub keys : List TraceLine → List Key
keys [] = []
keys (send_from_crashed from to ∷ ls) = keys ls
keys (TraceLine.dropped why time seq from to ∷ ls) = (time, seq) ∷ keys ls
keys (rendered e ∷ ls) = key e ∷ keys ls

pub keys-append : (xs ys : List TraceLine) → keys (xs ++ ys) ≡ keys xs ++ keys ys
keys-append [] ys = refl
keys-append (send_from_crashed from to ∷ xs) ys = keys-append xs ys
keys-append (TraceLine.dropped why time seq from to ∷ xs) ys =
    ap (◌∷◌ (time, seq)) (keys-append xs ys)
keys-append (rendered e ∷ xs) ys = ap (◌∷◌ (key e)) (keys-append xs ys)

-- `ks` are the keys listed so far and `q` is the queue.
pub record Scheduled (ks : List Key) (q : List Keyed) (seq now : ℕ) : Type 0 where
  pub past : Rising ks
  pub coming : InOrder q
  pub apart : All (λ e. All (λ k. Lt k (key e)) ks) q
  pub waits : All (λ e. (e.seq < seq) × (now ≤ e.time)) q
  pub done : All (λ k. (k.1 < seq) × (k.0 ≤ now)) ks

abbrev pub IsScheduled : {Fut : Type 0} → Inner Fut → Type 0
IsScheduled g = Scheduled (keys g.trace) g.queue g.seq g.now

push_sorted-All {ℓ} :
    (P : Keyed → Type ℓ) (e : Keyed) (q : List Keyed) → P e → All P q → All P (push_sorted e q)
unfolding push_sorted
push_sorted-All P e [] p h = (p, tt)
push_sorted-All P e (f ∷ q) p h = elim (Bool-cases (before e f)) [
  | inl first ↦ rw first (p, h)
  | inr later ↦ rw later (h.0, push_sorted-All P e q p h.1)
]

Lt-trans : (k l m : Key) → Lt k l → Lt l m → Lt k m
Lt-trans k l m p q = omega arith

push_sorted-InOrder :
    (e : Keyed) (q : List Keyed)
    → All (λ f. f.seq < e.seq) q
    → InOrder q
    → InOrder (push_sorted e q)
unfolding push_sorted
push_sorted-InOrder e [] s h = (tt, tt)
push_sorted-InOrder e (f ∷ q) s h = elim (Bool-cases (before e f)) [
  | inl first ↦
      let lt : Lt (key e) (key f) = ground arith in
      rw first ((lt, All-imp _ _ q (λ g k. Lt-trans (key e) (key f) (key g) lt k) h.0), h)
  | inr later ↦
      let s0 = s.0 in
      let gt : Lt (key f) (key e) = ground arith in
      rw later
        (push_sorted-All (λ g. Lt (key f) (key g)) e q gt h.0, push_sorted-InOrder e q s.1 h.1)
]

-- A push of an event that is not overdue.
pub push-Scheduled :
    (ks : List Key) (q : List Keyed) (seq now time : ℕ) (kind : EventKind)
    → now ≤ time
    → Scheduled ks q seq now
    → Scheduled ks (push_sorted (record { time = time; seq = seq; kind = kind }) q) (suc seq) now
push-Scheduled ks q seq now time kind h s =
    let e : Keyed = record { time = time; seq = seq; kind = kind } in
    record {
      past = s.past;
      coming = push_sorted-InOrder e q (All-imp _ _ q (λ f w. w.0) s.waits) s.coming;
      apart =
          push_sorted-All _ e q
            (All-imp _ (λ k. Lt k (key e)) ks (λ k d. omega (arith, d, h)) s.done) s.apart;
      waits =
          push_sorted-All _ e q (omega arith, h)
            (All-imp _ _ q (λ f w. (omega (arith, w), w.1)) s.waits);
      done = All-imp _ _ ks (λ k d. (omega (arith, d), d.1)) s.done;
    }

filter-All' {ℓ} :
    (P : Keyed → Type ℓ) (p : Keyed → Bool) (q : List Keyed) → All P q → All P (filter p q)
filter-All' P p [] h = tt
filter-All' P p (e ∷ q) h = elim (Bool-cases (p e)) [
  | inl k ↦ rw k (h.0, filter-All' P p q h.1)
  | inr k ↦ rw k (filter-All' P p q h.1)
]

filter-InOrder : (p : Keyed → Bool) (q : List Keyed) → InOrder q → InOrder (filter p q)
filter-InOrder p [] h = tt
filter-InOrder p (e ∷ q) h = elim (Bool-cases (p e)) [
  | inl k ↦ rw k (filter-All' _ p q h.0, filter-InOrder p q h.1)
  | inr k ↦ rw k (filter-InOrder p q h.1)
]

pub filter-Scheduled :
    (p : Keyed → Bool) (ks : List Key) (q : List Keyed) (seq now : ℕ)
    → Scheduled ks q seq now
    → Scheduled ks (filter p q) seq now
filter-Scheduled p ks q seq now s = record {
  past = s.past;
  coming = filter-InOrder p q s.coming;
  apart = filter-All' _ p q s.apart;
  waits = filter-All' _ p q s.waits;
  done = s.done;
}

-- The first event comes after what is listed and before what is left.
pub record Next (ks : List Key) (e : Keyed) (q : List Keyed) (seq : ℕ) : Type 0 where
  pub rest : Scheduled ks q seq e.time
  pub first : All (λ f. Lt (key e) (key f)) q
  pub after : All (λ k. Lt k (key e)) ks
  pub numbered : e.seq < seq

pub pop-Next :
    (ks : List Key) (e : Keyed) (q : List Keyed) (seq now : ℕ)
    → Scheduled ks (e ∷ q) seq now
    → Next ks e q seq × (now ≤ e.time)
pop-Next ks e q seq now s =
    let rest : Scheduled ks q seq e.time = record {
      past = s.past;
      coming = s.coming.1;
      apart = s.apart.1;
      waits = All-imp _ _ q (λ f w. (w.1.0, omega (arith, w))) (all_both q s.waits.1 s.coming.0);
      done = All-imp _ _ ks (λ k d. (d.0, omega (arith, d, s.waits.0))) s.done;
    } in
    let next : Next ks e q seq = record {
      rest = rest;
      first = s.coming.0;
      after = s.apart.0;
      numbered = s.waits.0.0;
    } in
    (next, s.waits.0.1)
  where
    all_both :
        (q : List Keyed)
        → All (λ f. (f.seq < seq) × (now ≤ f.time)) q
        → All (λ f. Lt (key e) (key f)) q
        → All (λ f. Lt (key e) (key f) × ((f.seq < seq) × (now ≤ f.time))) q
    all_both [] h k = tt
    all_both (f ∷ q) h k = ((k.0, h.0), all_both q h.1 k.1)

Rising-snoc : (ks : List Key) (l : Key) → Rising ks → All (λ k. Lt k l) ks → Rising (ks ++ l ∷ [])
Rising-snoc [] l h a = (tt, tt)
Rising-snoc (k ∷ ks) l h a = (All-append (Lt k) ks (l ∷ []) h.0 (a.0, tt), Rising-snoc ks l h.1 a.1)

-- Listing the popped event.
pub list-Scheduled :
    (ks : List Key) (e : Keyed) (q : List Keyed) (seq : ℕ)
    → Next ks e q seq
    → Scheduled (ks ++ key e ∷ []) q seq e.time
list-Scheduled ks e q seq n = record {
  past = Rising-snoc ks (key e) n.rest.past n.after;
  coming = n.rest.coming;
  apart = both q n.rest.apart n.first;
  waits = n.rest.waits;
  done = All-append _ ks (key e ∷ []) n.rest.done ((n.numbered, omega arith), tt);
}
  where
    both :
        (q : List Keyed)
        → All (λ f. All (λ k. Lt k (key f)) ks) q
        → All (λ f. Lt (key e) (key f)) q
        → All (λ f. All (λ k. Lt k (key f)) (ks ++ key e ∷ [])) q
    both [] h k = tt
    both (f ∷ q) h k = (All-append _ ks (key e ∷ []) h.0 (k.0, tt), both q h.1 k.1)
