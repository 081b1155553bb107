-- ===== src/Protocols/PrimaryBackup/Network/Balance.antt =====
-- What is on its way between the primary and its followers, counted.
use detersim.Prelude.{
  ℕ, zero, suc, ◌+◌, ◌≤◌, ◌≡◌, ap, Bool, true, false, not, ◌&&◌, ◌||◌, Option, none, some, List, [],
  ◌∷◌, ◌++◌, get_elem?, remove_at, if◌then◌else◌, ◌==◌, arith,
}
use detersim.Protocols.PrimaryBackup.{
  KvMessage, Primary, replicate_7, replicate_9, replicate_uncommitted_7, ack, ok, serving, stopped,
  awaiting, logging,
}
use detersim.Protocols.PrimaryBackup.Network.{Packet}

abbrev pub tally : (Packet → Bool) → List Packet → ℕ
tally p [] = 0
tally p (k ∷ ks) = (if p k then 1 else 0) + tally p ks

pub tally-append :
    (p : Packet → Bool) (ks ls : List Packet) → tally p (ks ++ ls) ≡ tally p ks + tally p ls
tally-append p [] ls = omega arith
tally-append p (k ∷ ks) ls = omega (arith, tally-append p ks ls)

pub tally-remove_at :
    (p : Packet → Bool) (net : List Packet) (i : ℕ) (k : Packet)
    → get_elem? net i ≡ some k
    → tally p net ≡ tally p (k ∷ remove_at i net)
tally-remove_at p [] i k h = absurd (ground (arith, h))
tally-remove_at p (x ∷ net) zero k h = ap (λ o. elim o [ none ↦ 0 | some y ↦ tally p (y ∷ net) ]) h
tally-remove_at p (x ∷ net) (suc i) k h = omega (arith, tally-remove_at p net i k h)

abbrev pub is_replicate : KvMessage → Bool
is_replicate replicate_7 = true
is_replicate _ = false

abbrev pub is_ack : KvMessage → Bool
is_ack ack = true
is_ack _ = false

abbrev pub is_other_write : KvMessage → Bool
is_other_write replicate_9 = true
is_other_write replicate_uncommitted_7 = true
is_other_write _ = false

abbrev pub is_reply : KvMessage → Bool
is_reply ok = true
is_reply _ = false

abbrev pub writes_to : ℕ → Packet → Bool
writes_to node k = is_replicate k.msg && (k.to == node)

abbrev pub acks_from : ℕ → Packet → Bool
acks_from node k = is_ack k.msg && (k.from == node)

abbrev pub is_ok : Packet → Bool
is_ok k = is_reply k.msg

-- What the correct protocol never sends.
abbrev pub is_foreign : Packet → Bool
is_foreign k = is_other_write k.msg || is_ack k.msg && not (k.from == 1) && not (k.from == 2)

-- The phase of the primary, by the writes and acks on their way and the acks it has counted.
abbrev pub Phase : Primary → ℕ → ℕ → ℕ → ℕ → Type 0
Phase serving way d1 d2 o = way + d1 + d2 + o ≡ 0
Phase (awaiting needed client is_last) way d1 d2 o =
    (d1 + d2 + needed ≡ 2) × (1 ≤ needed) × (is_last ≡ true) × (o ≡ 0)
Phase stopped way d1 d2 o = (d1 ≡ 1) × (d2 ≡ 1)
Phase (logging entries) way d1 d2 o = ⊥

-- Each follower has one write or one ack on its way, or has its ack counted, and holds 7 from its ack on.
pub record Balanced (primary : Primary) (v1 v2 : Option ℕ) (r1 r2 a1 a2 o b : ℕ) : Type 0 where
  pub d1 : ℕ
  pub d2 : ℕ
  pub once1 : r1 + a1 + d1 ≤ 1
  pub once2 : r2 + a2 + d2 ≤ 1
  pub held1 : 1 ≤ a1 + d1 → v1 ≡ some 7
  pub held2 : 1 ≤ a2 + d2 → v2 ≡ some 7
  pub honest : b ≡ 0
  pub phase : Phase primary (r1 + r2 + a1 + a2) d1 d2 o

abbrev pub IsBalanced : Primary → Option ℕ → Option ℕ → List Packet → Type 0
IsBalanced primary v1 v2 net =
    Balanced primary v1 v2 (tally (writes_to 1) net) (tally (writes_to 2) net)
      (tally (acks_from 1) net) (tally (acks_from 2) net) (tally is_ok net) (tally is_foreign net)

pub Phase-fewer :
    (primary : Primary) (way way' d1 d2 o o' : ℕ)
    → way' ≤ way
    → o' ≤ o
    → Phase primary way d1 d2 o
    → Phase primary way' d1 d2 o'
Phase-fewer serving way way' d1 d2 o o' h k p = omega (arith, h, k, p)
Phase-fewer stopped way way' d1 d2 o o' h k p = p
Phase-fewer (awaiting needed client is_last) way way' d1 d2 o o' h k
      (total, more, last, none_sent) =
    (total, more, last, omega (arith, k, none_sent))
Phase-fewer (logging entries) way way' d1 d2 o o' h k p = p

pub Balanced-fewer :
    (primary : Primary) (v1 v2 : Option ℕ) (r1 r2 a1 a2 o b r1' r2' a1' a2' o' b' : ℕ)
    → r1' ≤ r1
    → r2' ≤ r2
    → a1' ≤ a1
    → a2' ≤ a2
    → o' ≤ o
    → b' ≤ b
    → Balanced primary v1 v2 r1 r2 a1 a2 o b
    → Balanced primary v1 v2 r1' r2' a1' a2' o' b'
Balanced-fewer primary v1 v2 r1 r2 a1 a2 o b r1' r2' a1' a2' o' b' hr1 hr2 ha1 ha2 ho hb s =
    record {
      d1 = s.d1;
      d2 = s.d2;
      once1 = omega (arith, s.once1, hr1, ha1);
      once2 = omega (arith, s.once2, hr2, ha2);
      held1 = λ h. s.held1 (omega (arith, h, ha1));
      held2 = λ h. s.held2 (omega (arith, h, ha2));
      honest = omega (arith, s.honest, hb);
      phase =
          Phase-fewer primary (r1 + r2 + a1 + a2) (r1' + r2' + a1' + a2') s.d1 s.d2 o o'
            (omega (arith, hr1, hr2, ha1, ha2)) ho s.phase;
    }

pub IsBalanced-append :
    (primary : Primary) (v1 v2 : Option ℕ) (rest ls : List Packet)
    → Balanced primary v1 v2
        (tally (writes_to 1) rest + tally (writes_to 1) ls)
        (tally (writes_to 2) rest + tally (writes_to 2) ls)
        (tally (acks_from 1) rest + tally (acks_from 1) ls)
        (tally (acks_from 2) rest + tally (acks_from 2) ls)
        (tally is_ok rest + tally is_ok ls)
        (tally is_foreign rest + tally is_foreign ls)
    → IsBalanced primary v1 v2 (rest ++ ls)
IsBalanced-append primary v1 v2 rest ls s =
    rw
      (
        tally-append (writes_to 1) rest ls,
        tally-append (writes_to 2) rest ls,
        tally-append (acks_from 1) rest ls,
        tally-append (acks_from 2) rest ls,
        tally-append is_ok rest ls,
        tally-append is_foreign rest ls,
      )
      s

-- None of the packets is counted.
abbrev pub IsQuiet : List Packet → Type 0
IsQuiet ls =
    (tally (writes_to 1) ls ≡ 0)
    × (tally (writes_to 2) ls ≡ 0)
    × (tally (acks_from 1) ls ≡ 0)
    × (tally (acks_from 2) ls ≡ 0)
    × (tally is_ok ls ≡ 0)
    × (tally is_foreign ls ≡ 0)

-- A packet is taken off the network, and what is sent for it does not count.
pub quiet-IsBalanced :
    (primary : Primary) (v1 v2 : Option ℕ) (k : Packet) (rest ls : List Packet)
    → IsQuiet ls
    → IsBalanced primary v1 v2 (k ∷ rest)
    → IsBalanced primary v1 v2 (rest ++ ls)
quiet-IsBalanced primary v1 v2 k rest ls (qr1, qr2, qa1, qa2, qo, qb) s =
    IsBalanced-append primary v1 v2 rest ls (
      Balanced-fewer primary v1 v2 _ _ _ _ _ _ _ _ _ _ _ _ (omega (arith, qr1)) (omega (arith, qr2))
        (omega (arith, qa1)) (omega (arith, qa2)) (omega (arith, qo)) (omega (arith, qb)) s)
