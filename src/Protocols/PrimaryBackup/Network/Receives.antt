-- ===== src/Protocols/PrimaryBackup/Network/Receives.antt =====
-- Each node keeps the balance when it receives a message.
use detersim.Prelude.{
  ℕ, zero, suc, ◌+◌, ◌≤◌, ◌≡◌, refl, Bool, true, false, inl, inr, Option, some, List, [], ◌∷◌, ◌++◌,
  ◌==◌, arith, Bool-cases,
}
use detersim.Protocols.PrimaryBackup.{
  KvMessage, Primary, Follower, correct, put_7, replicate_7, replicate_9, replicate_uncommitted_7,
  ack, ok, serving, stopped, awaiting, logging, primary_receive, serve, put, put_other,
  wait_for_acks, handle,
}
use detersim.Protocols.PrimaryBackup.Network.{Packet, State, sent_by}
use detersim.Protocols.PrimaryBackup.Network.Balance.{
  IsBalanced, IsBalanced-append, Phase-fewer, acks_from, quiet-IsBalanced, tally, writes_to,
}

abbrev pub packet : ℕ → ℕ → KvMessage → Packet
packet from to msg = record { from = from; to = to; msg = msg }

-- What the first follower sends and holds after a message.
pub first_receives :
    (primary : Primary) (f : Follower) (v2 : Option ℕ) (from : ℕ) (msg : KvMessage)
    (rest : List Packet)
    → IsBalanced primary f.value v2 (packet from 1 msg ∷ rest)
    → IsBalanced primary (handle f from msg).0.value v2 (rest ++ sent_by 1 (handle f from msg).1)
unfolding handle
first_receives primary f v2 from replicate_7 rest s =
    IsBalanced-append primary (some 7) v2 rest (packet 1 from ack ∷ []) (record {
      d1 = s.d1;
      d2 = s.d2;
      once1 = omega (arith, s.once1);
      once2 = omega (arith, s.once2);
      held1 = λ h. refl;
      held2 = λ h. s.held2 (omega (arith, h));
      honest = omega (arith, s.honest);
      phase = Phase-fewer primary _ _ s.d1 s.d2 _ _ (omega arith) (omega arith) s.phase;
    })
first_receives primary f v2 from replicate_9 rest s = absurd (omega (arith, s.honest))
first_receives primary f v2 from replicate_uncommitted_7 rest s = absurd (omega (arith, s.honest))
first_receives primary f v2 from msg rest s =
    quiet-IsBalanced primary f.value v2 (packet from 1 msg) rest _
      (refl, refl, refl, refl, refl, refl) s

pub second_receives :
    (primary : Primary) (v1 : Option ℕ) (f : Follower) (from : ℕ) (msg : KvMessage)
    (rest : List Packet)
    → IsBalanced primary v1 f.value (packet from 2 msg ∷ rest)
    → IsBalanced primary v1 (handle f from msg).0.value (rest ++ sent_by 2 (handle f from msg).1)
unfolding handle
second_receives primary v1 f from replicate_7 rest s =
    IsBalanced-append primary v1 (some 7) rest (packet 2 from ack ∷ []) (record {
      d1 = s.d1;
      d2 = s.d2;
      once1 = omega (arith, s.once1);
      once2 = omega (arith, s.once2);
      held1 = λ h. s.held1 (omega (arith, h));
      held2 = λ h. refl;
      honest = omega (arith, s.honest);
      phase = Phase-fewer primary _ _ s.d1 s.d2 _ _ (omega arith) (omega arith) s.phase;
    })
second_receives primary v1 f from replicate_9 rest s = absurd (omega (arith, s.honest))
second_receives primary v1 f from replicate_uncommitted_7 rest s = absurd (omega (arith, s.honest))
second_receives primary v1 f from msg rest s =
    quiet-IsBalanced primary v1 f.value (packet from 2 msg) rest _
      (refl, refl, refl, refl, refl, refl) s

-- A put starts the replication.
pub put_served :
    (v1 v2 : Option ℕ) (from : ℕ) (rest : List Packet)
    → IsBalanced serving v1 v2 (packet from 0 put_7 ∷ rest)
    → IsBalanced
        (awaiting 2 from true)
        v1
        v2
        (rest ++ sent_by 0 ((1, replicate_7) ∷ (2, replicate_7) ∷ []))
put_served v1 v2 from rest s =
    IsBalanced-append (awaiting 2 from true) v1 v2 rest
      (packet 0 1 replicate_7 ∷ packet 0 2 replicate_7 ∷ [])
      (record {
        d1 = 0;
        d2 = 0;
        once1 = omega (arith, s.phase);
        once2 = omega (arith, s.phase);
        held1 = λ h. s.held1 (omega (arith, h, s.phase));
        held2 = λ h. s.held2 (omega (arith, h, s.phase));
        honest = omega (arith, s.honest);
        phase = (refl, omega arith, refl, omega (arith, s.phase));
      })

-- An ack on its way is one follower's, and is counted for it.
pub ack_counted :
    (needed client : ℕ) (is_last : Bool) (v1 v2 : Option ℕ) (from : ℕ) (rest : List Packet)
    → IsBalanced (awaiting (suc needed) client is_last) v1 v2 (packet from 0 ack ∷ rest)
    → (d1 : ℕ) × (d2 : ℕ) × (d1 + d2 + needed ≡ 2)
      × (tally (writes_to 1) rest + tally (acks_from 1) rest + d1 ≤ 1)
      × (tally (writes_to 2) rest + tally (acks_from 2) rest + d2 ≤ 1)
      × (1 ≤ tally (acks_from 1) rest + d1 → v1 ≡ some 7)
      × (1 ≤ tally (acks_from 2) rest + d2 → v2 ≡ some 7)
ack_counted needed client is_last v1 v2 from rest s =
    let (total, more, last, none_sent) = s.phase in
    elim (Bool-cases (from == 1)) [
      | inl one ↦
          let not_two : (from == 2) ≡ false = ground (arith, one) in
          (
            suc s.d1,
            s.d2,
            omega (arith, total),
            omega (arith, rw one at s.once1),
            omega (arith, rw not_two at s.once2),
            λ h. s.held1 (rw one (omega arith)),
            λ h. s.held2 (rw not_two (omega (arith, h))),
          )
      | inr not_one ↦
          let two : (from == 2) ≡ true = ground (arith, not_one, s.honest) in
          (
            s.d1,
            suc s.d2,
            omega (arith, total),
            omega (arith, rw not_one at s.once1),
            omega (arith, rw two at s.once2),
            λ h. s.held1 (rw not_one (omega (arith, h))),
            λ h. s.held2 (rw two (omega arith)),
          )
    ]

pub primary_receives :
    (primary : Primary) (v1 v2 : Option ℕ) (from : ℕ) (msg : KvMessage) (rest : List Packet)
    → IsBalanced primary v1 v2 (packet from 0 msg ∷ rest)
    → let (next, sends) = primary_receive correct primary from msg in
      IsBalanced next v1 v2 (rest ++ sent_by 0 sends)
unfolding primary_receive serve put put_other wait_for_acks
primary_receives serving v1 v2 from put_7 rest s = put_served v1 v2 from rest s
primary_receives serving v1 v2 from msg rest s =
    quiet-IsBalanced serving v1 v2 (packet from 0 msg) rest [] (refl, refl, refl, refl, refl, refl)
      s
primary_receives stopped v1 v2 from msg rest s =
    quiet-IsBalanced stopped v1 v2 (packet from 0 msg) rest [] (refl, refl, refl, refl, refl, refl)
      s
primary_receives (awaiting zero client is_last) v1 v2 from msg rest s =
    absurd (omega (arith, s.phase.1))
primary_receives (awaiting (suc zero) client is_last) v1 v2 from ack rest s =
    let (d1, d2, total, once1, once2, held1, held2) =
      ack_counted zero client is_last v1 v2 from rest s in
    rw s.phase.2 (
      IsBalanced-append stopped v1 v2 rest (packet 0 client ok ∷ []) (record {
        d1 = d1;
        d2 = d2;
        once1 = omega (arith, once1);
        once2 = omega (arith, once2);
        held1 = λ h. held1 (omega (arith, h));
        held2 = λ h. held2 (omega (arith, h));
        honest = omega (arith, s.honest);
        phase = (omega (arith, total, once1, once2), omega (arith, total, once1, once2));
      }))
primary_receives (awaiting (suc (suc needed)) client is_last) v1 v2 from ack rest s =
    let (d1, d2, total, once1, once2, held1, held2) =
      ack_counted (suc needed) client is_last v1 v2 from rest s in
    IsBalanced-append (awaiting (suc needed) client is_last) v1 v2 rest [] (record {
      d1 = d1;
      d2 = d2;
      once1 = omega (arith, once1);
      once2 = omega (arith, once2);
      held1 = λ h. held1 (omega (arith, h));
      held2 = λ h. held2 (omega (arith, h));
      honest = omega (arith, s.honest);
      phase = (total, omega arith, s.phase.2, omega (arith, s.phase.3));
    })
primary_receives (awaiting (suc needed) client is_last) v1 v2 from msg rest s =
    quiet-IsBalanced (awaiting (suc needed) client is_last) v1 v2 (packet from 0 msg) rest []
      (refl, refl, refl, refl, refl, refl) s
primary_receives (logging entries) v1 v2 from msg rest s = absurd s.phase

abbrev pub IsSafe : State → Type 0
IsSafe s = IsBalanced s.primary s.first.value s.second.value s.net
