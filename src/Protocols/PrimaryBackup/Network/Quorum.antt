-- ===== src/Protocols/PrimaryBackup/Network/Quorum.antt =====
-- The correct primary replies only when both followers hold the value.
use detersim.Prelude.{
  ℕ, zero, suc, ◌≤◌, ◌≡◌, refl, sym, Bool, true, false, ◌⊎◌, inl, inr, Option, some, List, [], ◌∷◌,
  ◌++◌, get_elem?, remove_at, ◌==◌, arith, Bool-cases,
}
use detersim.Protocols.PrimaryBackup.{
  KvMessage, Sends, Primary, Follower, correct, replicate_7, replicate_9, replicate_uncommitted_7,
  ack, ok, serving, stopped, awaiting, logging, run_primary, run_follower, handle,
}
use detersim.Protocols.PrimaryBackup.Network.{
  Packet, State, sent_by, receive, is_request, Step, deliver, lose, request, Reachable, begin,
  after,
}
use detersim.Protocols.PrimaryBackup.Network.Balance.{
  Balanced-fewer, IsBalanced, IsQuiet, acks_from, is_foreign, is_ok, quiet-IsBalanced, tally,
  tally-remove_at, writes_to,
}
use detersim.Protocols.PrimaryBackup.Network.Receives.{
  IsSafe, first_receives, packet, primary_receives, second_receives,
}

-- A node that has stopped leaves the message unread.
running_receives :
    (f : Follower) (from : ℕ) (msg : KvMessage) (P : Option ℕ → Sends → Type 0)
    → P f.value []
    → P (handle f from msg).0.value (handle f from msg).1
    → P (run_follower f from msg).0.value (run_follower f from msg).1
unfolding run_follower
running_receives f from msg P unread read = elim (Bool-cases f.is_running) [
  | inl on ↦ simp on read
  | inr off ↦ simp off unread
]

-- A packet is lost.
fewer-IsBalanced :
    (s : State) (p : Packet) (rest : List Packet)
    → IsBalanced s.primary s.first.value s.second.value (p ∷ rest)
    → IsBalanced s.primary s.first.value s.second.value rest
fewer-IsBalanced s p rest h =
    Balanced-fewer s.primary s.first.value s.second.value _ _ _ _ _ _ _ _ _ _ _ _ (omega arith)
      (omega arith) (omega arith) (omega arith) (omega arith) (omega arith) h

request-IsQuiet :
    (from to : ℕ) (msg : KvMessage) → is_request msg ≡ true → IsQuiet (packet from to msg ∷ [])
request-IsQuiet from to replicate_7 asks = absurd (ground (arith, asks))
request-IsQuiet from to replicate_9 asks = absurd (ground (arith, asks))
request-IsQuiet from to replicate_uncommitted_7 asks = absurd (ground (arith, asks))
request-IsQuiet from to ack asks = absurd (ground (arith, asks))
request-IsQuiet from to ok asks = absurd (ground (arith, asks))
request-IsQuiet from to msg asks = (refl, refl, refl, refl, refl, refl)

receive-IsSafe :
    (from to : ℕ) (msg : KvMessage) (s : State)
    → IsBalanced s.primary s.first.value s.second.value (packet from to msg ∷ s.net)
    → IsSafe (receive correct (packet from to msg) s)
unfolding receive
receive-IsSafe from zero msg s h =
    primary_receives s.primary s.first.value s.second.value from msg s.net h
receive-IsSafe from (suc zero) msg s h =
    running_receives s.first from msg
      (λ v sends. IsBalanced s.primary v s.second.value (s.net ++ sent_by 1 sends))
      (quiet-IsBalanced s.primary s.first.value s.second.value (packet from 1 msg) s.net []
        (refl, refl, refl, refl, refl, refl) h)
      (first_receives s.primary s.first s.second.value from msg s.net h)
receive-IsSafe from (suc (suc zero)) msg s h =
    running_receives s.second from msg
      (λ v sends. IsBalanced s.primary s.first.value v (s.net ++ sent_by 2 sends))
      (quiet-IsBalanced s.primary s.first.value s.second.value (packet from 2 msg) s.net []
        (refl, refl, refl, refl, refl, refl) h)
      (second_receives s.primary s.first.value s.second from msg s.net h)
receive-IsSafe from (suc (suc (suc to))) msg s h =
    let not_0 : (suc (suc (suc to)) == 0) ≡ false = ground arith in
    let not_1 : (suc (suc (suc to)) == 1) ≡ false = ground arith in
    let not_2 : (suc (suc (suc to)) == 2) ≡ false = ground arith in
    rw (not_0, not_1, not_2) (fewer-IsBalanced s (packet from (suc (suc (suc to))) msg) s.net h)

taken :
    (s : State) (i : ℕ) (p : Packet)
    → get_elem? s.net i ≡ some p
    → IsSafe s
    → IsBalanced s.primary s.first.value s.second.value (p ∷ remove_at i s.net)
taken s i p at h =
    let same = λ (q : Packet → Bool). tally-remove_at q s.net i p at in
    rw
      (
        sym (same (writes_to 1)),
        sym (same (writes_to 2)),
        sym (same (acks_from 1)),
        sym (same (acks_from 2)),
        sym (same is_ok),
        sym (same is_foreign),
      )
      h

Step-IsSafe : (s t : State) → Step correct s t → IsSafe s → IsSafe t
Step-IsSafe s t (deliver _ i p at) h =
    receive-IsSafe p.from p.to p.msg (record s { net = remove_at i s.net }) (taken s i p at h)
Step-IsSafe s t (lose _ i p at) h = fewer-IsBalanced s p (remove_at i s.net) (taken s i p at h)
Step-IsSafe s t (request _ p other asks) h =
    let (r1, r2, a1, a2, o, b) = request-IsQuiet p.from p.to p.msg asks in
    Balanced-fewer s.primary s.first.value s.second.value _ _ _ _ _ _ _ _ _ _ _ _
      (omega (arith, r1)) (omega (arith, r2)) (omega (arith, a1)) (omega (arith, a2))
      (omega (arith, o)) (omega (arith, b)) h

Reachable-IsSafe : (s : State) → Reachable correct s → IsSafe s
unfolding run_primary
Reachable-IsSafe s begin = record {
  d1 = 0;
  d2 = 0;
  once1 = omega arith;
  once2 = omega arith;
  held1 = λ h. absurd (omega (arith, h));
  held2 = λ h. absurd (omega (arith, h));
  honest = refl;
  phase = refl;
}
Reachable-IsSafe s (after r step) = Step-IsSafe _ s step (Reachable-IsSafe _ r)

ended :
    (primary : Primary) (v1 v2 : Option ℕ) (net : List Packet)
    → IsBalanced primary v1 v2 net
    → (primary ≡ stopped) ⊎ (1 ≤ tally is_ok net)
    → (v1 ≡ some 7) × (v2 ≡ some 7)
ended serving v1 v2 net h (inl e) = absurd (ground (arith, e))
ended serving v1 v2 net h (inr one) = absurd (omega (arith, h.phase, one))
ended (awaiting needed client is_last) v1 v2 net h (inl e) = absurd (ground (arith, e))
ended (awaiting needed client is_last) v1 v2 net h (inr one) =
    absurd (omega (arith, h.phase.3, one))
ended (logging entries) v1 v2 net h replied = absurd h.phase
ended stopped v1 v2 net h replied =
    (h.held1 (omega (arith, h.phase.0)), h.held2 (omega (arith, h.phase.1)))

-- On a network that loses and reorders messages but does not duplicate them, whatever the clients
-- request, the correct primary replies to a put only after both followers hold 7: when a reply is on
-- its way or the primary has ended, both do.
pub Reachable-IsReplicated :
    (s : State)
    → Reachable correct s
    → (s.primary ≡ stopped) ⊎ (1 ≤ tally is_ok s.net)
    → (s.first.value ≡ some 7) × (s.second.value ≡ some 7)
Reachable-IsReplicated s r replied =
    ended s.primary s.first.value s.second.value s.net (Reachable-IsSafe s r) replied
