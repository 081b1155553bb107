-- ===== src/Examples/Replication.antt =====
-- A put that both followers acknowledge.
use detersim.Prelude.{ℕ, ◌≡◌, refl, some, [], ◌∷◌, remove_at, inl, arith}
use detersim.Protocols.PrimaryBackup.{
  KvMessage, correct, put_7, replicate_7, ack, run_primary, primary_receive, serve, put,
  wait_for_acks, run_follower, handle,
}
use detersim.Protocols.PrimaryBackup.Network.{
  Packet, State, start, receive, deliver, request, Reachable, begin, after,
}
use detersim.Protocols.PrimaryBackup.Network.Quorum.{Reachable-IsReplicated}

abbrev packet : ℕ → ℕ → KvMessage → Packet
packet from to msg = record { from = from; to = to; msg = msg }

abbrev asked : State
asked = record (start correct) { net = packet 3 0 put_7 ∷ [] }

-- The first packet of the network arrives.
abbrev next : Packet → State → State
next p s = receive correct p (record s { net = remove_at 0 s.net })

abbrev replied : State
replied = next (packet 2 0 ack) (
    next (packet 1 0 ack) (
      next (packet 0 2 replicate_7)
        (next (packet 0 1 replicate_7) (next (packet 3 0 put_7) asked))))

replied-Reachable : Reachable correct replied
unfolding receive primary_receive serve put wait_for_acks run_follower handle run_primary
replied-Reachable =
    after
      (after
        (after
          (after
            (after (after begin (request (start correct) (packet 3 0 put_7) (omega arith) refl))
              (deliver asked 0 (packet 3 0 put_7) refl))
            (deliver _ 0 (packet 0 1 replicate_7) refl))
          (deliver _ 0 (packet 0 2 replicate_7) refl))
        (deliver _ 0 (packet 1 0 ack) refl))
      (deliver _ 0 (packet 2 0 ack) refl)

Reachable-IsReplicated_example : (replied.first.value ≡ some 7) × (replied.second.value ≡ some 7)
unfolding receive primary_receive serve put wait_for_acks run_follower handle run_primary
Reachable-IsReplicated_example = Reachable-IsReplicated replied replied-Reachable (inl refl)
