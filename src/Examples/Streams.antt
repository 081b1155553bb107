-- ===== src/Examples/Streams.antt =====
-- The frame stream of crates/detersim-net under faults.
use detersim.Prelude.{◌≤◌, ◌≡◌, refl, inl, List, [], ◌∷◌, map, length, range, take}
use detersim.Stream.{
  StreamEndpoint, drop, delay, duplicate, Call, sends, flushes, new, run, send, payloads,
}
use detersim.Stream.Order.{run-new, new-IsOrdered}
use detersim.Stream.Stall.{run_after_lost}

abbrev left : StreamEndpoint
left = record { node = 1; connection = 0 }

abbrev right : StreamEndpoint
right = record { node = 2; connection = 0 }

-- The first frame is held back until a flush, the second is sent twice.
abbrev calls : List Call
calls =
    sends (5 ∷ []) (delay 0 3 ∷ []) ∷ sends (6 ∷ []) (duplicate 1 ∷ delay 1 2 ∷ []) ∷ flushes ∷ []

run-new_example :
    let s = run calls (new left right) in
    (map (λ f. f.seq) s.transcript.delivered ≡ range 0 s.next_deliver)
    × (map (λ f. f.bytes) s.transcript.delivered ≡ take s.next_deliver (payloads calls))
    × (s.next_deliver ≤ length (payloads calls))
run-new_example = run-new left right calls

run_after_lost_example :
    (run calls (send (4 ∷ []) (drop 0 ∷ []) (new left right))).next_deliver
    ≤ (new left right).next_send
unfolding new
run_after_lost_example =
    run_after_lost [] (4 ∷ []) (drop 0 ∷ []) (new left right) calls (new-IsOrdered left right)
      (inl refl)
