-- ===== src/Stream/Order.antt =====
-- Connections, sends and whole runs keep the order of the frames.
use detersim.Prelude.{
  take-append_le, get_elem?-append, get_elem?-append_len, ℕ, suc, ◌≤◌, ◌≡◌, refl, sym, ◌∙◌, Bool,
  true, false, List, [], ◌∷◌, ◌++◌, map, any, length, take, range, insert, if◌then◌else◌, arith,
  Entries-insert, Entries-imp, Option-cases, inl, inr, length-append, append-nil, append_assoc,
}
use detersim.Stream.{
  DeterministicStream, StreamEndpoint, StreamFault, Frame, note, drain_ordered, flush,
  connection_faults, enqueue, send, step, run, Call, sends, flushes, payloads, new, delay_of,
  is_duplicate, is_disconnect, disconnected, reconnected, blocked, dropped, enqueued, duplicated,
  delayed,
}
use detersim.Stream.Delivery.{Sent, IsOrdered, drain_ordered-IsOrdered, note-IsOrdered}

connect-IsOrdered :
    (sent : List (List ℕ)) (c : Bool) (s : DeterministicStream)
    → IsOrdered sent s
    → IsOrdered sent (record s { connected = c })
connect-IsOrdered sent c s h = record {
  counted = h.counted;
  within = h.within;
  numbers = h.numbers;
  bytes = h.bytes;
  once = h.once;
  waiting = h.waiting;
}

connection_faults-IsOrdered :
    (sent : List (List ℕ)) (faults : List StreamFault) (s : DeterministicStream)
    → IsOrdered sent s
    → IsOrdered sent (connection_faults faults s)
unfolding connection_faults
connection_faults-IsOrdered sent faults s h =
    either _ _ _ (note-IsOrdered sent reconnected _ (connect-IsOrdered sent true _ first)) first
  where
    either :
        (b : Bool) (x y : DeterministicStream)
        → IsOrdered sent x
        → IsOrdered sent y
        → IsOrdered sent (if b then x else y)
    either true x y p q = p
    either false x y p q = q

    first :
        IsOrdered sent (
          if any is_disconnect faults
          then note disconnected (record s { connected = false })
          else s)
    first =
        either (any is_disconnect faults) _ _
          (note-IsOrdered sent disconnected _ (connect-IsOrdered sent false s h)) h

-- One more payload is sent.
sent-IsOrdered :
    (sent : List (List ℕ)) (b : List ℕ) (s : DeterministicStream)
    → IsOrdered sent s
    → IsOrdered (sent ++ b ∷ []) (record s { next_send = suc s.next_send })
sent-IsOrdered sent b s h =
    let longer = length-append sent (b ∷ []) in
    record {
      counted = omega (arith, h.counted, longer);
      within = omega (arith, h.within);
      numbers = h.numbers;
      bytes =
          h.bytes
          ∙ sym (take-append_le sent (b ∷ []) s.next_deliver (omega (arith, h.counted, h.within)));
      once = h.once;
      waiting =
          Entries-imp (Sent sent) (Sent (sent ++ b ∷ [])) s.buffered
            (λ k f p. (p.0, omega (arith, longer, p.1), get_elem?-append sent (b ∷ []) k p.1 ∙ p.2))
            h.waiting;
    }

buffer-IsOrdered :
    (sent : List (List ℕ)) (f : Frame) (s : DeterministicStream)
    → Sent sent f.seq f
    → IsOrdered sent s
    → IsOrdered sent (record s { buffered = insert f.seq f s.buffered })
buffer-IsOrdered sent f s q h = record {
  counted = h.counted;
  within = h.within;
  numbers = h.numbers;
  bytes = h.bytes;
  once = h.once;
  waiting = Entries-insert (Sent sent) f.seq f s.buffered q h.waiting;
}

if-IsOrdered :
    (sent : List (List ℕ)) (b : Bool) (x y : DeterministicStream)
    → IsOrdered sent x
    → IsOrdered sent y
    → IsOrdered sent (if b then x else y)
if-IsOrdered sent true x y p q = p
if-IsOrdered sent false x y p q = q

enqueue-IsOrdered :
    (sent : List (List ℕ)) (f : Frame) (faults : List StreamFault) (s : DeterministicStream)
    → Sent sent f.seq f
    → IsOrdered sent s
    → IsOrdered sent (enqueue f faults s)
unfolding enqueue
enqueue-IsOrdered sent f faults s q h =
    let h1 = note-IsOrdered sent (enqueued f.seq) _ (buffer-IsOrdered sent f s q h) in
    let h2 =
      if-IsOrdered sent (any (is_duplicate f.seq) faults) _ _
        (note-IsOrdered sent (duplicated f.seq) _ (buffer-IsOrdered sent f _ q h1)) h1 in
    elim (Option-cases (delay_of f.seq faults)) [
      | inl e ↦ rw (e, enqueue) (drain_ordered-IsOrdered sent _ h2)
      | inr (after_seq, e) ↦
          let h3 = note-IsOrdered sent (delayed f.seq after_seq) _ h2 in
          rw (e, enqueue) (if-IsOrdered sent _ _ _ h3 (drain_ordered-IsOrdered sent _ h3))
    ]

-- A send with any faults keeps the order, one payload being sent more.
pub send-IsOrdered :
    (sent : List (List ℕ)) (b : List ℕ) (faults : List StreamFault) (s : DeterministicStream)
    → IsOrdered sent s
    → IsOrdered (sent ++ b ∷ []) (send b faults s)
unfolding send
send-IsOrdered sent b faults s h =
    let sent' = sent ++ b ∷ [] in
    let f : Frame = record { seq = s.next_send; bytes = b } in
    let here : Sent sent' f.seq f = (
      refl,
      omega (arith, length-append sent (b ∷ []), h.counted),
      rw (h.counted) (get_elem?-append_len sent b),
    ) in
    let h1 = connection_faults-IsOrdered sent' faults _ (sent-IsOrdered sent b s h) in
    if-IsOrdered sent' _ _ _ (note-IsOrdered sent' (blocked f.seq) _ h1) (
      if-IsOrdered sent' _ _ _ (note-IsOrdered sent' (dropped f.seq) _ h1)
        (enqueue-IsOrdered sent' f faults _ here h1))

run-IsOrdered :
    (cs : List Call) (sent : List (List ℕ)) (s : DeterministicStream)
    → IsOrdered sent s
    → IsOrdered (sent ++ payloads cs) (run cs s)
unfolding run step flush
run-IsOrdered [] sent s h = rw append-nil h
run-IsOrdered (sends b faults ∷ cs) sent s h =
    rw (append_assoc sent (b ∷ []) (payloads cs)) at
      (run-IsOrdered cs (sent ++ b ∷ []) (send b faults s) (send-IsOrdered sent b faults s h))
run-IsOrdered (flushes ∷ cs) sent s h =
    run-IsOrdered cs sent (drain_ordered s) (drain_ordered-IsOrdered sent s h)

pub new-IsOrdered : (source target : StreamEndpoint) → IsOrdered [] (new source target)
unfolding new
new-IsOrdered source target = record {
  counted = refl;
  within = omega arith;
  numbers = refl;
  bytes = refl;
  once = λ k. ground arith;
  waiting = tt;
}

-- Whatever the faults and the flushes, a stream has delivered the frames 0, 1, ... in order, once
-- each, and their payloads are those sent under these numbers: a prefix of all that was sent.
pub run-new :
    (source target : StreamEndpoint) (cs : List Call)
    → let s = run cs (new source target) in
      (map (λ f. f.seq) s.transcript.delivered ≡ range 0 s.next_deliver)
      × (map (λ f. f.bytes) s.transcript.delivered ≡ take s.next_deliver (payloads cs))
      × (s.next_deliver ≤ length (payloads cs))
unfolding new
run-new source target cs =
    let h = run-IsOrdered cs [] (new source target) (new-IsOrdered source target) in
    (h.numbers, h.bytes, omega (arith, h.counted, h.within))
