-- ===== src/Stream/Stall.antt =====
-- What stops delivery, and what a drain leaves behind.
use detersim.Prelude.{
  ℕ, zero, suc, ◌≤◌, ◌<◌, ◌≡◌, ◌≢◌, sym, ap, ◌∙◌, Bool, true, false, not, none, some, List, [], ◌∷◌,
  any, length, Map, lookup, insert, remove, retain, ◌==◌, if◌then◌else◌, arith, Option-cases,
  Bool-cases, inl, inr, lookup-insert, lookup-remove, Entries-lookup, ◌⊎◌,
}
use detersim.Stream.{
  DeterministicStream, StreamFault, StreamEvent, Frame, note, blocked, dropped, enqueued,
  duplicated, delayed, deliver, drain_loop, drain_ordered, flush, connection_faults, enqueue, send,
  step, run, Call, sends, flushes, delay_of, is_drop, is_duplicate,
}
use detersim.Stream.Delivery.{IsOrdered, Sent}

length-retain-le {ℓ} : {V : Type ℓ} (p : ℕ → V → Bool) (m : Map V) → length (retain p m) ≤ length m
length-retain-le p [] = omega arith
length-retain-le p ((k, v) ∷ m) = ground (arith, length-retain-le p m)

length-remove-lt {ℓ} :
    {V : Type ℓ} (k : ℕ) (m : Map V) {v : V} → lookup k m ≡ some v → length (remove k m) < length m
length-remove-lt k [] h = absurd (ground arith)
length-remove-lt k ((j, w) ∷ m) h = elim (Bool-cases (j == k)) [
  | inl hit ↦ rw hit (omega (arith, length-retain-le (λ i _. not (i == k)) m))
  | inr miss ↦ rw miss (omega (arith, length-remove-lt k m (rw miss at h)))
]

drain_loop_drained :
    (n : ℕ) (s : DeterministicStream)
    → length s.buffered < n
    → let t = drain_loop n s in lookup t.next_deliver t.buffered ≡ none
unfolding drain_loop deliver
drain_loop_drained zero s h = absurd (omega arith)
drain_loop_drained (suc n) s h = elim (Option-cases (lookup s.next_deliver s.buffered)) [
  | inl e ↦ rw (e, drain_loop) e
  | inr (f, e) ↦
      rw (e, drain_loop)
        (drain_loop_drained n (deliver f s)
          (let less = length-remove-lt s.next_deliver s.buffered e in ground arith))
]

-- A flush runs to its end: the next frame in order is not waiting in the buffer any more.
pub flush_drained :
    (s : DeterministicStream) → lookup (flush s).next_deliver (flush s).buffered ≡ none
unfolding flush drain_ordered
flush_drained s = drain_loop_drained _ s (omega arith)

-- Frame `k` has been sent, was not delivered, and is not in the buffer.
record IsLost (k : ℕ) (s : DeterministicStream) : Type 0 where
  absent : lookup k s.buffered ≡ none
  ahead : s.next_deliver ≤ k
  past : k < s.next_send

deliver-IsLost :
    (k : ℕ) (f : Frame) (s : DeterministicStream)
    → lookup s.next_deliver s.buffered ≡ some f
    → IsLost k s
    → IsLost k (deliver f s)
unfolding deliver
deliver-IsLost k f s e h =
    let other : s.next_deliver ≢ k = λ q.
      let w : lookup k s.buffered ≡ some f = ap (λ (i : ℕ). lookup i s.buffered) (sym q) ∙ e in
      absurd (ground (arith, h.absent, w)) in
    record {
      absent = ground (arith, lookup-remove s.next_deliver k s.buffered);
      ahead = ground (arith, h.ahead);
      past = ground (arith, h.past);
    }

drain_loop-IsLost : (n k : ℕ) (s : DeterministicStream) → IsLost k s → IsLost k (drain_loop n s)
unfolding drain_loop
drain_loop-IsLost zero k s h = h
drain_loop-IsLost (suc n) k s h = elim (Option-cases (lookup s.next_deliver s.buffered)) [
  | inl e ↦ rw (e, drain_loop) h
  | inr (f, e) ↦ rw (e, drain_loop) (drain_loop-IsLost n k (deliver f s) (deliver-IsLost k f s e h))
]

connection_faults-kept :
    (faults : List StreamFault) (s : DeterministicStream)
    → let t = connection_faults faults s in
      (t.buffered ≡ s.buffered) × (t.next_deliver ≡ s.next_deliver) × (t.next_send ≡ s.next_send)
unfolding connection_faults
connection_faults-kept faults s = ground arith

same-IsLost :
    (k : ℕ) (s t : DeterministicStream)
    → (t.buffered ≡ s.buffered) × (t.next_deliver ≡ s.next_deliver) × (s.next_send ≤ t.next_send)
    → IsLost k s
    → IsLost k t
same-IsLost k s t e h = record {
  absent = ap (lookup k) e.0 ∙ h.absent;
  ahead = omega (arith, h.ahead, e.1);
  past = omega (arith, h.past, e.2);
}

buffer-IsLost :
    (k : ℕ) (f : Frame) (s : DeterministicStream)
    → k ≢ f.seq
    → IsLost k s
    → IsLost k (record s { buffered = insert f.seq f s.buffered })
buffer-IsLost k f s ne h = record {
  absent = ground (arith, lookup-insert f.seq k f s.buffered, h.absent);
  ahead = h.ahead;
  past = h.past;
}

if-IsLost :
    (k : ℕ) (b : Bool) (x y : DeterministicStream)
    → IsLost k x
    → IsLost k y
    → IsLost k (if b then x else y)
if-IsLost k true x y p q = p
if-IsLost k false x y p q = q

if_true-IsLost :
    (k : ℕ) (b : Bool) (x y : DeterministicStream)
    → b ≡ true
    → IsLost k x
    → IsLost k (if b then x else y)
if_true-IsLost k true x y e p = p
if_true-IsLost k false x y e p = absurd (ground arith)

note-IsLost : (k : ℕ) (e : StreamEvent) (s : DeterministicStream) → IsLost k s → IsLost k (note e s)
note-IsLost k e s h = record { absent = h.absent; ahead = h.ahead; past = h.past }

enqueue-IsLost :
    (k : ℕ) (f : Frame) (faults : List StreamFault) (s : DeterministicStream)
    → k ≢ f.seq
    → IsLost k s
    → IsLost k (enqueue f faults s)
unfolding enqueue drain_ordered
enqueue-IsLost k f faults s ne h =
    let h1 = note-IsLost k (enqueued f.seq) _ (buffer-IsLost k f s ne h) in
    let h2 =
      if-IsLost k (any (is_duplicate f.seq) faults) _ _
        (note-IsLost k (duplicated f.seq) _ (buffer-IsLost k f _ ne h1)) h1 in
    elim (Option-cases (delay_of f.seq faults)) [
      | inl e ↦ rw (e, enqueue) (drain_loop-IsLost _ k _ h2)
      | inr (after_seq, e) ↦
          let h3 = note-IsLost k (delayed f.seq after_seq) _ h2 in
          rw (e, enqueue) (if-IsLost k _ _ _ h3 (drain_loop-IsLost _ k _ h3))
    ]

send-IsLost :
    (k : ℕ) (b : List ℕ) (faults : List StreamFault) (s : DeterministicStream)
    → IsLost k s
    → IsLost k (send b faults s)
unfolding send
send-IsLost k b faults s h =
    let f : Frame = record { seq = s.next_send; bytes = b } in
    let later = record s { next_send = suc s.next_send } in
    let kept = connection_faults-kept faults later in
    let h1 =
      same-IsLost k s (connection_faults faults later) (kept.0, kept.1, omega (arith, kept.2)) h in
    let ne : k ≢ f.seq = omega (arith, h.past) in
    if-IsLost k _ _ _ (note-IsLost k (blocked f.seq) _ h1)
      (if-IsLost k _ _ _ (note-IsLost k (dropped f.seq) _ h1) (enqueue-IsLost k f faults _ ne h1))

run-IsLost : (cs : List Call) (k : ℕ) (s : DeterministicStream) → IsLost k s → IsLost k (run cs s)
unfolding run step flush drain_ordered
run-IsLost [] k s h = h
run-IsLost (sends b faults ∷ cs) k s h =
    run-IsLost cs k (send b faults s) (send-IsLost k b faults s h)
run-IsLost (flushes ∷ cs) k s h = run-IsLost cs k (drain_ordered s) (drain_loop-IsLost _ k s h)

-- The next number is not in the buffer.
next-absent :
    (sent : List (List ℕ)) (s : DeterministicStream)
    → IsOrdered sent s
    → lookup s.next_send s.buffered ≡ none
next-absent sent s h = elim (Option-cases (lookup s.next_send s.buffered)) [
  | inl e ↦ e
  | inr (f, e) ↦
      let p = Entries-lookup (Sent sent) s.next_send s.buffered h.waiting e in
      absurd (omega (arith, p.1, h.counted))
]

send-IsLost' :
    (b : List ℕ) (faults : List StreamFault) (s : DeterministicStream)
    → IsLost s.next_send (record s { next_send = suc s.next_send })
    → (any (is_drop s.next_send) faults ≡ true) ⊎ ((connection_faults faults s).connected ≡ false)
    → IsLost s.next_send (send b faults s)
unfolding send
send-IsLost' b faults s base lost =
    let later = record s { next_send = suc s.next_send } in
    let kept = connection_faults-kept faults later in
    let now =
      same-IsLost s.next_send later (connection_faults faults later)
        (kept.0, kept.1, omega (arith, kept.2)) base in
    let up = (connection_faults faults later).connected in
    let link : up ≡ (connection_faults faults s).connected =
      unfold connection_faults in ground arith in
    elim (Bool-cases (any (is_drop s.next_send) faults)) [
      | inl hit ↦
          if-IsLost s.next_send (not up) _ _ (note-IsLost s.next_send (blocked s.next_send) _ now) (
            if_true-IsLost s.next_send _ _ _ hit
              (note-IsLost s.next_send (dropped s.next_send) _ now))
      | inr miss ↦
          let down : up ≡ false = ground (arith, lost, link) in
          let off : not up ≡ true = ground (arith, down) in
          if_true-IsLost s.next_send (not up) _ _ off
            (note-IsLost s.next_send (blocked s.next_send) _ now)
    ]

-- A frame that is dropped, or sent while the stream is disconnected, is never sent again: whatever
-- calls follow, delivery does not get past its number.
pub run_after_lost :
    (sent : List (List ℕ)) (b : List ℕ) (faults : List StreamFault) (s : DeterministicStream)
    (cs : List Call)
    → IsOrdered sent s
    → (any (is_drop s.next_send) faults ≡ true) ⊎ ((connection_faults faults s).connected ≡ false)
    → (run cs (send b faults s)).next_deliver ≤ s.next_send
run_after_lost sent b faults s cs h lost =
    (run-IsLost cs s.next_send (send b faults s) (send-IsLost' b faults s base lost)).ahead
  where
    base : IsLost s.next_send (record s { next_send = suc s.next_send })
    base = record { absent = next-absent sent s h; ahead = h.within; past = omega arith }
