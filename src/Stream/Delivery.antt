-- ===== src/Stream/Delivery.antt =====
-- Delivering and draining keep the order of the frames.
use mathlib.Core.List.{map-append}
use detersim.Prelude.{
  take-suc, ℕ, zero, suc, ◌+◌, ◌≤◌, ◌<◌, ◌≡◌, sym, ap, ◌∙◌, false, not, some, List, [], ◌∷◌, ◌++◌,
  map, length, take, range, get_elem?, lookup, member, ltb, ◌==◌, arith, Entries, Entries-retain,
  Entries-lookup, Option-cases, inl, inr, member-set_insert,
}
use detersim.Tape.Record.{range-snoc}
use detersim.Stream.{
  DeterministicStream, Frame, StreamEvent, note, deliver, drain_loop, drain_ordered,
}

-- A buffered frame stands under its number, which has been sent, with the payload sent under it.
abbrev pub Sent : List (List ℕ) → ℕ → Frame → Type 0
Sent sent k f = (f.seq ≡ k) × (k < length sent) × (get_elem? sent k ≡ some f.bytes)

pub record IsOrdered (sent : List (List ℕ)) (s : DeterministicStream) : Type 0 where
  pub counted : s.next_send ≡ length sent
  pub within : s.next_deliver ≤ s.next_send
  pub numbers : map (λ f. f.seq) s.transcript.delivered ≡ range 0 s.next_deliver
  pub bytes : map (λ f. f.bytes) s.transcript.delivered ≡ take s.next_deliver sent
  pub once : (k : ℕ) → member k s.delivered_once ≡ ltb k s.next_deliver
  pub waiting : Entries (Sent sent) s.buffered

deliver-IsOrdered :
    (sent : List (List ℕ)) (s : DeterministicStream) (f : Frame)
    → lookup s.next_deliver s.buffered ≡ some f
    → IsOrdered sent s
    → IsOrdered sent (deliver f s)
unfolding deliver
deliver-IsOrdered sent s f found h =
    let here = Entries-lookup (Sent sent) s.next_deliver s.buffered h.waiting found in
    let fresh : member f.seq s.delivered_once ≡ false =
      rw (here.0) (h.once s.next_deliver ∙ ground arith) in
    let z : 0 + s.next_deliver ≡ s.next_deliver = omega arith in
    let rest = Entries-retain (Sent sent) (λ j _. not (j == s.next_deliver)) s.buffered h.waiting in
    rw fresh (record {
      counted = h.counted;
      within = omega (arith, h.counted, here.1);
      numbers =
          rw (map-append, h.numbers, here.0)
            (sym
              (range-snoc s.next_deliver 0 ∙ ap (λ (k : ℕ). range 0 s.next_deliver ++ k ∷ []) z));
      bytes = rw (map-append, h.bytes) (sym (take-suc sent s.next_deliver f.bytes here.2));
      once = λ k. ground (arith, member-set_insert f.seq k s.delivered_once, h.once k, here.0);
      waiting = rest;
    })

drain_loop-IsOrdered :
    (n : ℕ) (sent : List (List ℕ)) (s : DeterministicStream)
    → IsOrdered sent s
    → IsOrdered sent (drain_loop n s)
unfolding drain_loop
drain_loop-IsOrdered zero sent s h = h
drain_loop-IsOrdered (suc n) sent s h = elim (Option-cases (lookup s.next_deliver s.buffered)) [
  | inl e ↦ rw (e, drain_loop) h
  | inr (f, e) ↦
      rw (e, drain_loop)
        (drain_loop-IsOrdered n sent (deliver f s) (deliver-IsOrdered sent s f e h))
]

pub drain_ordered-IsOrdered :
    (sent : List (List ℕ)) (s : DeterministicStream)
    → IsOrdered sent s
    → IsOrdered sent (drain_ordered s)
unfolding drain_ordered
drain_ordered-IsOrdered sent s h = drain_loop-IsOrdered _ sent s h

pub note-IsOrdered :
    (sent : List (List ℕ)) (e : StreamEvent) (s : DeterministicStream)
    → IsOrdered sent s
    → IsOrdered sent (note e s)
note-IsOrdered sent e s h = record {
  counted = h.counted;
  within = h.within;
  numbers = h.numbers;
  bytes = h.bytes;
  once = h.once;
  waiting = h.waiting;
}
