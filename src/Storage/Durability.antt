-- ===== src/Storage/Durability.antt =====
-- What survives a flush and a `crash_recover`, which `crash_node` calls only under the lost-on-crash or
-- the bit-rot fault, and what a read returns.
use detersim.Prelude.{
  ℕ, zero, suc, ◌+◌, ◌-◌, ◌≤◌, ◌<◌, min, ◌≡◌, refl, ◌∙◌, sym, ap, Bool, true, false, none, some,
  List, [], ◌∷◌, ◌++◌, length, take, drop, get_elem?, leb, ltb, arith, Bool-cases, inl, inr, ltb→lt,
  length-take, take_beyond, take-append_len, drop-append_len, length-drop,
}
use detersim.Storage.{
  PageStore, Write, apply_bytes, apply_all, write_at, read_at, flush, crash_recover, len, splice,
  resize, slice, torn_len,
}
use detersim.Storage.Bytes.{apply_bytes-overlay, length-resize}

-- The pending bytes are the committed ones with the logged writes applied in order.
abbrev pub IsLogged : PageStore → Type 0
IsLogged s = s.pending ≡ apply_all s.write_log s.committed

pub apply_all-append :
    (xs ys : List Write) (t : List ℕ) → apply_all (xs ++ ys) t ≡ apply_all ys (apply_all xs t)
unfolding apply_all
apply_all-append [] ys t = refl
apply_all-append (w ∷ xs) ys t = apply_all-append xs ys (apply_bytes t w.0 w.1)

-- Every operation of the device keeps the write log in step with its two images, torn, reordered
-- and rotten variants included.
pub write_at-IsLogged :
    (offset : ℕ) (bytes : List ℕ) (torn rot reorder : Bool) (s : PageStore)
    → IsLogged s
    → IsLogged (write_at offset bytes torn s)
      × IsLogged (flush reorder s)
      × IsLogged (crash_recover rot s)
unfolding write_at apply_all flush crash_recover
write_at-IsLogged offset bytes torn rot reorder s h = (
  let w = take (torn_len torn (length bytes)) bytes in
      ap (λ t. apply_bytes t offset w) h
      ∙ sym (apply_all-append s.write_log ((offset, w) ∷ []) s.committed),
  ground arith,
  ground arith,
)

-- Writes one after the other, each torn or not.
abbrev pub write_all : List (Bool × Write) → PageStore → PageStore
write_all [] s = s
write_all ((torn, (offset, bytes)) ∷ ws) s = write_all ws (write_at offset bytes torn s)

write_all-committed :
    (ws : List (Bool × Write)) (s : PageStore) → (write_all ws s).committed ≡ s.committed
unfolding write_at
write_all-committed [] s = refl
write_all-committed ((torn, (offset, bytes)) ∷ ws) s =
    write_all-committed ws (write_at offset bytes torn s)

-- Without bit rot, `crash_recover` gives back exactly the store as it was after the last flush,
-- whatever was written since, torn or not, and whether that flush was reordered or not; in
-- particular it changes nothing right after a flush. A flush that is not reordered commits all that
-- is pending.
pub crash_recover-flush :
    (ws : List (Bool × Write)) (reorder : Bool) (s : PageStore)
    → (crash_recover false (write_all ws (flush reorder s)) ≡ flush reorder s)
      × (crash_recover false (flush reorder s) ≡ flush reorder s)
      × ((flush false s).committed ≡ s.pending)
unfolding flush crash_recover
crash_recover-flush ws reorder s =
    let kept = write_all-committed ws (flush reorder s) in
    (ground (arith, kept), ground arith, refl)

take-splice :
    (start : ℕ) (bytes target : List ℕ)
    → start ≤ length target
    → take (length bytes) (drop start (splice start bytes target)) ≡ bytes
take-splice start bytes target h =
    let head = take start target in
    let lh : length head ≡ start = omega (arith, length-take start target) in
    ap (take (length bytes))
      (rw lh at (drop-append_len head (bytes ++ drop (start + length bytes) target)))
    ∙ take-append_len bytes _

take-apply_bytes :
    (start : ℕ) (bytes target : List ℕ)
    → take (length bytes) (drop start (apply_bytes target start bytes)) ≡ bytes
unfolding apply_bytes
take-apply_bytes start bytes target =
    let end = start + length bytes in
    elim (Bool-cases (ltb (length target) end)) [
      | inl short ↦ rw short (
          take-splice start bytes (resize end target)
            (omega (arith, length-resize end target, ltb→lt (length target) end short)))
      | inr fits ↦ rw fits (take-splice start bytes target (ground arith))
    ]

slice_within :
    (start n : ℕ) (image : List ℕ)
    → start + n ≤ length image
    → slice start (start + n) image ≡ some (take n (drop start image))
slice_within start n image h =
    let ordered : leb start (start + n) ≡ true = ground arith in
    let inside : leb (start + n) (length image) ≡ true = ground arith in
    let size : start + n - start ≡ n = omega arith in rw (ordered, inside, size) refl

read_image :
    (offset n : ℕ) (image w : List ℕ)
    → offset + n ≤ length image
    → take n (drop offset image) ≡ w
    → slice offset (offset + min n (length image - offset)) image ≡ some w
read_image offset n image w h e =
    let whole : min n (length image - offset) ≡ n = omega arith in
    rw whole (slice_within offset n image h ∙ ap some e)

-- A read of the bytes just written returns the part that reached the device: all of them, unless
-- the write was torn.
pub read_at-write_at :
    (offset : ℕ) (bytes : List ℕ) (torn : Bool) (s : PageStore)
    → let n = torn_len torn (length bytes) in
      (n ≤ length bytes)
      × (read_at offset n (write_at offset bytes torn s) ≡ some (take n bytes))
      × (torn ≡ false → take n bytes ≡ bytes)
unfolding read_at write_at
read_at-write_at offset bytes torn s =
    let n = torn_len torn (length bytes) in
    let w = take n bytes in
    let small : n ≤ length bytes = unfold torn_len in ground arith in
    let lw : length w ≡ n = omega (arith, length-take n bytes) in
    let long = (apply_bytes-overlay s.pending offset w).1 in
    (
      small,
      read_image offset n (apply_bytes s.pending offset w) w (omega arith)
          (rw lw at (take-apply_bytes offset w s.pending)),
      λ whole. take_beyond n bytes (unfold torn_len in ground arith),
    )

get_elem?-take-drop :
    (offset n : ℕ) (image : List ℕ) (i : ℕ)
    → i < n
    → get_elem? (take n (drop offset image)) i ≡ get_elem? image (offset + i)
get_elem?-take-drop zero zero image i h = absurd (omega (arith, h))
get_elem?-take-drop zero (suc n) [] i h = refl
get_elem?-take-drop zero (suc n) (b ∷ image) zero h = refl
get_elem?-take-drop zero (suc n) (b ∷ image) (suc i) h =
    let e : 0 + suc i ≡ suc (0 + i) = omega arith in
    rw e (get_elem?-take-drop zero n image i (omega (arith, h)))
get_elem?-take-drop (suc offset) zero [] i h = refl
get_elem?-take-drop (suc offset) (suc n) [] i h = refl
get_elem?-take-drop (suc offset) n (b ∷ image) i h =
    let e : suc offset + i ≡ suc (offset + i) = omega arith in
    rw e (get_elem?-take-drop offset n image i h)

-- A read starting at or before the end of the device copies as many bytes as the buffer holds and
-- the device has from there, and the byte at each place is the device's byte that far from the
-- start. One starting past the end has no result: the slice it takes there panics.
pub read_at_cases :
    (offset len : ℕ) (s : PageStore)
    → (offset ≤ length s.pending
        → (out : List ℕ) × (read_at offset len s ≡ some out)
          × (length out ≡ min len (length s.pending - offset))
          × ((i : ℕ) → i < length out → get_elem? out i ≡ get_elem? s.pending (offset + i)))
      × (length s.pending < offset → read_at offset len s ≡ none)
unfolding read_at
read_at_cases offset len s =
    let n = min len (length s.pending - offset) in
    let out = take n (drop offset s.pending) in
    let size : offset ≤ length s.pending → length out ≡ n =
      λ h. omega (arith, h, length-take n (drop offset s.pending), length-drop offset s.pending) in
    (
      λ h. (
        out,
        slice_within offset n s.pending (omega (arith, h)),
        size h,
        λ i below. get_elem?-take-drop offset n s.pending i (omega (arith, size h, below)),
      ),
      λ past.
          let out_of_reach : leb (offset + n) (length s.pending) ≡ false = ground (arith, past) in
          ground (arith, out_of_reach),
    )
