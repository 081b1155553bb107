-- ===== src/Storage.antt =====
-- crates/detersim-sim/src/lib.rs, `PageStore`: a byte device with an explicit flush.
pub mod Bytes
pub mod Durability
pub mod Reorder
pub mod Survival
use Prim.Native.Nat.{bit_xor}
use detersim.Prelude.{
  ℕ, suc, ◌+◌, ◌-◌, ◌*◌, ◌/◌, ◌≤◌, ◌<◌, min, ◌≡◌, Bool, true, false, ◌&&◌, Option, none, some, List,
  [], ◌∷◌, ◌++◌, reverse, length, take, drop, replicate, ltb, leb, if◌then◌else◌,
}

-- A logged write: its offset and the bytes written.
abbrev pub Write : Type 0
Write = ℕ × List ℕ

pub record PageStore : Type 0 where
  pub pending : List ℕ
  pub committed : List ℕ
  pub write_log : List Write

-- `PageStore::default()`.
abbrev pub empty_store : PageStore
empty_store = record { pending = []; committed = []; write_log = [] }

-- `Vec::resize(end, 0)` when the vector is shorter than `end`.
abbrev pub resize : ℕ → List ℕ → List ℕ
resize end target = target ++ replicate (end - length target) 0

-- `copy_from_slice` into `start..start + data.len()`, which lies inside the target.
abbrev pub splice : ℕ → List ℕ → List ℕ → List ℕ
splice start bytes target = take start target ++ (bytes ++ drop (start + length bytes) target)

unfoldable pub apply_bytes : List ℕ → ℕ → List ℕ → List ℕ
apply_bytes target start bytes =
    let end = start + length bytes in
    splice start bytes (if ltb (length target) end then resize end target else target)

-- How many bytes of a write reach the device: a torn write of two bytes or more is cut to half,
-- rounded up.
unfoldable pub torn_len : Bool → ℕ → ℕ
torn_len torn len = if torn && ltb 1 len then (len + 1) / 2 else len

unfoldable pub write_at : ℕ → List ℕ → Bool → PageStore → PageStore
write_at offset bytes torn s =
    let written = take (torn_len torn (length bytes)) bytes in
    record s {
      pending = apply_bytes s.pending offset written;
      write_log = s.write_log ++ (offset, written) ∷ [];
    }

-- `bytes[start..end]`. `none` is its panic: the bounds are out of order, or the end is past the last
-- byte.
abbrev pub slice : ℕ → ℕ → List ℕ → Option (List ℕ)
slice start end bytes =
    if leb start end && leb end (length bytes)
    then some (take (end - start) (drop start bytes))
    else none

-- The bytes copied to the front of a buffer of `len` bytes.
pub read_at : ℕ → ℕ → PageStore → Option (List ℕ)
read_at offset len s =
    let n = min len (length s.pending - offset) in slice offset (offset + n) s.pending

-- Writes applied one after the other.
unfoldable pub apply_all : List Write → List ℕ → List ℕ
apply_all [] target = target
apply_all (w ∷ ws) target = apply_all ws (apply_bytes target w.0 w.1)

pub flush : Bool → PageStore → PageStore
flush pre_fsync_reorder s =
    if pre_fsync_reorder && ltb 1 (length s.write_log)
    then (let c = apply_all (reverse s.write_log) s.committed in
        record { pending = c; committed = c; write_log = [] })
    else record { pending = s.pending; committed = s.pending; write_log = [] }

pub len : PageStore → ℕ
len s = length s.pending

-- `if let Some(first) = first_mut() { *first ^= 1 }`.
abbrev pub rot_first : List ℕ → List ℕ
rot_first [] = []
rot_first (b ∷ bs) = bit_xor b 1 ∷ bs

unfoldable pub crash_recover : Bool → PageStore → PageStore
crash_recover bit_rot s =
    if bit_rot
    then record {
      pending = rot_first s.committed;
      committed = rot_first s.committed;
      write_log = [];
    }
    else record { pending = s.committed; committed = s.committed; write_log = [] }
