-- ===== src/Protocols/History/Parts.antt =====
-- The parts of a history line, and that they can be told apart.
use detersim.Prelude.{
  ℕ, suc, ◌<◌, ◌≡◌, refl, true, false, Option, none, some, List, [], ◌∷◌, ◌==◌, ℤ, pos, negsuc,
  arith, All, All-imp, All-append, any,
}
use detersim.Rng.{u64_mod}
use detersim.Text.{Text, codes, show_ℕ, show_ℤ, is_digit, split, join}
use detersim.Text.Split.{IsFree, split-join}
use detersim.Text.Decimal.{Fits, IsDecimal, show_ℕ-IsDecimal}
use detersim.Check.{completed_at}
use detersim.Check.Models.{SingleKeyInput, SingleKeyOutput, append, read_all, index, entries}
use detersim.Protocols.History.{
  RecordedOp, kv_put, kv_get, log_append, log_read, KvRecord, LogRecord, i32_bound, kv_value_msg,
  to_history_line,
}

abbrev pub IsU64 : ℕ → Type 0
IsU64 n = n < u64_mod

abbrev pub FitsOption : Option ℤ → Type 0
FitsOption none = Unit
FitsOption (some value) = Fits i32_bound value

-- The numbers are in their ranges, and the texts of a log hold no separator. The list of one empty
-- text is left out, as its line is that of the empty list.
abbrev pub IsEncodable : RecordedOp → Type 0
IsEncodable (kv_put id process value invoke complete) =
    IsU64 id × IsU64 invoke × IsU64 complete × Fits i32_bound value
IsEncodable (kv_get id process value invoke complete) =
    IsU64 id × IsU64 invoke × IsU64 complete × FitsOption value
IsEncodable (log_append id process value at invoke complete) =
    IsU64 id × IsU64 invoke × IsU64 complete × IsU64 at × IsFree b':' value
IsEncodable (log_read id process held invoke complete) =
    IsU64 id
    × IsU64 invoke
    × IsU64 complete
    × All (IsFree b':') held
    × All (IsFree b',') held
    × ¬ (held ≡ [] ∷ [])

-- The operation as the checkers take it: that of process 3, whichever process it was.
abbrev pub kv_record : RecordedOp → Option KvRecord
kv_record (kv_put id process value invoke complete) =
    some (completed_at id 3 (SingleKeyInput.put value) SingleKeyOutput.ok invoke complete)
kv_record (kv_get id process value invoke complete) =
    some (completed_at id 3 SingleKeyInput.get (SingleKeyOutput.value value) invoke complete)
kv_record (log_append id process value at invoke complete) = none
kv_record (log_read id process held invoke complete) = none

abbrev pub log_record : RecordedOp → Option LogRecord
log_record (kv_put id process value invoke complete) = none
log_record (kv_get id process value invoke complete) = none
log_record (log_append id process value at invoke complete) =
    some (completed_at id 3 (append value) (index at) invoke complete)
log_record (log_read id process held invoke complete) =
    some (completed_at id 3 read_all (entries held) invoke complete)

IsDecimal-IsFree : (sep : ℕ) (t : Text) → is_digit sep ≡ false → IsDecimal t → IsFree sep t
IsDecimal-IsFree sep t no_digit h =
    All-imp (λ c. is_digit c ≡ true) (λ c. (c == sep) ≡ false) t (λ c d. ground arith) h

IsFree-ℕ : (n : ℕ) → IsFree b':' (show_ℕ n)
IsFree-ℕ n = IsDecimal-IsFree b':' (show_ℕ n) refl (show_ℕ-IsDecimal n)

IsFree-ℤ : (z : ℤ) → IsFree b':' (show_ℤ z)
unfolding show_ℤ
IsFree-ℤ (pos n) = IsFree-ℕ n
IsFree-ℤ (negsuc n) = (refl, IsFree-ℕ (suc n))

IsFree-value : (value : Option ℤ) → IsFree b':' (kv_value_msg value)
unfolding kv_value_msg
IsFree-value none = ground arith
IsFree-value (some z) = IsFree-ℤ z

join-IsFree :
    (sep other : ℕ) (ts : List Text)
    → (other == sep) ≡ false
    → All (IsFree sep) ts
    → IsFree sep (join other ts)
unfolding join
join-IsFree sep other [] h f = tt
join-IsFree sep other (t ∷ []) h f = f.0
join-IsFree sep other (t ∷ u ∷ ts) h f =
    All-append (λ c. (c == sep) ≡ false) t _ f.0 (h, join-IsFree sep other (u ∷ ts) h f.1)

-- The parts of a line.
abbrev parts_of : RecordedOp → List Text
parts_of (kv_put id process value invoke complete) =
    codes "kv"
    ∷ show_ℕ id
    ∷ codes "put"
    ∷ show_ℤ value
    ∷ codes "ok"
    ∷ show_ℕ invoke
    ∷ show_ℕ complete
    ∷ []
parts_of (kv_get id process value invoke complete) =
    codes "kv"
    ∷ show_ℕ id
    ∷ codes "get"
    ∷ kv_value_msg value
    ∷ codes "value"
    ∷ show_ℕ invoke
    ∷ show_ℕ complete
    ∷ []
parts_of (log_append id process value at invoke complete) =
    codes "log"
    ∷ show_ℕ id
    ∷ codes "append"
    ∷ value
    ∷ codes "index"
    ∷ show_ℕ at
    ∷ show_ℕ invoke
    ∷ show_ℕ complete
    ∷ []
parts_of (log_read id process held invoke complete) =
    codes "log"
    ∷ show_ℕ id
    ∷ codes "read"
    ∷ join b',' held
    ∷ codes "entries"
    ∷ show_ℕ invoke
    ∷ show_ℕ complete
    ∷ []

-- The last parts of a line.
IsFree-times : (invoke complete : ℕ) → All (IsFree b':') (show_ℕ invoke ∷ show_ℕ complete ∷ [])
IsFree-times invoke complete = (IsFree-ℕ invoke, (IsFree-ℕ complete, tt))

IsFree-word : (word : Text) → any (λ c. c == b':') word ≡ false → IsFree b':' word
IsFree-word [] h = tt
IsFree-word (c ∷ word) h = ground (arith, IsFree-word word)

parts_of-IsFree : (op : RecordedOp) → IsEncodable op → All (IsFree b':') (parts_of op)
parts_of-IsFree (kv_put id process value invoke complete) h =
    let times = IsFree-times invoke complete in
    (
      IsFree-word (codes "kv") refl,
      (
        IsFree-ℕ id,
        (IsFree-word (codes "put") refl, (IsFree-ℤ value, (IsFree-word (codes "ok") refl, times))),
      ),
    )
parts_of-IsFree (kv_get id process value invoke complete) h =
    let times = IsFree-times invoke complete in
    (
      IsFree-word (codes "kv") refl,
      (
        IsFree-ℕ id,
        (
          IsFree-word (codes "get") refl,
          (IsFree-value value, (IsFree-word (codes "value") refl, times)),
        ),
      ),
    )
parts_of-IsFree (log_append id process value at invoke complete) h =
    let times : All (IsFree b':') (show_ℕ at ∷ show_ℕ invoke ∷ show_ℕ complete ∷ []) =
      (IsFree-ℕ at, IsFree-times invoke complete) in
    (
      IsFree-word (codes "log") refl,
      (
        IsFree-ℕ id,
        (IsFree-word (codes "append") refl, (h.4, (IsFree-word (codes "index") refl, times))),
      ),
    )
parts_of-IsFree (log_read id process held invoke complete) h =
    let times = IsFree-times invoke complete in
    let joined = join-IsFree b':' b',' held refl h.3 in
    (
      IsFree-word (codes "log") refl,
      (
        IsFree-ℕ id,
        (IsFree-word (codes "read") refl, (joined, (IsFree-word (codes "entries") refl, times))),
      ),
    )

pub split-to_history_line :
    (op : RecordedOp) → IsEncodable op → split b':' (to_history_line op) ≡ parts_of op
unfolding to_history_line join
split-to_history_line (kv_put id process value invoke complete) h =
    let free = parts_of-IsFree (kv_put id process value invoke complete) h in
    split-join b':' _ _ free
split-to_history_line (kv_get id process value invoke complete) h =
    let free = parts_of-IsFree (kv_get id process value invoke complete) h in
    split-join b':' _ _ free
split-to_history_line (log_append id process value at invoke complete) h =
    let free = parts_of-IsFree (log_append id process value at invoke complete) h in
    split-join b':' _ _ free
split-to_history_line (log_read id process held invoke complete) h =
    let free = parts_of-IsFree (log_read id process held invoke complete) h in
    split-join b':' _ _ free
