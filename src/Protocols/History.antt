-- ===== src/Protocols/History.antt =====
-- crates/detersim-protocols/src/history.rs: the lines of a run's history that record client
-- operations, and the parsers that hand them to the checkers.
pub mod Parts
pub mod Lines
use detersim.Prelude.{
  ℕ, Bool, not, ◌||◌, ◌&&◌, Option, none, some, List, [], ◌∷◌, ◌++◌, length, get_elem?, ◌==◌,
  if◌then◌else◌, ◌>>=◌, filter_map, ℤ, ◌^◌,
}
use detersim.Rng.{u64_mod}
use detersim.Text.{Text, codes, same_text, show_ℕ, show_ℤ, parse_ℕ, parse_ℤ, split, join}
use detersim.Check.{OpRecord, completed_at}
use detersim.Check.Models.{
  SingleKeyInput, SingleKeyOutput, AppendLogInput, AppendLogOutput, append, read_all, index,
  entries,
}

abbrev pub i32_bound : ℕ
i32_bound = 0x8000_0000

pub data RecordedOp : Type 0 where
  kv_put : (id process : ℕ) (value : ℤ) (invoke complete : ℕ) → RecordedOp
  kv_get : (id process : ℕ) (value : Option ℤ) (invoke complete : ℕ) → RecordedOp
  log_append : (id process : ℕ) (value : Text) (at : ℕ) (invoke complete : ℕ) → RecordedOp
  log_read : (id process : ℕ) (held : List Text) (invoke complete : ℕ) → RecordedOp

abbrev pub KvRecord : Type 0
KvRecord = OpRecord (SingleKeyInput ℤ) (SingleKeyOutput ℤ)

abbrev pub LogRecord : Type 0
LogRecord = OpRecord (AppendLogInput Text) (AppendLogOutput Text)

unfoldable pub kv_value_msg : Option ℤ → Text
kv_value_msg none = codes "none"
kv_value_msg (some value) = show_ℤ value

-- The two times at the end of a line.
abbrev pub times_text : ℕ → ℕ → Text
times_text invoke complete = show_ℕ invoke ++ b':' ∷ show_ℕ complete

unfoldable pub to_history_line : RecordedOp → Text
unfolding kv_value_msg
to_history_line (kv_put id process value invoke complete) =
    codes "kv:"
    ++ (show_ℕ id
        ++ (codes ":put:" ++ (show_ℤ value ++ (codes ":ok:" ++ times_text invoke complete))))
to_history_line (kv_get id process value invoke complete) =
    codes "kv:"
    ++ (show_ℕ id
        ++ (codes ":get:"
            ++ (kv_value_msg value ++ (codes ":value:" ++ times_text invoke complete))))
to_history_line (log_append id process value at invoke complete) =
    codes "log:"
    ++ (show_ℕ id
        ++ (codes ":append:"
            ++ (value ++ (codes ":index:" ++ (show_ℕ at ++ b':' ∷ times_text invoke complete)))))
to_history_line (log_read id process held invoke complete) =
    codes "log:"
    ++ (show_ℕ id
        ++ (codes ":read:"
            ++ (join b',' held ++ (codes ":entries:" ++ times_text invoke complete))))

unfoldable pub parse_optional_i32 : Text → Option ℤ
parse_optional_i32 value =
    if not (same_text value (codes "none")) then parse_ℤ i32_bound value else none

unfoldable pub parse_entries : Text → List Text
parse_entries [] = []
parse_entries (c ∷ t) = split b',' (c ∷ t)

abbrev pub u64_at : ℕ → List Text → Option ℕ
u64_at i parts = get_elem? parts i >>= parse_ℕ u64_mod

abbrev pub starts_as : Text → List Text → Bool
starts_as head [] = Bool.false
starts_as head (part ∷ parts) = same_text part head

-- The parts of a line, once their number and the first of them are right.
unfoldable pub read_kv : List Text → Option KvRecord
read_kv parts = do
  id ← u64_at 1 parts
  invoke ← u64_at 5 parts
  complete ← u64_at 6 parts
  kind ← get_elem? parts 2
  field ← get_elem? parts 3
  let put_record = parse_ℤ i32_bound field >>= λ v.
      some (completed_at id 3 (SingleKeyInput.put v) SingleKeyOutput.ok invoke complete)
  let get_record = some (
      completed_at id 3 SingleKeyInput.get (SingleKeyOutput.value (parse_optional_i32 field)) invoke
        complete)
  if same_text kind (codes "put")
      then put_record
      else if same_text kind (codes "get")
      then get_record
      else none

unfoldable pub parse_kv_line : Text → Option KvRecord
unfolding read_kv
parse_kv_line entry =
    let parts = split b':' entry in
    if not (length parts == 7) || not (starts_as (codes "kv") parts) then none else read_kv parts

unfoldable pub read_append : ℕ → List Text → Option LogRecord
read_append id parts = do
  invoke ← u64_at 6 parts
  complete ← u64_at 7 parts
  value ← get_elem? parts 3
  idx ← u64_at 5 parts
  some (completed_at id 3 (append value) (index idx) invoke complete)

unfoldable pub read_entries : ℕ → List Text → Option LogRecord
read_entries id parts = do
  invoke ← u64_at 5 parts
  complete ← u64_at 6 parts
  field ← get_elem? parts 3
  some (completed_at id 3 read_all (entries (parse_entries field)) invoke complete)

unfoldable pub read_log : List Text → Option LogRecord
unfolding read_append read_entries
read_log parts = do
  id ← u64_at 1 parts
  kind ← get_elem? parts 2
  if same_text kind (codes "append") && (length parts == 8)
      then read_append id parts
      else if same_text kind (codes "read") && (length parts == 7)
      then read_entries id parts
      else none

unfoldable pub parse_log_line : Text → Option LogRecord
unfolding read_log
parse_log_line entry =
    let parts = split b':' entry in
    if not (starts_as (codes "log") parts) then none else read_log parts

unfoldable pub single_key_kv_history : List Text → List KvRecord
unfolding parse_kv_line
single_key_kv_history lines = filter_map parse_kv_line lines

unfoldable pub append_log_history : List Text → List LogRecord
unfolding parse_log_line
append_log_history lines = filter_map parse_log_line lines
