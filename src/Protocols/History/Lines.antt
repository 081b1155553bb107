-- ===== src/Protocols/History/Lines.antt =====
-- The round trip of history lines.
use detersim.Prelude.{
  ℕ, ◌≡◌, refl, false, Option, none, some, List, [], ◌∷◌, map, filter_map, filter_map-map, ℤ, pos,
  negsuc, arith, All,
}
use detersim.Rng.{u64_mod}
use detersim.Text.{Text, codes, show_ℕ, show_ℤ, join, parse_ℕ, same_text}
use detersim.Text.Split.{IsFree, split-join}
use detersim.Text.Decimal.{show_ℕ-cons, parse_ℕ-show_ℕ, parse_ℤ-show_ℤ}
use detersim.Protocols.History.{
  RecordedOp, kv_put, kv_get, log_append, log_read, i32_bound, kv_value_msg, to_history_line,
  parse_optional_i32, parse_entries, parse_kv_line, parse_log_line, single_key_kv_history,
  append_log_history,
}
use detersim.Protocols.History.Parts.{
  IsU64, FitsOption, IsEncodable, kv_record, log_record, split-to_history_line,
}

parse_entries-join :
    (held : List Text)
    → All (IsFree b',') held
    → ¬ (held ≡ [] ∷ [])
    → parse_entries (join b',' held) ≡ held
unfolding parse_entries join
parse_entries-join [] f h = refl
parse_entries-join ([] ∷ []) f h = absurd (h refl)
parse_entries-join ([] ∷ u ∷ ts) f h = split-join b',' [] (u ∷ ts) f
parse_entries-join ((c ∷ t) ∷ []) f h = split-join b',' (c ∷ t) [] f
parse_entries-join ((c ∷ t) ∷ u ∷ ts) f h = split-join b',' (c ∷ t) (u ∷ ts) f

-- A number is not printed as a word.
same_text-show_ℤ : (z : ℤ) → same_text (show_ℤ z) (codes "none") ≡ false
unfolding show_ℤ
same_text-show_ℤ (pos n) = let (c, t, e, d) = show_ℕ-cons n in ground (arith, e, d)
same_text-show_ℤ (negsuc n) = refl

parse_optional_i32-kv_value_msg :
    (value : Option ℤ) → FitsOption value → parse_optional_i32 (kv_value_msg value) ≡ value
unfolding parse_optional_i32 kv_value_msg
parse_optional_i32-kv_value_msg none h = refl
parse_optional_i32-kv_value_msg (some z) h =
    ground (arith, same_text-show_ℤ z, parse_ℤ-show_ℤ i32_bound z h)

-- The numbers that all lines hold are read back.
module _ (id invoke complete : ℕ) (h : IsU64 id × IsU64 invoke × IsU64 complete) where
  numbers :
      (parse_ℕ u64_mod (show_ℕ id) ≡ some id)
      × (parse_ℕ u64_mod (show_ℕ invoke) ≡ some invoke)
      × (parse_ℕ u64_mod (show_ℕ complete) ≡ some complete)
  numbers = (
    parse_ℕ-show_ℕ u64_mod id h.0,
    parse_ℕ-show_ℕ u64_mod invoke h.1,
    parse_ℕ-show_ℕ u64_mod complete h.2,
  )

parse_kv_line-to_history_line :
    (op : RecordedOp) → IsEncodable op → parse_kv_line (to_history_line op) ≡ kv_record op
unfolding parse_kv_line
parse_kv_line-to_history_line (kv_put id process value invoke complete) h =
    let n = numbers id invoke complete (h.0, h.1, h.2) in
    let v = parse_ℤ-show_ℤ i32_bound value h.3 in
    ground (arith, split-to_history_line (kv_put id process value invoke complete) h, n, v)
parse_kv_line-to_history_line (kv_get id process value invoke complete) h =
    let n = numbers id invoke complete (h.0, h.1, h.2) in
    let v = parse_optional_i32-kv_value_msg value h.3 in
    ground (arith, split-to_history_line (kv_get id process value invoke complete) h, n, v)
parse_kv_line-to_history_line (log_append id process value at invoke complete) h =
    ground (arith, split-to_history_line (log_append id process value at invoke complete) h)
parse_kv_line-to_history_line (log_read id process held invoke complete) h =
    ground (arith, split-to_history_line (log_read id process held invoke complete) h)

parse_log_line-to_history_line :
    (op : RecordedOp) → IsEncodable op → parse_log_line (to_history_line op) ≡ log_record op
unfolding parse_log_line
parse_log_line-to_history_line (kv_put id process value invoke complete) h =
    ground (arith, split-to_history_line (kv_put id process value invoke complete) h)
parse_log_line-to_history_line (kv_get id process value invoke complete) h =
    ground (arith, split-to_history_line (kv_get id process value invoke complete) h)
parse_log_line-to_history_line (log_append id process value at invoke complete) h =
    let n = numbers id invoke complete (h.0, h.1, h.2) in
    let v = parse_ℕ-show_ℕ u64_mod at h.3 in
    ground (arith, split-to_history_line (log_append id process value at invoke complete) h, n, v)
parse_log_line-to_history_line (log_read id process held invoke complete) h =
    let n = numbers id invoke complete (h.0, h.1, h.2) in
    let v = parse_entries-join held h.4 h.5 in
    ground (arith, split-to_history_line (log_read id process held invoke complete) h, n, v)

-- The lines of recorded operations whose numbers are in range and whose log texts hold no
-- separator, and no log read of a single empty text among them: the key-value parser reads back
-- exactly the key-value operations and the log parser exactly the log operations, in order, each
-- with its values and times, under process 3.
pub history_lines :
    (ops : List RecordedOp)
    → All IsEncodable ops
    → (single_key_kv_history (map to_history_line ops) ≡ filter_map kv_record ops)
      × (append_log_history (map to_history_line ops) ≡ filter_map log_record ops)
unfolding single_key_kv_history append_log_history
history_lines ops h = (
  filter_map-map IsEncodable parse_kv_line to_history_line kv_record ops
      parse_kv_line-to_history_line h,
  filter_map-map IsEncodable parse_log_line to_history_line log_record ops
      parse_log_line-to_history_line h,
)
