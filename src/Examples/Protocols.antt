-- ===== src/Examples/Protocols.antt =====
-- The history lines of a small run.
use detersim.Prelude.{◌≡◌, refl, none, List, [], ◌∷◌, map, filter_map, negsuc, All, arith}
use detersim.Text.{Text, codes}
use detersim.Text
use detersim.Protocols.History.{
  RecordedOp, kv_put, kv_get, log_append, log_read, to_history_line, single_key_kv_history,
  append_log_history, parse_log_line,
}
use detersim.Protocols.History.Parts.{IsEncodable, kv_record, log_record}
use detersim.Protocols.History.Lines.{history_lines}

abbrev ops : List RecordedOp
ops =
    kv_put 1 4 (negsuc 6) 10 25
    ∷ log_append 2 4 (codes "x") 0 30 40
    ∷ kv_get 3 4 none 41 42
    ∷ log_read 4 4 (codes "x" ∷ codes "y" ∷ []) 43 50
    ∷ []

lines :
    map to_history_line ops
    ≡ codes "kv:1:put:-7:ok:10:25"
      ∷ codes "log:2:append:x:index:0:30:40"
      ∷ codes "kv:3:get:none:value:41:42"
      ∷ codes "log:4:read:x,y:entries:43:50"
      ∷ []
unfolding to_history_line Text.show_ℤ Text.join
lines = refl

-- A separator inside a text breaks the line.
lost_line : parse_log_line (to_history_line (log_append 2 4 (codes "a:b") 0 30 40)) ≡ none
unfolding to_history_line parse_log_line Text.split Text.show_ℕ Text.parse_ℕ
lost_line = refl

ops-IsEncodable : All IsEncodable ops
ops-IsEncodable = ground arith

history_lines_example :
    (single_key_kv_history (map to_history_line ops) ≡ filter_map kv_record ops)
    × (append_log_history (map to_history_line ops) ≡ filter_map log_record ops)
history_lines_example = history_lines ops ops-IsEncodable
