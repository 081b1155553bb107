-- ===== src/Stream/Transcript.antt =====
-- The labels of a stream's transcript.
use detersim.Prelude.{List, map, ◌++◌}
use detersim.Text.{Text, codes, show_ℕ}
use detersim.Stream.{
  StreamEvent, StreamTranscript, disconnected, reconnected, blocked, dropped, enqueued, duplicated,
  delayed, delivered,
}

unfoldable pub label : StreamEvent → Text
label disconnected = codes "stream:disconnect"
label reconnected = codes "stream:reconnect"
label (blocked seq) = codes "stream:blocked:seq=" ++ show_ℕ seq
label (dropped seq) = codes "stream:drop:seq=" ++ show_ℕ seq
label (enqueued seq) = codes "stream:enqueue:seq=" ++ show_ℕ seq
label (duplicated seq) = codes "stream:duplicate:seq=" ++ show_ℕ seq
label (delayed seq after_seq) =
    codes "stream:delay:seq=" ++ (show_ℕ seq ++ (codes ":after=" ++ show_ℕ after_seq))
label (delivered from to seq) =
    codes "stream:deliver:"
    ++ (show_ℕ from ++ (codes "->" ++ (show_ℕ to ++ (codes ":seq=" ++ show_ℕ seq))))

unfoldable pub to_history_lines : StreamTranscript → List Text
unfolding label
to_history_lines t = map label t.events
