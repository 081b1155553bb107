-- ===== src/World/Report/Outcome.antt =====
-- The outcome of a run, in the flags of the report and in the coverage signals.
use Prim.Native.String.{String}
use detersim.Prelude.{
  ◌≡◌, refl, ◌∙◌, Bool, true, false, not, ◌&&◌, ◌||◌, Option, none, some, List, [], ◌∷◌, ◌++◌, map,
  filter_map, ◌==◌, arith, Bool-cases, Option-cases, inl, inr, All, All-append,
}
use detersim.Tape.{TapeEvent, events}
use detersim.Text.{Text, codes, same_text}
use detersim.Text.Search.{
  member_text, insert_texts, split_once, contains_text, first_word, is_alphanumeric,
}
use detersim.Text.Sets.{member-insert_text, member-insert_texts}
use detersim.World.{Inner, Message}
use detersim.World.Report.{
  run_report, semantic_coverage, outcome_signal, is_aborted, is_deadlocked, line_signals, all_lines,
  nemesis_signal, history_signal, tape_signal, trace_edge, trace_drop_kind, named, noted,
  trace_text, history_text, debug_action,
}

-- Not one of the outcomes: it begins with another letter.
abbrev IsOther : Text → Type 0
IsOther [] = Unit
IsOther (c ∷ t) = (c == b'o') ≡ false

named-IsOther :
    (prefix : String) (name : Option Text)
    → ((t : Text) → IsOther (codes prefix ++ t))
    → All IsOther (named prefix name)
named-IsOther prefix none h = tt
named-IsOther prefix (some name) h = (h name, tt)

noted-IsOther : (b : Bool) (signal : String) → IsOther (codes signal) → All IsOther (noted b signal)
noted-IsOther true signal h = (h, tt)
noted-IsOther false signal h = tt

line_signals-IsOther : (line : Text) → All IsOther (line_signals line)
unfolding line_signals
line_signals-IsOther line =
    let both = All-append IsOther in
    both _ _ (named-IsOther "message-edge:" (trace_edge line) (λ t. refl)) (
      both _ _ (named-IsOther "network:" (trace_drop_kind line) (λ t. refl)) (
        both _ _ (noted-IsOther (contains_text (codes "timer fire=") line) "timer:fire" refl) (
          both _ _ (noted-IsOther (contains_text (codes "poll task=") line) "task:poll" refl)
            (noted-IsOther (contains_text (codes " nemesis ") line) "nemesis:event" refl))))

all_lines-IsOther : (lines : List Text) → All IsOther (all_lines lines)
all_lines-IsOther [] = tt
all_lines-IsOther (line ∷ lines) =
    All-append IsOther (line_signals line) _ (line_signals-IsOther line) (all_lines-IsOther lines)

nemesis_signals-IsOther : (entries : List Text) → All IsOther (filter_map nemesis_signal entries)
unfolding nemesis_signal
nemesis_signals-IsOther [] = tt
nemesis_signals-IsOther (entry ∷ entries) =
    elim (Option-cases (first_word (λ c. is_alphanumeric c || (c == b'_')) entry)) [
      | inl e ↦ rw (e, filter_map) (nemesis_signals-IsOther entries)
      | inr (kind, e) ↦ rw (e, filter_map) (refl, nemesis_signals-IsOther entries)
    ]

history_signals-IsOther : (entries : List Text) → All IsOther (map history_signal entries)
unfolding history_signal
history_signals-IsOther [] = tt
history_signals-IsOther (entry ∷ entries) = elim (Option-cases (split_once (codes ":") entry)) [
  | inl e ↦ (rw (e, history_signal) refl, history_signals-IsOther entries)
  | inr (parts, e) ↦ (rw (e, history_signal) refl, history_signals-IsOther entries)
]

tape_signals-IsOther : (es : List TapeEvent) → All IsOther (map tape_signal es)
tape_signals-IsOther [] = tt
tape_signals-IsOther (e ∷ es) = (refl, tape_signals-IsOther es)

member-other :
    (word : Text) (ts : List Text) → All IsOther ts → member_text (b'o' ∷ word) ts ≡ false
member-other word [] h = refl
member-other word ([] ∷ ts) h = member-other word ts h.1
member-other word ((c ∷ t) ∷ ts) h = ground (arith, member-other word ts h.1, h.0)

member-insert_other :
    (word : Text) (ts s : List Text)
    → All IsOther ts
    → member_text (b'o' ∷ word) (insert_texts ts s) ≡ member_text (b'o' ∷ word) s
member-insert_other word ts s h =
    ground (arith, member-insert_texts ts (b'o' ∷ word) s, member-other word ts h)

module _ {Fut : Type 0} (debug_message : Message → Text) (g : Inner Fut) where
  member-semantic_coverage :
      (word : Text)
      → member_text (b'o' ∷ word) (semantic_coverage debug_message g)
        ≡ same_text (outcome_signal debug_message g) (b'o' ∷ word)
  unfolding semantic_coverage
  member-semantic_coverage word =
      let lines = map (trace_text debug_message) g.trace in
      member-insert_other word (all_lines lines) _ (all_lines-IsOther lines)
      ∙ member-insert_other word _ _ (history_signals-IsOther (map history_text g.history))
      ∙ member-insert_other word _ _ (nemesis_signals-IsOther (map debug_action g.nemesis_trace))
      ∙ member-insert_other word _ _ (tape_signals-IsOther (events g.tape))
      ∙ member-insert_text (outcome_signal debug_message g) (b'o' ∷ word) []
      ∙ ground arith

  -- The coverage signals of a report name its outcome, and only that one: aborted when the report
  -- says so, deadlocked when it says that and not that the run was aborted, quiesced when neither.
  pub run_report_outcome :
      let r = run_report debug_message g in
      (member_text (codes "outcome:aborted") r.coverage_signals ≡ r.aborted)
      × (member_text (codes "outcome:deadlocked") r.coverage_signals
          ≡ (not r.aborted && r.deadlocked))
      × (member_text (codes "outcome:quiesced") r.coverage_signals
          ≡ (not r.aborted && not r.deadlocked))
  unfolding run_report outcome_signal
  run_report_outcome =
      let m = member-semantic_coverage in
      elim (Bool-cases (is_aborted debug_message g)) [
        | inl over ↦ (m _ ∙ rw over refl, m _ ∙ rw over refl, m _ ∙ rw over refl)
        | inr more ↦ elim (Bool-cases (is_deadlocked debug_message g)) [
          | inl stuck ↦ (
            m _ ∙ rw (more, stuck) refl,
            m _ ∙ rw (more, stuck) refl,
            m _ ∙ rw (more, stuck) refl,
          )
          | inr free ↦
              (m _ ∙ rw (more, free) refl, m _ ∙ rw (more, free) refl, m _ ∙ rw (more, free) refl)
        ]
      ]
