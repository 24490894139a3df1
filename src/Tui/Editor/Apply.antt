-- ===== src/Tui/Editor/Apply.antt =====
-- crates/rupi-tui/src/editor.rs: what an intent does.
use pi_rs.Prelude.{ℕ, Bool, true, not, none, List, [], ◌∷◌, ◌++◌, is_empty, if◌then◌else◌}
use pi_rs.Prelude.Text.{Text, text_eq, trim}
use pi_rs.Tui.Editor.{
  Editor, Intent, insert, paste, insert_newline, backspace, delete_forward, delete_to_line_start,
  delete_to_line_end, delete_word_backward, move_word_left, move_word_right, submit, complete,
  cancel, noop, Outcome, changed, unchanged, submitted, cancelled, text, editor_is_empty, reset,
  recall_reset_on_edit,
}
use pi_rs.Tui.Editor.Buffer.{
  insert_str, split_line, delete_backward, delete_ahead, delete_to_start, delete_to_end,
}
use pi_rs.Tui.Editor.Complete.{complete_word}
use pi_rs.Tui.Editor.Motion
use pi_rs.Tui.Editor.Words

abbrev pub outcome_of : Editor × Bool → Editor × Outcome
outcome_of (e, done) = (e, if done then changed else unchanged)

-- `history.last().is_none_or(|last| last != &text)`
unfoldable pub is_new : List Text → Text → Bool
is_new [] t = true
is_new (last ∷ []) t = not (text_eq last t)
is_new (old ∷ next ∷ rest) t = is_new (next ∷ rest) t

unfoldable pub submit_text : Editor → Text → Editor × Outcome
unfolding is_new
submit_text e t = if is_empty t then (e, unchanged) else (
  reset (record e { history = if is_new e.history t then e.history ++ t ∷ [] else e.history }),
  submitted t,
)

-- Any intent but `Complete` ends a completion cycle.
unfoldable pub end_cycle : Intent → Editor → Editor
end_cycle complete e = e
end_cycle _ e = record e { completion = none }

module _ (is_alphanumeric : ℕ → Bool) where
  -- The `match` of `apply`, on the editor whose completion cycle is closed.
  unfoldable pub apply_closed : Editor → Intent → Editor × Outcome
  unfolding submit_text
  apply_closed e complete = complete_word e
  apply_closed e (insert c) = (insert_str (recall_reset_on_edit e) (c ∷ []), changed)
  apply_closed e (paste t) =
      if is_empty t then (e, unchanged) else (insert_str (recall_reset_on_edit e) t, changed)
  apply_closed e insert_newline = (split_line (recall_reset_on_edit e), changed)
  apply_closed e backspace = outcome_of (delete_backward (recall_reset_on_edit e))
  apply_closed e delete_forward = outcome_of (delete_ahead (recall_reset_on_edit e))
  apply_closed e delete_to_line_start = outcome_of (delete_to_start (recall_reset_on_edit e))
  apply_closed e delete_to_line_end = outcome_of (delete_to_end (recall_reset_on_edit e))
  apply_closed e delete_word_backward =
      outcome_of (Words.delete_word is_alphanumeric (recall_reset_on_edit e))
  apply_closed e Intent.move_left = Motion.move_left e
  apply_closed e Intent.move_right = Motion.move_right e
  apply_closed e move_word_left = Words.move_word_left is_alphanumeric e
  apply_closed e move_word_right = Words.move_word_right is_alphanumeric e
  apply_closed e Intent.move_line_start = Motion.move_line_start e
  apply_closed e Intent.move_line_end = Motion.move_line_end e
  apply_closed e Intent.move_up = Motion.move_up e
  apply_closed e Intent.move_down = Motion.move_down e
  apply_closed e Intent.move_buffer_start = Motion.move_buffer_start e
  apply_closed e Intent.move_buffer_end = Motion.move_buffer_end e
  apply_closed e submit = submit_text e (trim (text e))
  apply_closed e cancel = if editor_is_empty e then (e, unchanged) else (reset e, cancelled)
  apply_closed e noop = (e, unchanged)

  unfoldable pub apply : Editor → Intent → Editor × Outcome
  unfolding apply_closed end_cycle
  apply e intent = apply_closed (end_cycle intent e) intent
