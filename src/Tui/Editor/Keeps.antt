-- ===== src/Tui/Editor/Keeps.antt =====
-- crates/rupi-tui/src/editor.rs: `apply`, for every intent.
use pi_rs.Prelude.{
  ℕ, sym, subst, Bool, none, List, [], ◌∷◌, ◌++◌, arith, length, is_empty, take, drop, length-take,
  ◌==◌, leb,
}
use pi_rs.Prelude.Text.{Text, trim, AllLack-get_or, Lacks-take, Lacks-drop}
use pi_rs.Tui.Editor.{
  Editor, Intent, insert, paste, insert_newline, backspace, delete_forward, delete_to_line_start,
  delete_to_line_end, delete_word_backward, move_word_left, move_word_right, submit, complete,
  cancel, noop, text, editor_is_empty, reset, recall_reset_on_edit, current,
}
use pi_rs.Tui.Editor.Apply.{apply, apply_closed, end_cycle, submit_text}
use pi_rs.Tui.Editor.Buffer.{
  split_line, delete_backward, delete_ahead, delete_to_start, delete_to_end,
}
use pi_rs.Tui.Editor.ByRow.{move_up-IsValid, move_down-IsValid}
use pi_rs.Tui.Editor.ByWord.{
  line-IsValid, delete_word-IsValid, move_word_left-IsValid, move_word_right-IsValid,
}
use pi_rs.Tui.Editor.Caret.{
  choose-IsValid, move_left-IsValid, move_right-IsValid, move_line_start-IsValid,
  move_line_end-IsValid, move_buffer_start-IsValid, move_buffer_end-IsValid,
}
use pi_rs.Tui.Editor.Deletes.{
  delete_backward-ErasesBefore, delete_ahead-ErasesAfter, ErasesBefore-IsValid, ErasesAfter-IsValid,
}
use pi_rs.Tui.Editor.Edits.{insert_str-Typed, with_above}
use pi_rs.Tui.Editor.Tab.{closed-IsValid, complete_word-IsValid}
use pi_rs.Tui.Editor.Valid.{IsValid, by_parts, at-IsValid}
use pi_rs.Tui.Editor.Zipper.{split_line-at}

recall_reset_on_edit-IsValid : (e : Editor) → IsValid e → IsValid (recall_reset_on_edit e)
unfolding recall_reset_on_edit
recall_reset_on_edit-IsValid e v = record {
  line_in = v.line_in;
  column_in = v.column_in;
  one_line = v.one_line;
  words = v.words;
  wide = v.wide;
  recalls = tt;
}

-- An empty buffer beside any history.
reset-IsValid :
    (e : Editor) (h : List Text) → IsValid e → IsValid (reset (record e { history = h }))
unfolding reset
reset-IsValid e h v = record {
  line_in = omega arith;
  column_in = omega arith;
  one_line = (tt, tt);
  words = v.words;
  wide = v.wide;
  recalls = tt;
}

split_line-IsValid : (e : Editor) → IsValid e → IsValid (split_line e)
split_line-IsValid e v =
    by_parts (λ e. IsValid (split_line e)) e v
      λ pre l r post p.
        subst IsValid (sym (split_line-at e pre l r post))
          (at-IsValid e (pre ++ l ∷ []) [] r post (with_above e pre l r post [] p tt))

delete_to_start-IsValid : (e : Editor) → IsValid e → IsValid (delete_to_start e).0
unfolding delete_to_start
delete_to_start-IsValid e v =
    choose-IsValid (e.cursor.column == 0) _ _ (λ _. v)
      λ _.
        line-IsValid e (drop e.cursor.column (current e)) 0 v
          (Lacks-drop b'\n' e.cursor.column (current e)
            (AllLack-get_or b'\n' e.lines e.cursor.line v.one_line))
          (omega arith)

delete_to_end-IsValid : (e : Editor) → IsValid e → IsValid (delete_to_end e).0
unfolding delete_to_end
delete_to_end-IsValid e v =
    choose-IsValid (leb (length (current e)) e.cursor.column) _ _ (λ _. v)
      λ _.
        line-IsValid e (take e.cursor.column (current e)) e.cursor.column v
          (Lacks-take b'\n' e.cursor.column (current e)
            (AllLack-get_or b'\n' e.lines e.cursor.line v.one_line))
          (omega (arith, length-take e.cursor.column (current e), v.column_in))

submit_text-IsValid : (e : Editor) (t : Text) → IsValid e → IsValid (submit_text e t).0
unfolding submit_text
submit_text-IsValid e t v = choose-IsValid (is_empty t) _ _ (λ _. v) λ _. reset-IsValid e _ v

end_cycle-IsValid : (intent : Intent) (e : Editor) → IsValid e → IsValid (end_cycle intent e)
unfolding end_cycle
end_cycle-IsValid complete e v = v
end_cycle-IsValid _ e v = closed-IsValid e none v

module _ (is_alphanumeric : ℕ → Bool) where
  apply_closed-IsValid :
      (e : Editor) (intent : Intent) → IsValid e → IsValid (apply_closed is_alphanumeric e intent).0
  unfolding apply_closed
  apply_closed-IsValid e complete v = complete_word-IsValid e v
  apply_closed-IsValid e (insert c) v =
      (insert_str-Typed (recall_reset_on_edit e) (c ∷ [])
        (recall_reset_on_edit-IsValid e v)).typed_valid
  apply_closed-IsValid e (paste t) v =
      choose-IsValid (is_empty t) _ _ (λ _. v)
        (λ _.
          (insert_str-Typed (recall_reset_on_edit e) t
            (recall_reset_on_edit-IsValid e v)).typed_valid)
  apply_closed-IsValid e insert_newline v =
      split_line-IsValid (recall_reset_on_edit e) (recall_reset_on_edit-IsValid e v)
  apply_closed-IsValid e backspace v =
      ErasesBefore-IsValid (recall_reset_on_edit e) (delete_backward (recall_reset_on_edit e))
        (recall_reset_on_edit-IsValid e v)
        (delete_backward-ErasesBefore (recall_reset_on_edit e) (recall_reset_on_edit-IsValid e v))
  apply_closed-IsValid e delete_forward v =
      ErasesAfter-IsValid (recall_reset_on_edit e) (delete_ahead (recall_reset_on_edit e))
        (recall_reset_on_edit-IsValid e v)
        (delete_ahead-ErasesAfter (recall_reset_on_edit e) (recall_reset_on_edit-IsValid e v))
  apply_closed-IsValid e delete_to_line_start v =
      delete_to_start-IsValid (recall_reset_on_edit e) (recall_reset_on_edit-IsValid e v)
  apply_closed-IsValid e delete_to_line_end v =
      delete_to_end-IsValid (recall_reset_on_edit e) (recall_reset_on_edit-IsValid e v)
  apply_closed-IsValid e delete_word_backward v =
      delete_word-IsValid is_alphanumeric (recall_reset_on_edit e)
        (recall_reset_on_edit-IsValid e v)
  apply_closed-IsValid e Intent.move_left v = move_left-IsValid e v
  apply_closed-IsValid e Intent.move_right v = move_right-IsValid e v
  apply_closed-IsValid e move_word_left v = move_word_left-IsValid is_alphanumeric e v
  apply_closed-IsValid e move_word_right v = move_word_right-IsValid is_alphanumeric e v
  apply_closed-IsValid e Intent.move_line_start v = move_line_start-IsValid e v
  apply_closed-IsValid e Intent.move_line_end v = move_line_end-IsValid e v
  apply_closed-IsValid e Intent.move_up v = move_up-IsValid e v
  apply_closed-IsValid e Intent.move_down v = move_down-IsValid e v
  apply_closed-IsValid e Intent.move_buffer_start v = move_buffer_start-IsValid e v
  apply_closed-IsValid e Intent.move_buffer_end v = move_buffer_end-IsValid e v
  apply_closed-IsValid e submit v = submit_text-IsValid e (trim (text e)) v
  apply_closed-IsValid e cancel v =
      choose-IsValid (editor_is_empty e) _ _ (λ _. v) (λ _. reset-IsValid e e.history v)
  apply_closed-IsValid e noop v = v

  -- Every intent keeps a valid editor valid, whatever `char::is_alphanumeric` says: the caret stays
  -- in the buffer, no line and no completion gets a newline in it, and what is recalled is in the
  -- history.
  pub apply-IsValid :
      (e : Editor) (intent : Intent) → IsValid e → IsValid (apply is_alphanumeric e intent).0
  unfolding apply
  apply-IsValid e intent v =
      apply_closed-IsValid (end_cycle intent e) intent (end_cycle-IsValid intent e v)
