-- ===== src/Tui/Editor/ByWord.antt =====
-- crates/rupi-tui/src/editor.rs: moves and deletion by words keep the caret in the buffer.
use pi_rs.Prelude.{
  ℕ, zero, suc, ◌+◌, ◌-◌, ◌≤◌, ◌<◌, ◌≡◌, ap, Bool, not, none, [], ◌++◌, arith, length, get_or, take,
  drop, length-take, length-append, ◌==◌, length-set, set, get_or-set,
}
use pi_rs.Prelude.Text.{
  Text, Lacks, AllLack-get_or, AllLack-set, Lacks-take, Lacks-drop, Lacks-append,
}
use pi_rs.Tui.Editor.{Editor, line_at, current}
use pi_rs.Tui.Editor.Buffer.{with_line}
use pi_rs.Tui.Editor.Deletes.{delete_backward-ErasesBefore, ErasesBefore-IsValid}
use pi_rs.Tui.Editor.Caret.{choose-IsValid, IsIn, if-IsIn, place-IsValid}
use pi_rs.Tui.Editor.Valid.{IsValid}
use pi_rs.Tui.Editor.Words
use pi_rs.Tui.Editor.Words.{back_while, forward_while}

back_while_le : (test : ℕ → Bool) (chars : Text) (n : ℕ) → back_while test chars n ≤ n
unfolding back_while
back_while_le test chars zero = omega arith
back_while_le test chars (suc n) = ground (arith, back_while_le test chars n)

forward_while_le :
    (test : ℕ → Bool) (chars : Text) (rounds i : ℕ) → forward_while test chars rounds i ≤ rounds + i
unfolding forward_while
forward_while_le test chars zero i = omega arith
forward_while_le test chars (suc rounds) i =
    ground (arith, forward_while_le test chars rounds (i + 1))

-- Another text for the caret's line, and a place in it.
pub line-IsValid :
    (e : Editor) (t : Text) (n : ℕ)
    → IsValid e
    → Lacks b'\n' t
    → n ≤ length t
    → IsValid (record (with_line e t) { cursor = record e.cursor { column = n } })
line-IsValid e t n v h k = record {
  line_in = omega (arith, length-set e.lines e.cursor.line t, v.line_in);
  column_in =
      let same : length (get_or (set e.lines e.cursor.line t) e.cursor.line []) ≡ length t =
        ap length (get_or-set e.lines e.cursor.line t [] v.line_in) in
      omega (arith, same);
  one_line = AllLack-set b'\n' e.lines e.cursor.line t v.one_line h;
  words = v.words;
  wide = v.wide;
  recalls = v.recalls;
}

module _ (is_alphanumeric : ℕ → Bool) where
  boundary_le :
      (line : Text) (column : ℕ)
      → (Words.word_boundary is_alphanumeric line column ≤ column)
        × (Words.word_boundary is_alphanumeric line column ≤ length line)
  unfolding Words.word_boundary
  boundary_le line column =
      let chars = take column line in
      let is_word = Words.is_word_char is_alphanumeric in
      let skipped = back_while (λ c. not (is_word c)) chars (length chars) in
      let a = back_while_le (λ c. not (is_word c)) chars (length chars) in
      let b = back_while_le is_word chars skipped in
      (omega (arith, a, b, length-take column line), omega (arith, a, b, length-take column line))

  word_end_le :
      (line : Text) (column : ℕ)
      → column ≤ length line
      → Words.word_end_at is_alphanumeric line column ≤ length line
  unfolding Words.word_end_at
  word_end_le line column h =
      let is_word = Words.is_word_char is_alphanumeric in
      let from = forward_while (λ c. not (is_word c)) line (length line - column) column in
      omega (
        arith,
        forward_while_le (λ c. not (is_word c)) line (length line - column) column,
        forward_while_le is_word line (length line - from) from,
      )

  to_word_end_le :
      (line : Text) (column : ℕ)
      → column ≤ length line
      → Words.or_column is_alphanumeric (Words.word_end is_alphanumeric line column) column
        ≤ length line
  unfolding Words.or_column Words.word_end
  to_word_end_le line column h = ground (arith, word_end_le line column h)

  word_left-IsIn :
      (e : Editor) (line column : ℕ)
      → line < length e.lines
      → IsIn e.lines (Words.word_left is_alphanumeric e line column)
  unfolding Words.word_left
  word_left-IsIn e zero column h = (h, (boundary_le (line_at e 0) column).1)
  word_left-IsIn e (suc line) column h =
      let above = word_left-IsIn e line (length (line_at e line)) (omega arith) in
      let here = (boundary_le (line_at e (suc line)) column).1 in
      if-IsIn e.lines (column == 0) _ _ above (h, here)

  word_right-IsIn :
      (e : Editor) (below line column : ℕ)
      → line + below < length e.lines
      → column ≤ length (line_at e line)
      → IsIn e.lines (Words.word_right is_alphanumeric e below line column)
  unfolding Words.word_right
  word_right-IsIn e zero line column h k = (omega arith, to_word_end_le (line_at e line) column k)
  word_right-IsIn e (suc below) line column h k =
      let next = word_right-IsIn e below (line + 1) 0 (omega arith) (omega arith) in
      let here = to_word_end_le (line_at e line) column k in
      if-IsIn e.lines (column == length (line_at e line)) _ _ next (omega arith, here)

  pub move_word_left-IsValid :
      (e : Editor) → IsValid e → IsValid (Words.move_word_left is_alphanumeric e).0
  unfolding Words.move_word_left
  move_word_left-IsValid e v =
      place-IsValid e none _ v (word_left-IsIn e e.cursor.line e.cursor.column v.line_in)

  pub move_word_right-IsValid :
      (e : Editor) → IsValid e → IsValid (Words.move_word_right is_alphanumeric e).0
  unfolding Words.move_word_right
  move_word_right-IsValid e v = place-IsValid e none _ v (
      word_right-IsIn e (length e.lines - suc e.cursor.line) e.cursor.line e.cursor.column
        (omega (arith, v.line_in)) v.column_in)

  pub delete_word-IsValid :
      (e : Editor) → IsValid e → IsValid (Words.delete_word is_alphanumeric e).0
  unfolding Words.delete_word
  delete_word-IsValid e v =
      let line = current e in
      let from = Words.word_boundary is_alphanumeric line e.cursor.column in
      let bounds = boundary_le line e.cursor.column in
      let lacks = AllLack-get_or b'\n' e.lines e.cursor.line v.one_line in
      choose-IsValid (e.cursor.column == 0) _ _
        (λ _. ErasesBefore-IsValid e _ v (delete_backward-ErasesBefore e v))
        λ _.
          line-IsValid e (take from line ++ drop e.cursor.column line) from v
            (Lacks-append b'\n' _ _ (Lacks-take b'\n' from line lacks)
              (Lacks-drop b'\n' e.cursor.column line lacks))
            (omega (
              arith,
              length-append (take from line) (drop e.cursor.column line),
              length-take from line,
              bounds.1,
            ))
