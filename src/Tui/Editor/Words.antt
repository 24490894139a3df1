-- ===== src/Tui/Editor/Words.antt =====
-- crates/rupi-tui/src/editor.rs: words, and the motions and edits by words. `char::is_alphanumeric` is
-- the parameter of the section.
use pi_rs.Prelude.{
  ℕ, zero, suc, ◌+◌, ◌-◌, Bool, true, not, ◌&&◌, ◌||◌, Option, none, some, [], ◌∷◌, ◌++◌, length,
  get_or, take, drop, ltb, ◌==◌, if◌then◌else◌,
}
use pi_rs.Prelude.Text.{Text, is_whitespace}
use pi_rs.Tui.Editor.{Editor, Cursor, Outcome, changed, unchanged, line_at, current}
use pi_rs.Tui.Editor.Buffer.{with_line, delete_backward}

-- `while index > 0 && test(chars[index - 1]) { index -= 1 }`
unfoldable pub back_while : (ℕ → Bool) → Text → ℕ → ℕ
back_while test chars zero = 0
back_while test chars (suc i) =
    let lower = back_while test chars i in if test (get_or chars i 0) then lower else suc i

-- `while index < chars.len() && test(chars[index]) { index += 1 }`, by the rounds left.
unfoldable pub forward_while : (ℕ → Bool) → Text → ℕ → ℕ → ℕ
forward_while test chars zero i = i
forward_while test chars (suc rounds) i =
    let higher = forward_while test chars rounds (i + 1) in
    if test (get_or chars i 0) then higher else i

unfoldable pub indent_width : Text → ℕ
unfolding is_whitespace
indent_width [] = 0
indent_width (c ∷ line) = if is_whitespace c then suc (indent_width line) else 0

-- `self.cursor == before`
abbrev pub cursor_eq : Cursor → Cursor → Bool
cursor_eq a b = a.line == b.line && a.column == b.column

module _ (is_alphanumeric : ℕ → Bool) where
  unfoldable pub is_word_char : ℕ → Bool
  is_word_char c = is_alphanumeric c || c == b'_'

  unfoldable pub word_boundary : Text → ℕ → ℕ
  unfolding back_while is_word_char
  word_boundary line column =
      let chars = take column line in
      back_while is_word_char chars (back_while (λ c. not (is_word_char c)) chars (length chars))

  -- The position that both loops reach; `None` is told apart by its not being beyond `column`.
  unfoldable pub word_end_at : Text → ℕ → ℕ
  unfolding forward_while is_word_char
  word_end_at line column =
      let from = forward_while (λ c. not (is_word_char c)) line (length line - column) column in
      forward_while is_word_char line (length line - from) from

  unfoldable pub word_end : Text → ℕ → Option ℕ
  unfolding word_end_at
  word_end line column =
      if ltb column (word_end_at line column) then some (word_end_at line column) else none

  unfoldable pub delete_word : Editor → Editor × Bool
  unfolding word_boundary
  delete_word e = if e.cursor.column == 0 then delete_backward e else (
    record (with_line e (
        take (word_boundary (current e) e.cursor.column) (current e)
        ++ drop e.cursor.column (current e))) {
          cursor = record e.cursor { column = word_boundary (current e) e.cursor.column };
        },
    true,
  )

  -- The loop of `move_word(-1)` from (line, column): a line edge is crossed only at column 0, and
  -- leads to the end of the line above.
  unfoldable pub word_left : Editor → ℕ → ℕ → Cursor
  unfolding word_boundary
  word_left e zero column = record { line = 0; column = word_boundary (line_at e 0) column }
  word_left e (suc line) column =
      let above = word_left e line (length (line_at e line)) in
      if column == 0
      then above
      else record { line = suc line; column = word_boundary (line_at e (suc line)) column }

  unfoldable pub or_column : Option ℕ → ℕ → ℕ
  or_column none column = column
  or_column (some to) column = to

  -- The loop of `move_word(1)`; `below` is the number of lines below the caret's.
  unfoldable pub word_right : Editor → ℕ → ℕ → ℕ → Cursor
  unfolding word_end or_column
  word_right e zero line column = record {
    line = line;
    column = or_column (word_end (line_at e line) column) column;
  }
  word_right e (suc below) line column =
      let next = word_right e below (line + 1) 0 in
      if column == length (line_at e line)
      then next
      else record { line = line; column = or_column (word_end (line_at e line) column) column }

  abbrev moved : Editor → Cursor → Editor × Outcome
  moved e to = (
    record e { desired = none; cursor = to },
    if cursor_eq to e.cursor then unchanged else changed,
  )

  unfoldable pub move_word_left : Editor → Editor × Outcome
  move_word_left e = moved e (word_left e e.cursor.line e.cursor.column)

  unfoldable pub move_word_right : Editor → Editor × Outcome
  move_word_right e =
      moved e (word_right e (length e.lines - suc e.cursor.line) e.cursor.line e.cursor.column)
