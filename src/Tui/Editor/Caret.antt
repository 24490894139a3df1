-- ===== src/Tui/Editor/Caret.antt =====
-- crates/rupi-tui/src/editor.rs: the caret stays in the buffer, whichever way it moves.
use pi_rs.Prelude.{
  ℕ, ◌+◌, ◌-◌, ◌≤◌, ◌<◌, ◌≡◌, refl, Bool, true, false, Option, none, List, [], ◌∷◌, arith, length,
  get_or, ltb, leb, ◌==◌, ltb→lt, if◌then◌else◌,
}
use pi_rs.Prelude.Text.{Text}
use pi_rs.Tui.Editor.{Editor, Cursor, origin, line_at, current}
use pi_rs.Tui.Editor.Motion.{
  move_left, move_right, move_line_start, move_line_end, move_buffer_start, move_buffer_end,
}
use pi_rs.Tui.Editor.Valid.{IsValid}
use pi_rs.Tui.Editor.Words
use pi_rs.Tui.Editor.Words.{back_while, forward_while, indent_width}

-- A place in a buffer.
abbrev pub IsIn : List Text → Cursor → Type 0
IsIn lines c = (c.line < length lines) × (c.column ≤ length (get_or lines c.line []))

pub caret-IsIn : (e : Editor) → IsValid e → IsIn e.lines e.cursor
caret-IsIn e v = (v.line_in, v.column_in)

pub if-IsIn :
    (lines : List Text) (b : Bool) (x y : Cursor)
    → IsIn lines x
    → IsIn lines y
    → IsIn lines (if b then x else y)
if-IsIn lines true x y h k = h
if-IsIn lines false x y h k = k

-- The caret to a place in the buffer, and any aim for the moves by rows.
pub place-IsValid :
    (e : Editor) (d : Option ℕ) (c : Cursor)
    → IsValid e
    → IsIn e.lines c
    → IsValid (record e { desired = d; cursor = c })
place-IsValid e d c v h = record {
  line_in = h.0;
  column_in = h.1;
  one_line = v.one_line;
  words = v.words;
  wide = v.wide;
  recalls = v.recalls;
}

-- The same where a test decides between two outcomes.
pub choose-IsValid {ℓ} :
    {R : Type ℓ} (b : Bool) (p q : Editor × R)
    → (b ≡ true → IsValid p.0)
    → (b ≡ false → IsValid q.0)
    → IsValid (if b then p else q).0
choose-IsValid true p q h k = h refl
choose-IsValid false p q h k = k refl

pub free-IsValid : (e : Editor) → IsValid e → IsValid (record e { desired = none })
free-IsValid e v = place-IsValid e none e.cursor v (caret-IsIn e v)

pub move_left-IsValid : (e : Editor) → IsValid e → IsValid (move_left e).0
unfolding move_left
move_left-IsValid e v =
    choose-IsValid (ltb 0 e.cursor.column) _ _
      (λ _. place-IsValid e none _ v (v.line_in, omega (arith, v.column_in)))
      (λ _.
        choose-IsValid (ltb 0 e.cursor.line) _ _
          (λ _. place-IsValid e none _ v (omega (arith, v.line_in), omega arith))
          (λ _. free-IsValid e v))

pub move_right-IsValid : (e : Editor) → IsValid e → IsValid (move_right e).0
unfolding move_right
move_right-IsValid e v =
    choose-IsValid (ltb e.cursor.column (length (current e))) _ _
      (λ h. place-IsValid e none _ v (v.line_in, omega (arith, ltb→lt _ _ h)))
      (λ _.
        choose-IsValid (ltb (e.cursor.line + 1) (length e.lines)) _ _
          (λ h. place-IsValid e none _ v (ltb→lt _ _ h, omega arith)) (λ _. free-IsValid e v))

indent_width_le : (line : Text) → indent_width line ≤ length line
unfolding indent_width
indent_width_le [] = omega arith
indent_width_le (c ∷ line) = ground (arith, indent_width_le line)

-- To a column of the caret's line.
column-IsIn :
    (e : Editor) (n : ℕ)
    → IsValid e
    → n ≤ length (current e)
    → IsIn e.lines (record e.cursor { column = n })
column-IsIn e n v h = (v.line_in, h)

pub move_line_end-IsValid : (e : Editor) → IsValid e → IsValid (move_line_end e).0
unfolding move_line_end
move_line_end-IsValid e v =
    choose-IsValid (e.cursor.column == length (current e)) _ _ (λ _. free-IsValid e v)
      λ _. place-IsValid e none _ v (column-IsIn e _ v (omega arith))

pub move_line_start-IsValid : (e : Editor) → IsValid e → IsValid (move_line_start e).0
unfolding move_line_start
move_line_start-IsValid e v =
    choose-IsValid (e.cursor.column == target) _ _ (λ _. free-IsValid e v)
      λ _. place-IsValid e none _ v (column-IsIn e target v target_le)
  where
    target : ℕ
    target =
        if e.cursor.column == 0
        then length (current e)
        else if leb e.cursor.column (indent_width (current e))
        then 0
        else indent_width (current e)

    target_le : target ≤ length (current e)
    target_le = ground (arith, indent_width_le (current e))

pub move_buffer_start-IsValid : (e : Editor) → IsValid e → IsValid (move_buffer_start e).0
unfolding move_buffer_start
move_buffer_start-IsValid e v =
    choose-IsValid (Words.cursor_eq e.cursor origin) _ _ (λ _. free-IsValid e v)
      λ _. place-IsValid e none origin v (omega (arith, v.line_in), omega arith)

pub move_buffer_end-IsValid : (e : Editor) → IsValid e → IsValid (move_buffer_end e).0
unfolding move_buffer_end
move_buffer_end-IsValid e v =
    choose-IsValid (Words.cursor_eq e.cursor to) _ _ (λ _. free-IsValid e v)
      λ _. place-IsValid e none to v (omega (arith, v.line_in), omega arith)
  where
    to : Cursor
    to = record { line = length e.lines - 1; column = length (line_at e (length e.lines - 1)) }
