-- ===== src/Tui/Editor/Motion.antt =====
-- crates/rupi-tui/src/editor.rs: caret motion, and the recall of earlier input.
use pi_rs.Prelude.{
  ℕ, zero, suc, ◌+◌, ◌-◌, Option, none, some, List, [], ◌∷◌, length, get_elem?, get_or, leb, ltb,
  ◌==◌, if◌then◌else◌,
}
use pi_rs.Prelude.Text.{Text}
use pi_rs.Tui.Editor.{Editor, Cursor, Outcome, changed, unchanged, origin, line_at, current, text}
use pi_rs.Tui.Editor.Buffer.{split_first, split_rest}
use pi_rs.Tui.Editor.Rows.{Row, buffer_rows, caret_row, column_at}
use pi_rs.Tui.Editor.Words.{indent_width, cursor_eq}

unfoldable pub move_left : Editor → Editor × Outcome
move_left e =
    let free = record e { desired = none } in
    if ltb 0 e.cursor.column
    then (record free { cursor = record e.cursor { column = e.cursor.column - 1 } }, changed)
    else if ltb 0 e.cursor.line
    then (
      record free {
        cursor = record {
          line = e.cursor.line - 1;
          column = length (line_at e (e.cursor.line - 1));
        };
      },
      changed,
    )
    else (free, unchanged)

unfoldable pub move_right : Editor → Editor × Outcome
move_right e =
    let free = record e { desired = none } in
    if ltb e.cursor.column (length (current e))
    then (record free { cursor = record e.cursor { column = e.cursor.column + 1 } }, changed)
    else if ltb (e.cursor.line + 1) (length e.lines)
    then (record free { cursor = record { line = e.cursor.line + 1; column = 0 } }, changed)
    else (free, unchanged)

-- A move to `target` on the caret's line.
abbrev to_column : Editor → ℕ → Editor × Outcome
to_column e target =
    if e.cursor.column == target
    then (record e { desired = none }, unchanged)
    else (record e { desired = none; cursor = record e.cursor { column = target } }, changed)

unfoldable pub move_line_start : Editor → Editor × Outcome
unfolding indent_width
move_line_start e = to_column e (
    if e.cursor.column == 0
    then length (current e)
    else if leb e.cursor.column (indent_width (current e))
    then 0
    else indent_width (current e))

unfoldable pub move_line_end : Editor → Editor × Outcome
move_line_end e = to_column e (length (current e))

abbrev to_cursor : Editor → Cursor → Editor × Outcome
to_cursor e target =
    if cursor_eq e.cursor target
    then (record e { desired = none }, unchanged)
    else (record e { desired = none; cursor = target }, changed)

unfoldable pub move_buffer_start : Editor → Editor × Outcome
move_buffer_start e = to_cursor e origin

unfoldable pub move_buffer_end : Editor → Editor × Outcome
move_buffer_end e =
    to_cursor e
      (record { line = length e.lines - 1; column = length (line_at e (length e.lines - 1)) })

-- `text.split('\n')` is never empty: `split_first` and `split_rest` are its parts.
unfoldable pub load : Editor → Text → Editor
unfolding split_first split_rest
load e text = record e {
  lines = split_first text ∷ split_rest text;
  cursor = record {
    line = length (split_rest text);
    column = length (get_or (split_first text ∷ split_rest text) (length (split_rest text)) []);
  };
  desired = none;
}

-- `self.history[self.history.len() - 1 - recalled]`, and the load of it.
unfoldable pub load_recalled : Editor → ℕ → Editor × Outcome
unfolding load
load_recalled e recalled = (
  load (record e { recall = some recalled })
      (get_or e.history (length e.history - 1 - recalled) []),
  changed,
)

unfoldable pub next_recall : Option ℕ → ℕ
next_recall none = 0
next_recall (some recalled) = recalled + 1

-- What the draft is once recall goes on from `recall`.
unfoldable pub drafted : Editor → Option ℕ → Option Text
unfolding text
drafted e none = some (text e)
drafted e (some recalled) = e.draft

-- `recall(-1)`
unfoldable pub recall_older : Editor → Editor × Outcome
unfolding next_recall drafted load_recalled
recall_older e =
    if leb (length e.history) (next_recall e.recall)
    then (e, unchanged)
    else load_recalled (record e { draft = drafted e e.recall }) (next_recall e.recall)

abbrev pub or_default : Option Text → Text
or_default none = []
or_default (some draft) = draft

unfoldable pub newer_than : Editor → Option ℕ → Editor × Outcome
unfolding load load_recalled
newer_than e none = (e, unchanged)
newer_than e (some zero) =
    (load (record e { recall = none; draft = none }) (or_default e.draft), changed)
newer_than e (some (suc current)) = load_recalled e current

-- `recall(1)`
unfoldable pub recall_newer : Editor → Editor × Outcome
unfolding newer_than
recall_newer e = newer_than e e.recall

abbrev or_column : Option ℕ → ℕ → ℕ
or_column none column = column
or_column (some wanted) column = wanted

-- To a row of the display, at the column that motion aims at.
unfoldable pub to_row : Editor → ℕ → Row → Editor × Outcome
to_row e wanted row = (
  record e {
    desired = some wanted;
    cursor = record {
      line = row.line;
      column = column_at (line_at e row.line) row.start row.end wanted;
    };
  },
  changed,
)

-- `move_row` once `target` is known; without one, the recall.
unfoldable pub to_target : Editor → ℕ → Option Row → Editor × Outcome → Editor × Outcome
unfolding to_row
to_target e wanted none recalled = recalled
to_target e wanted (some row) recalled = to_row e wanted row

-- `index.checked_sub(1)`, and the row there.
unfoldable pub row_above : List Row → ℕ → Option Row
row_above rows zero = none
row_above rows (suc index) = get_elem? rows index

-- `move_row(-1)`
unfoldable pub move_up : Editor → Editor × Outcome
unfolding to_target row_above recall_older
move_up e =
    let rows = buffer_rows e in
    let at = caret_row rows e.lines e.cursor in
    to_target e (or_column e.desired at.1) (row_above rows at.0) (recall_older e)

-- `move_row(1)`
unfoldable pub move_down : Editor → Editor × Outcome
unfolding to_target recall_newer
move_down e =
    let rows = buffer_rows e in
    let at = caret_row rows e.lines e.cursor in
    to_target e (or_column e.desired at.1) (get_elem? rows (at.0 + 1)) (recall_newer e)
