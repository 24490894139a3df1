-- ===== src/Tui/Editor/Rows.antt =====
-- crates/rupi-tui/src/editor.rs: the display rows of the buffer.
use pi_rs.Prelude.{
  ℕ, zero, suc, ◌+◌, ◌-◌, Bool, true, ◌&&◌, ◌||◌, List, [], ◌∷◌, ◌++◌, length, get_or, take, drop,
  ltb, leb, ◌==◌, max, not, if◌then◌else◌,
}
use pi_rs.Prelude.Text.{Text, within}
use pi_rs.Tui.Editor.{Editor, Cursor}
use pi_rs.Tui.Width.{char_width, display_width}

pub record Row : Type 0 where
  pub line : ℕ
  pub start : ℕ
  pub end : ℕ

unfoldable pub is_regional_indicator : ℕ → Bool
is_regional_indicator c = within 0x1f1e6 0x1f1ff c

-- The source's `previous` is always `Some`.
unfoldable pub continues_cluster : ℕ → ℕ → Bool
unfolding is_regional_indicator
continues_cluster previous next =
    previous == 0x200d
    || is_regional_indicator previous && is_regional_indicator next
    || next == 0x200c
    || next == 0x200d
    || next == 0x20e3
    || next == 0xfe0e
    || next == 0xfe0f
    || within 0x0300 0x036f next

-- The inner loop, by the rounds left, `chars.len() - end`.
unfoldable pub cluster_end : Text → ℕ → ℕ → ℕ
unfolding continues_cluster
cluster_end chars zero end = end
cluster_end chars (suc rounds) end =
    let further = cluster_end chars rounds (end + 1) in
    if continues_cluster (get_or chars (end - 1) 0) (get_or chars end 0) then further else end

-- The outer loop. It goes on by at least one character a round, so that as much fuel as there are
-- characters is enough (Tiles). The last row goes to the end of the line.
unfoldable pub rows_loop : ℕ → Text → ℕ → ℕ → ℕ → ℕ → List (ℕ × ℕ)
unfolding cluster_end display_width
rows_loop zero chars width start column index = (start, length chars) ∷ []
rows_loop (suc fuel) chars width start column index =
    let end = cluster_end chars (length chars - suc index) (index + 1) in
    let columns = display_width (take (end - index) (drop index chars)) in
    let broken = (start, index) ∷ rows_loop fuel chars width index columns end in
    let filled = rows_loop fuel chars width start (column + columns) end in
    if ltb index (length chars)
    then if ltb width (column + columns) && ltb start index then broken else filled
    else (start, length chars) ∷ []

unfoldable pub line_rows : Text → ℕ → List (ℕ × ℕ)
unfolding rows_loop
line_rows line width = rows_loop (length line) line (max width 1) 0 0 0

unfoldable pub rows_of : ℕ → List (ℕ × ℕ) → List Row
rows_of line [] = []
rows_of line ((start, end) ∷ rest) =
    record { line = line; start = start; end = end } ∷ rows_of line rest

unfoldable pub rows_from : ℕ → ℕ → List Text → List Row
unfolding rows_of line_rows
rows_from width line [] = []
rows_from width line (text ∷ rest) =
    rows_of line (line_rows text width) ++ rows_from width (line + 1) rest

unfoldable pub buffer_rows : Editor → List Row
unfolding rows_from
buffer_rows e = rows_from e.width 0 e.lines

-- `rows.get(index + 1).is_none_or(|next| next.line != row.line)`
unfoldable pub ends_line : ℕ → List Row → Bool
ends_line line [] = true
ends_line line (next ∷ rest) = not (next.line == line)

unfoldable pub caret_row_from : ℕ → List Row → List Text → Cursor → ℕ × ℕ
unfolding ends_line display_width
caret_row_from index [] lines cursor = (0, 0)
caret_row_from index (row ∷ rest) lines cursor =
    let onward = caret_row_from (index + 1) rest lines cursor in
    if row.line == cursor.line
      && (leb row.start cursor.column && (ltb cursor.column row.end || ends_line row.line rest))
    then (
      index,
      display_width (take (cursor.column - row.start) (drop row.start (get_or lines row.line []))),
    )
    else onward

unfoldable pub caret_row : List Row → List Text → Cursor → ℕ × ℕ
unfolding caret_row_from
caret_row rows lines cursor = caret_row_from 0 rows lines cursor

-- The loop of `column_at` over the characters left of the row, at position `at`.
unfoldable pub column_loop : Text → ℕ → ℕ → ℕ → ℕ → ℕ
unfolding char_width
column_loop [] at column wanted end = end
column_loop (c ∷ rest) at column wanted end =
    let onward = column_loop rest (at + 1) (column + char_width c) wanted end in
    if ltb wanted (column + char_width c)
    then at
    else if leb wanted (column + char_width c)
    then at + 1
    else onward

unfoldable pub column_at : Text → ℕ → ℕ → ℕ → ℕ
unfolding column_loop
column_at line start end wanted =
    column_loop (take (end - start) (drop start line)) start 0 wanted end
