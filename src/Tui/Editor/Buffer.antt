-- ===== src/Tui/Editor/Buffer.antt =====
-- crates/rupi-tui/src/editor.rs: the edits. Each `bool` of the source stands beside the new state.
use pi_rs.Prelude.{
  ℕ, suc, ◌+◌, ◌-◌, Bool, true, false, List, [], ◌∷◌, ◌++◌, length, take, drop, set, insert_at,
  remove_at, is_empty, min, ltb, leb, ◌==◌, if◌then◌else◌,
}
use pi_rs.Prelude.Text.{Text}
use pi_rs.Tui.Editor.{Editor, line_at, current}

-- `byte_offset`, which stops at the end of the line.
abbrev pub char_offset : Text → ℕ → ℕ
char_offset line column = min column (length line)

abbrev pub with_line : Editor → Text → Editor
with_line e line = record e { lines = set e.lines e.cursor.line line }

unfoldable pub splice_first : Editor → Text → Editor
splice_first e text = if is_empty text then e else record e {
  lines =
      set e.lines e.cursor.line
        (take e.cursor.column (current e) ++ (text ++ drop e.cursor.column (current e)));
  cursor = record e.cursor { column = e.cursor.column + length text };
}

unfoldable pub split_line : Editor → Editor
split_line e = record e {
  lines =
      insert_at (set e.lines e.cursor.line (take e.cursor.column (current e))) (suc e.cursor.line)
        (drop e.cursor.column (current e));
  cursor = record { line = e.cursor.line + 1; column = 0 };
}

-- `text.replace('\r', "")`
unfoldable pub without_returns : Text → Text
without_returns [] = []
without_returns (c ∷ text) = if c == b'\r' then without_returns text else c ∷ without_returns text

-- `text.split('\n')`: the first part, and the others.
unfoldable pub split_first : Text → Text
split_first [] = []
split_first (c ∷ text) = if c == b'\n' then [] else c ∷ split_first text

unfoldable pub split_rest : Text → List Text
unfolding split_first
split_rest [] = []
split_rest (c ∷ text) = if c == b'\n' then split_first text ∷ split_rest text else split_rest text

unfoldable pub insert_parts : Editor → List Text → Editor
unfolding split_line splice_first
insert_parts e [] = e
insert_parts e (part ∷ parts) = insert_parts (splice_first (split_line e) part) parts

unfoldable pub insert_str : Editor → Text → Editor
unfolding insert_parts without_returns split_rest
insert_str e text =
    insert_parts (splice_first e (split_first (without_returns text)))
      (split_rest (without_returns text))

-- Remove the character that ends where the caret stands.
abbrev pub without_char_before : Text → ℕ → Text
without_char_before line column =
    take (char_offset line column - 1) line ++ drop (char_offset line column) line

-- The line at `line` goes to the end of the one above it.
abbrev pub join_above : Editor → ℕ → Editor
join_above e line = record e {
  lines = set (remove_at e.lines line) (line - 1) (line_at e (line - 1) ++ line_at e line);
}

unfoldable pub delete_backward : Editor → Editor × Bool
delete_backward e =
    if ltb 0 e.cursor.column
    then (
      record (with_line e (without_char_before (current e) e.cursor.column)) {
        cursor = record e.cursor { column = e.cursor.column - 1 };
      },
      true,
    )
    else if e.cursor.line == 0
    then (e, false)
    else (
      record (join_above e e.cursor.line) {
        cursor = record {
          line = e.cursor.line - 1;
          column = length (line_at e (e.cursor.line - 1));
        };
      },
      true,
    )

unfoldable pub delete_ahead : Editor → Editor × Bool
delete_ahead e =
    if ltb e.cursor.column (length (current e))
    then (
      with_line e (take e.cursor.column (current e) ++ drop (suc e.cursor.column) (current e)),
      true,
    )
    else if leb (length e.lines) (e.cursor.line + 1)
    then (e, false)
    else (
      record e {
        lines =
            set (remove_at e.lines (suc e.cursor.line)) e.cursor.line
              (current e ++ line_at e (suc e.cursor.line));
      },
      true,
    )

unfoldable pub delete_to_start : Editor → Editor × Bool
delete_to_start e = if e.cursor.column == 0 then (e, false) else (
  record (with_line e (drop e.cursor.column (current e))) {
    cursor = record e.cursor { column = 0 };
  },
  true,
)

unfoldable pub delete_to_end : Editor → Editor × Bool
delete_to_end e =
    if leb (length (current e)) e.cursor.column
    then (e, false)
    else (with_line e (take e.cursor.column (current e)), true)
