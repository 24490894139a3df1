-- ===== src/Tui/Editor.antt =====
-- crates/rupi-tui/src/editor.rs: the buffer that a user types into. A line is the list of its
-- characters, so that a byte offset of the source is a number of characters here.
-- `char::is_alphanumeric` is a parameter of what uses it (Words).
pub mod Buffer
pub mod Words
pub mod Rows
pub mod Complete
pub mod Motion
pub mod Apply
pub mod Zipper
pub mod Valid
pub mod Views
pub mod Edits
pub mod Deletes
pub mod Caret
pub mod ByWord
pub mod ByRow
pub mod Tab
pub mod Tiles
pub mod Keeps
pub mod Session
mod Tests
use pi_rs.Prelude.{
  ℕ, zero, suc, ◌+◌, ◌-◌, Bool, true, false, ◌&&◌, Option, none, some, List, [], ◌∷◌, ◌++◌, length,
  get_or, is_empty, max, ◌==◌, if◌then◌else◌,
}
use pi_rs.Prelude.Text.{Text}

pub record Cursor : Type 0 where
  pub line : ℕ
  pub column : ℕ

pub data Intent : Type 0 where
  insert : ℕ → Intent
  paste : Text → Intent
  insert_newline backspace delete_forward delete_to_line_start delete_to_line_end : Intent
  delete_word_backward move_left move_right move_word_left move_word_right : Intent
  move_line_start move_line_end move_up move_down move_buffer_start move_buffer_end : Intent
  submit complete cancel noop : Intent

pub data Outcome : Type 0 where
  unchanged changed cancelled : Outcome
  submitted : Text → Outcome

-- `completions` holds the words of the source's `Completions`.
pub record Editor : Type 0 where
  pub lines : List Text
  pub cursor : Cursor
  pub desired : Option ℕ
  pub width : ℕ
  pub history : List Text
  pub recall : Option ℕ
  pub draft : Option Text
  pub completions : List Text
  pub completion : Option (Text × ℕ)

abbrev pub origin : Cursor
origin = record { line = 0; column = 0 }

unfoldable pub with_width : ℕ → Editor
with_width width = record {
  lines = [] ∷ [];
  cursor = origin;
  desired = none;
  width = max width 1;
  history = [];
  recall = none;
  draft = none;
  completions = [];
  completion = none;
}

unfoldable pub set_width : Editor → ℕ → Editor
set_width e width = record e { width = max width 1; desired = none }

-- `lines.join("\n")`
unfoldable pub join_lines : List Text → Text
join_lines [] = []
join_lines (line ∷ []) = line
join_lines (line ∷ next ∷ rest) = line ++ (b'\n' ∷ join_lines (next ∷ rest))

unfoldable pub text : Editor → Text
text e = join_lines e.lines

unfoldable pub editor_is_empty : Editor → Bool
editor_is_empty e = length e.lines == 1 && is_empty (get_or e.lines 0 [])

-- `self.lines[line]`, and the line that the caret is on.
abbrev pub line_at : Editor → ℕ → Text
line_at e i = get_or e.lines i []

abbrev pub current : Editor → Text
current e = line_at e e.cursor.line

unfoldable pub reset : Editor → Editor
reset e = record e { lines = [] ∷ []; cursor = origin; desired = none; recall = none; draft = none }

unfoldable pub recall_reset_on_edit : Editor → Editor
recall_reset_on_edit e = record e { desired = none; recall = none; draft = none }
