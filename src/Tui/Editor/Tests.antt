-- ===== src/Tui/Editor/Tests.antt =====
-- crates/rupi-tui/src/editor.rs: runs of the editor, and what the theorems say of them.
use pi_rs.Prelude.{◌≡◌, none, some, [], ◌∷◌, ◌++◌, arith}
use pi_rs.Prelude.Text.{codes}
use pi_rs.Tui.Editor.{Editor, text}
use pi_rs.Tui.Editor.Buffer.{insert_str, without_returns, delete_backward, delete_ahead}
use pi_rs.Tui.Editor.Deletes.{
  ErasesBefore, delete_backward-ErasesBefore, ErasesAfter, delete_ahead-ErasesAfter,
}
use pi_rs.Tui.Editor.Edits.{Typed, insert_str-Typed}
use pi_rs.Tui.Editor.{Intent, paste, submit, with_width}
use pi_rs.Prelude.{ℕ, refl, Bool, ltb, ◌&&◌, ◌≢◌, ◌⊎◌}
use pi_rs.Tui.Editor.Apply.{apply}
use pi_rs.Tui.Editor.Rows.{line_rows}
use pi_rs.Tui.Editor.Tiles.{Tiles, line_rows-Tiles}
use pi_rs.Tui.Editor.Keeps.{apply-IsValid}
use pi_rs.Tui.Editor.Session.{started, acted, Reached-IsValid, delete_backward-insert_str}
use pi_rs.Tui.Editor.Deletes.{Leaves}
use pi_rs.Tui.Editor.Valid.{IsValid}
use pi_rs.Tui.Editor.Views.{before, after, text-before-after}

-- "ab" over "cd", the caret at the start of the second line.
abbrev two_lines : Editor
two_lines = record {
  lines = codes "ab" ∷ codes "cd" ∷ [];
  cursor = record { line = 1; column = 0 };
  desired = none;
  width = 10;
  history = codes "old" ∷ [];
  recall = some 0;
  draft = some [];
  completions = codes "/help" ∷ [];
  completion = none;
}

two_lines-IsValid : IsValid two_lines
two_lines-IsValid = record {
  line_in = omega arith;
  column_in = omega arith;
  one_line = ground arith;
  words = ground arith;
  wide = omega arith;
  recalls = omega arith;
}

text-before-after_example : text two_lines ≡ before two_lines ++ after two_lines
text-before-after_example = text-before-after two_lines two_lines-IsValid

insert_str-Typed_example :
    Typed two_lines (without_returns (codes "x\r\ny")) (insert_str two_lines (codes "x\r\ny"))
insert_str-Typed_example = insert_str-Typed two_lines (codes "x\r\ny") two_lines-IsValid

delete_backward-ErasesBefore_example : ErasesBefore two_lines (delete_backward two_lines)
delete_backward-ErasesBefore_example = delete_backward-ErasesBefore two_lines two_lines-IsValid

delete_ahead-ErasesAfter_example : ErasesAfter two_lines (delete_ahead two_lines)
delete_ahead-ErasesAfter_example = delete_ahead-ErasesAfter two_lines two_lines-IsValid

abbrev is_lower : ℕ → Bool
is_lower c = ltb b'`' c && ltb c b'{'

apply-IsValid_example : IsValid (apply is_lower two_lines Intent.move_up).0
apply-IsValid_example = apply-IsValid is_lower two_lines Intent.move_up two_lines-IsValid

Reached-IsValid_example :
    IsValid (apply is_lower (apply is_lower (with_width 0) (paste (codes "a b"))).0 submit).0
Reached-IsValid_example =
    Reached-IsValid is_lower
      (apply is_lower (apply is_lower (with_width 0) (paste (codes "a b"))).0 submit).0
      (acted (apply is_lower (with_width 0) (paste (codes "a b"))).0 submit
        (acted (with_width 0) (paste (codes "a b")) (started 0)))

delete_backward-insert_str_example :
    Leaves
      (before two_lines)
      (after two_lines)
      (delete_backward (insert_str two_lines (b'\n' ∷ [])))
delete_backward-insert_str_example =
    delete_backward-insert_str two_lines b'\n' two_lines-IsValid newline_ne
  where
    newline_ne : ◌≢◌ {A = ℕ} b'\n' b'\r'
    newline_ne = omega arith

line_rows-Tiles_example :
    ((codes "abc" ≡ []) × (line_rows (codes "abc") 2 ≡ (0, 0) ∷ []))
    ⊎ Tiles 0 3 (line_rows (codes "abc") 2)
line_rows-Tiles_example = line_rows-Tiles (codes "abc") 2

-- "abcd" in two columns.
two_rows : line_rows (codes "abcd") 2 ≡ (0, 2) ∷ (2, 4) ∷ []
unfolding line_rows
two_rows = refl
