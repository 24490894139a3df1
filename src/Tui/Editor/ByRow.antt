-- ===== src/Tui/Editor/ByRow.antt =====
-- crates/rupi-tui/src/editor.rs: moves by rows of the display, and recall, keep the caret in the buffer.
use pi_rs.Prelude.{
  ℕ, zero, suc, ◌+◌, ◌-◌, ◌≤◌, ◌<◌, ◌≡◌, sym, inl, inr, subst, false, Option, none, some, List, [],
  ◌∷◌, ◌++◌, arith, length, get_or, get_elem?, take, drop, length-take, leb, leb→lt,
}
use pi_rs.Prelude.Text.{Text}
use pi_rs.Tui.Editor.{Editor, Outcome, current, line_at}
use pi_rs.Tui.Editor.Caret.{place-IsValid, choose-IsValid}
use pi_rs.Tui.Editor.Motion.{
  load, or_default, load_recalled, next_recall, drafted, recall_older, newer_than, recall_newer,
  to_row, to_target, row_above, move_up, move_down,
}
use pi_rs.Tui.Editor.Rows.{Row, rows_of, rows_from, buffer_rows, line_rows, column_loop, column_at}
use pi_rs.Tui.Editor.Tiles.{Tiles, line_rows-Tiles}
use pi_rs.Tui.Width.{char_width}
use pi_rs.Tui.Editor.Valid.{IsValid, Recalls}
use pi_rs.Tui.Editor.Views.{split_first-Lacks, split_rest-AllLack}

-- A row of one of the lines `texts`, whose first is line `off`.
abbrev IsRow : ℕ → List Text → Row → Type 0
IsRow off texts row =
    (k : ℕ) × (row.line ≡ off + k)
    × (k < length texts)
    × (row.start ≤ row.end)
    × (row.end ≤ length (get_or texts k []))

abbrev AllRows : ℕ → List Text → List Row → Type 0
AllRows off texts [] = Unit
AllRows off texts (row ∷ rows) = IsRow off texts row × AllRows off texts rows

AllRows-append :
    (off : ℕ) (texts : List Text) (a b : List Row)
    → AllRows off texts a
    → AllRows off texts b
    → AllRows off texts (a ++ b)
AllRows-append off texts [] b h k = k
AllRows-append off texts (row ∷ a) b h k = (h.0, AllRows-append off texts a b h.1 k)

later :
    (off : ℕ) (text : Text) (texts : List Text) (rows : List Row)
    → AllRows (off + 1) texts rows
    → AllRows off (text ∷ texts) rows
later off text texts [] h = tt
later off text texts (row ∷ rows) h =
    let (k, e, inside, order, bound) = h.0 in
    ((suc k, omega (arith, e), omega (arith, inside), order, bound), later off text texts rows h.1)

Tiles-le : (a b : ℕ) (spans : List (ℕ × ℕ)) → Tiles a b spans → a ≤ b
Tiles-le a b [] h = omega (arith, h)
Tiles-le a b ((s, t) ∷ rest) h = let (e, l, r) = h in omega (arith, e, l, Tiles-le t b rest r)

rows_of-AllRows :
    (off a : ℕ) (text : Text) (texts : List Text) (spans : List (ℕ × ℕ))
    → Tiles a (length text) spans
    → AllRows off (text ∷ texts) (rows_of off spans)
unfolding rows_of
rows_of-AllRows off a text texts [] h = tt
rows_of-AllRows off a text texts ((s, t) ∷ rest) h =
    let (e, l, r) = h in
    (
      (0, omega arith, omega arith, omega (arith, l), Tiles-le t (length text) rest r),
      rows_of-AllRows off t text texts rest r,
    )

line-AllRows :
    (off width : ℕ) (text : Text) (texts : List Text)
    → AllRows off (text ∷ texts) (rows_of off (line_rows text width))
unfolding rows_of
line-AllRows off width text texts = elim (line_rows-Tiles text width) [
  | inl (e, p) ↦
      subst (λ (spans : List (ℕ × ℕ)). AllRows off (text ∷ texts) (rows_of off spans)) (sym p)
        ((0, omega arith, omega arith, omega arith, omega arith), tt)
  | inr h ↦ rows_of-AllRows off 0 text texts (line_rows text width) h
]

rows_from-AllRows :
    (width off : ℕ) (texts : List Text) → AllRows off texts (rows_from width off texts)
unfolding rows_from
rows_from-AllRows width off [] = tt
rows_from-AllRows width off (text ∷ texts) =
    AllRows-append off (text ∷ texts) (rows_of off (line_rows text width))
      (rows_from width (off + 1) texts) (line-AllRows off width text texts)
      (later off text texts _ (rows_from-AllRows width (off + 1) texts))

abbrev IsRow? : List Text → Option Row → Type 0
IsRow? texts none = Unit
IsRow? texts (some row) = IsRow 0 texts row

get_elem-IsRow :
    (texts : List Text) (rows : List Row) (i : ℕ)
    → AllRows 0 texts rows
    → IsRow? texts (get_elem? rows i)
get_elem-IsRow texts [] i h = tt
get_elem-IsRow texts (row ∷ rows) zero h = h.0
get_elem-IsRow texts (row ∷ rows) (suc i) h = get_elem-IsRow texts rows i h.1

column_loop_le :
    (rest : Text) (at column wanted end : ℕ)
    → at + length rest ≤ end
    → column_loop rest at column wanted end ≤ end
unfolding column_loop
column_loop_le [] at column wanted end h = omega arith
column_loop_le (c ∷ rest) at column wanted end h =
    ground
      (arith, column_loop_le rest (at + 1) (column + char_width c) wanted end (omega (arith, h)))

to_row-IsValid :
    (e : Editor) (wanted : ℕ) (row : Row)
    → IsValid e
    → IsRow 0 e.lines row
    → IsValid (to_row e wanted row).0
unfolding to_row column_at
to_row-IsValid e wanted row v (k, at, inside, order, bound) =
    let here : row.line ≡ k = omega (arith, at) in
    let last : row.end ≤ length (get_or e.lines row.line []) =
      subst (λ (n : ℕ). row.end ≤ length (get_or e.lines n [])) (sym here) bound in
    let chars = take (row.end - row.start) (drop row.start (line_at e row.line)) in
    let reached = column_loop_le chars row.start 0 wanted row.end (
      omega
        (arith, length-take (row.end - row.start) (drop row.start (line_at e row.line)), order)) in
    place-IsValid e (some wanted) _ v (omega (arith, here, inside), omega (arith, reached, last))

-- Recall of an entry of the history, or of the draft, replaces the whole buffer.
load-IsValid :
    (e : Editor) (t : Text) (r : Option ℕ) (d : Option Text)
    → IsValid e
    → Recalls r (length e.history)
    → IsValid (load (record e { recall = r; draft = d }) t)
unfolding load
load-IsValid e t r d v h = record {
  line_in = omega arith;
  column_in = omega arith;
  one_line = (split_first-Lacks t, split_rest-AllLack t);
  words = v.words;
  wide = v.wide;
  recalls = h;
}

next_recall-Recalls :
    (o : Option ℕ) (n : ℕ) → leb n (next_recall o) ≡ false → Recalls (some (next_recall o)) n
next_recall-Recalls o n h = leb→lt n (next_recall o) h

pub recall_older-IsValid : (e : Editor) → IsValid e → IsValid (recall_older e).0
unfolding recall_older load_recalled
recall_older-IsValid e v =
    choose-IsValid (leb (length e.history) (next_recall e.recall)) _ _ (λ _. v)
      λ more.
        load-IsValid e (get_or e.history (length e.history - 1 - next_recall e.recall) [])
          (some (next_recall e.recall)) (drafted e e.recall) v
          (next_recall-Recalls e.recall (length e.history) more)

newer_than-IsValid :
    (e : Editor) (o : Option ℕ)
    → IsValid e
    → Recalls o (length e.history)
    → IsValid (newer_than e o).0
unfolding newer_than load_recalled
newer_than-IsValid e none v h = v
newer_than-IsValid e (some zero) v h = load-IsValid e (or_default e.draft) none none v tt
newer_than-IsValid e (some (suc current)) v h =
    load-IsValid e (get_or e.history (length e.history - 1 - current) []) (some current) e.draft v
      (omega (arith, h))

pub recall_newer-IsValid : (e : Editor) → IsValid e → IsValid (recall_newer e).0
unfolding recall_newer
recall_newer-IsValid e v = newer_than-IsValid e e.recall v v.recalls

to_target-IsValid :
    (e : Editor) (wanted : ℕ) (target : Option Row) (recalled : Editor × Outcome)
    → IsValid e
    → IsRow? e.lines target
    → IsValid recalled.0
    → IsValid (to_target e wanted target recalled).0
unfolding to_target
to_target-IsValid e wanted none recalled v h k = k
to_target-IsValid e wanted (some row) recalled v h k = to_row-IsValid e wanted row v h

buffer-AllRows : (e : Editor) → AllRows 0 e.lines (buffer_rows e)
unfolding buffer_rows
buffer-AllRows e = rows_from-AllRows e.width 0 e.lines

row_above-IsRow :
    (texts : List Text) (rows : List Row) (i : ℕ)
    → AllRows 0 texts rows
    → IsRow? texts (row_above rows i)
unfolding row_above
row_above-IsRow texts rows zero h = tt
row_above-IsRow texts rows (suc i) h = get_elem-IsRow texts rows i h

pub move_up-IsValid : (e : Editor) → IsValid e → IsValid (move_up e).0
unfolding move_up
move_up-IsValid e v =
    to_target-IsValid e _ _ _ v (row_above-IsRow e.lines (buffer_rows e) _ (buffer-AllRows e))
      (recall_older-IsValid e v)

pub move_down-IsValid : (e : Editor) → IsValid e → IsValid (move_down e).0
unfolding move_down
move_down-IsValid e v =
    to_target-IsValid e _ _ _ v (get_elem-IsRow e.lines (buffer_rows e) _ (buffer-AllRows e))
      (recall_newer-IsValid e v)
