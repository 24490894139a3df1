-- ===== src/Tui/Editor/Tiles.antt =====
-- crates/rupi-tui/src/editor.rs: the rows that a line is shown in.
use pi_rs.Prelude.{
  ℕ, zero, suc, ◌+◌, ◌-◌, ◌≤◌, ◌<◌, ◌≡◌, refl, ◌⊎◌, inl, inr, Bool, true, false, List, [], ◌∷◌,
  ◌&&◌, arith, length, take, drop, ltb, ltb→lt, max, if◌then◌else◌,
}
use pi_rs.Prelude.Text.{Text}
use pi_rs.Tui.Editor.Rows.{cluster_end, rows_loop, line_rows}
use pi_rs.Tui.Width.{display_width}

-- Rows that are not empty and follow on from `a` to `b`.
abbrev pub Tiles : ℕ → ℕ → List (ℕ × ℕ) → Type 0
Tiles a b [] = a ≡ b
Tiles a b ((s, t) ∷ rest) = (s ≡ a) × (s < t) × Tiles t b rest

cluster_end_bounds :
    (chars : Text) (rounds end : ℕ)
    → (end ≤ cluster_end chars rounds end) × (cluster_end chars rounds end ≤ rounds + end)
unfolding cluster_end
cluster_end_bounds chars zero end = (omega arith, omega arith)
cluster_end_bounds chars (suc rounds) end =
    ground (arith, cluster_end_bounds chars rounds (end + 1))

if-Tiles :
    (a b : ℕ) (c : Bool) (x y : List (ℕ × ℕ))
    → (c ≡ true → Tiles a b x)
    → (c ≡ false → Tiles a b y)
    → Tiles a b (if c then x else y)
if-Tiles a b true x y h k = h refl
if-Tiles a b false x y h k = k refl

both_true : (a b : Bool) → a && b ≡ true → b ≡ true
both_true true true h = refl
both_true true false h = h
both_true false b h = ground arith

rows_loop-Tiles :
    (fuel : ℕ) (chars : Text) (width start column index : ℕ)
    → start ≤ index
    → index ≤ length chars
    → start < length chars
    → Tiles start (length chars) (rows_loop fuel chars width start column index)
unfolding rows_loop
rows_loop-Tiles zero chars width start column index h k l = (refl, l, refl)
rows_loop-Tiles (suc fuel) chars width start column index h k l =
    let end = cluster_end chars (length chars - suc index) (index + 1) in
    let columns = display_width (take (end - index) (drop index chars)) in
    let bounds = cluster_end_bounds chars (length chars - suc index) (index + 1) in
    if-Tiles start (length chars) (ltb index (length chars)) _ _
      (λ more.
        let inside = ltb→lt index (length chars) more in
        if-Tiles start (length chars) (ltb width (column + columns) && ltb start index) _ _
          (λ full. (
            refl,
            ltb→lt start index (both_true _ _ full),
            rows_loop-Tiles fuel chars width index columns end (omega (arith, bounds))
                (omega (arith, bounds)) inside,
          ))
          (λ _.
            rows_loop-Tiles fuel chars width start (column + columns) end (omega (arith, bounds))
              (omega (arith, bounds)) l))
      (λ _. (refl, l, refl))

-- The rows of a line that is not empty follow on from its start to its end, and none is empty,
-- whatever the width; an empty line has one row, which is empty.
pub line_rows-Tiles :
    (line : Text) (width : ℕ)
    → ((line ≡ []) × (line_rows line width ≡ (0, 0) ∷ []))
      ⊎ Tiles 0 (length line) (line_rows line width)
unfolding line_rows rows_loop
line_rows-Tiles [] width = inl (refl, refl)
line_rows-Tiles (c ∷ line) width = inr (
    rows_loop-Tiles (length (c ∷ line)) (c ∷ line) (max width 1) 0 0 0 (omega arith) (omega arith)
      (omega arith))
