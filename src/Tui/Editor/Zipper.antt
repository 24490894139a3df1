-- ===== src/Tui/Editor/Zipper.antt =====
-- A buffer as what stands on either side of the caret: lines above, the caret's line in two parts,
-- lines below. Every edit is an equation on this form.
use pi_rs.Prelude.{
  ℕ, suc, ◌+◌, ◌-◌, ◌≤◌, ◌<◌, ◌≡◌, sym, ap, ◌∙◌, ◌≢◌, true, false, List, [], ◌∷◌, ◌++◌, arith,
  length, take, drop, get_or, remove_at, min, append-nil, append_assoc, length-append,
  get_or-append, set-append, insert_at-append, remove_at-append, take-append_length,
  drop-append_length, get_or-append_suc, remove_at-append_suc, get_or-split, take-append-drop,
  length-take, ltb, leb, ◌==◌, ne_nil→pos, drop-append_suc, pos→ne_zero, lt→leb, lt→ltb, le→ltb,
}
use pi_rs.Prelude.Text.{Text}
use pi_rs.Tui.Editor.{Editor, current}
use pi_rs.Tui.Editor.Buffer.{
  without_char_before, splice_first, split_line, delete_backward, delete_ahead, delete_to_start,
  delete_to_end,
}

abbrev pub at : Editor → List Text → Text → Text → List Text → Editor
at e pre l r post = record e {
  lines = pre ++ (l ++ r) ∷ post;
  cursor = record { line = length pre; column = length l };
}

-- An editor whose caret is in the buffer has this form.
pub at_of :
    (e : Editor)
    → e.cursor.line < length e.lines
    → e.cursor.column ≤ length (current e)
    → (pre : List Text) × (l : Text) × (r : Text) × (post : List Text) × (e ≡ at e pre l r post)
at_of e h k =
    let i = e.cursor.line in
    let j = e.cursor.column in
    let (p, q) = get_or-split i e.lines [] h in
    let whole = take-append-drop j (current e) in
    let lines : take i e.lines ++ (take j (current e) ++ drop j (current e)) ∷ drop (suc i) e.lines
        ≡ e.lines =
      rw whole (sym p) in
    let column : length (take j (current e)) ≡ j = omega (arith, length-take j (current e)) in
    (
      take i e.lines,
      take j (current e),
      drop j (current e),
      drop (suc i) e.lines,
      ground (arith, lines, column, q),
    )

module _ (e : Editor) (pre : List Text) (l r : Text) (post : List Text) where
  pub current-at : current (at e pre l r post) ≡ l ++ r
  current-at = get_or-append pre (l ++ r) post []

  ruleset parts =
      (get_or-append, take-append_length, drop-append_length, set-append, insert_at-append)

  pub splice_first-at : (t : Text) → splice_first (at e pre l r post) t ≡ at e pre (l ++ t) r post
  unfolding splice_first
  splice_first-at [] = rw (append-nil l)
  splice_first-at (c ∷ t) = simp (parts, append_assoc, length-append)

  pub split_line-at : split_line (at e pre l r post) ≡ at e (pre ++ l ∷ []) [] r post
  unfolding split_line
  split_line-at = simp (parts, append_assoc, length-append)

  pub delete_to_start-at : l ≢ [] → delete_to_start (at e pre l r post) ≡ (at e pre [] r post, true)
  unfolding delete_to_start
  delete_to_start-at h = simp (parts, pos→ne_zero (length l) (ne_nil→pos l h))

  pub delete_to_end-at : r ≢ [] → delete_to_end (at e pre l r post) ≡ (at e pre l [] post, true)
  unfolding delete_to_end
  delete_to_end-at h =
      let more : leb (length (l ++ r)) (length l) ≡ false =
        lt→leb _ _ (omega (arith, length-append l r, ne_nil→pos r h)) in
      simp (parts, append-nil, more)

module _ (e : Editor) (pre : List Text) (l r : Text) (post : List Text) where
  -- `without_char_before` at the end of `l ++ c ∷ []`.
  removed : (c : ℕ) → without_char_before ((l ++ c ∷ []) ++ r) (length (l ++ c ∷ [])) ≡ l ++ r
  removed c =
      let one_more : length (l ++ c ∷ []) ≡ suc (length l) =
        omega (arith, length-append l (c ∷ [])) in
      let inside : min (suc (length l)) (length (l ++ c ∷ r)) ≡ suc (length l) =
        omega (arith, length-append l (c ∷ r)) in
      let back : suc (length l) - 1 ≡ length l = omega arith in
      rw (append_assoc l (c ∷ []) r, one_more, inside, back, take-append_length, drop-append_suc)

  pub delete_backward-at :
      (c : ℕ) → delete_backward (at e pre (l ++ c ∷ []) r post) ≡ (at e pre l r post, true)
  unfolding delete_backward
  delete_backward-at c =
      let one_more : length (l ++ c ∷ []) ≡ suc (length l) =
        omega (arith, length-append l (c ∷ [])) in
      let some_left : ltb 0 (length (l ++ c ∷ [])) ≡ true = lt→ltb _ _ (omega (arith, one_more)) in
      let back : length (l ++ c ∷ []) - 1 ≡ length l = omega (arith, one_more) in
      rw (some_left, get_or-append, removed c, set-append, back)

  pub delete_ahead-at : (c : ℕ) → delete_ahead (at e pre l (c ∷ r) post) ≡ (at e pre l r post, true)
  unfolding delete_ahead
  delete_ahead-at c =
      let some_right : ltb (length l) (length (l ++ c ∷ r)) ≡ true =
        lt→ltb _ _ (omega (arith, length-append l (c ∷ r))) in
      simp (parts, some_right, drop-append_suc)

  pub join_backward-at :
      (x : Text) → delete_backward (at e (pre ++ x ∷ []) [] r post) ≡ (at e pre x r post, true)
  unfolding delete_backward
  join_backward-at x =
      let one_more : length (pre ++ x ∷ []) ≡ suc (length pre) =
        omega (arith, length-append pre (x ∷ [])) in
      let below : (length (pre ++ x ∷ []) == 0) ≡ false = pos→ne_zero _ (omega (arith, one_more)) in
      let lines = (pre ++ x ∷ []) ++ r ∷ post in
      let apart : lines ≡ pre ++ x ∷ r ∷ post = append_assoc pre (x ∷ []) (r ∷ post) in
      let removed_line : remove_at lines (length (pre ++ x ∷ [])) ≡ pre ++ x ∷ post =
        remove_at-append (pre ++ x ∷ []) r post ∙ append_assoc pre (x ∷ []) post in
      let here : get_or lines (length (pre ++ x ∷ [])) [] ≡ r =
        get_or-append (pre ++ x ∷ []) r post [] in
      let back : length (pre ++ x ∷ []) - 1 ≡ length pre = omega (arith, one_more) in
      let above : get_or lines (length pre) [] ≡ x =
        ap (λ (ls : List Text). get_or ls (length pre) []) apart
        ∙ get_or-append pre x (r ∷ post) [] in
      rw (below, removed_line, here, back, above, set-append pre x post (x ++ r))

  pub join_ahead-at :
      (x : Text) → delete_ahead (at e pre l [] (x ∷ post)) ≡ (at e pre l x post, true)
  unfolding delete_ahead
  join_ahead-at x =
      let none_right : ltb (length l) (length l) ≡ false = le→ltb _ _ (omega arith) in
      let below : leb (length (pre ++ l ∷ x ∷ post)) (length pre + 1) ≡ false =
        lt→leb _ _ (omega (arith, length-append pre (l ∷ x ∷ post))) in
      rw (
        append-nil l,
        get_or-append,
        none_right,
        below,
        get_or-append_suc,
        remove_at-append_suc,
        set-append,
      )
