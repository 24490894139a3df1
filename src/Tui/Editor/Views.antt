-- ===== src/Tui/Editor/Views.antt =====
-- The buffer as one text with a caret: what stands before the caret, and what stands after it.
use pi_rs.Prelude.{
  suc, ◌≡◌, refl, sym, ◌∙◌, List, [], ◌∷◌, ◌++◌, arith, take, drop, append_assoc, append-nil,
  take-append_length, drop-append_length, drop-append_suc, get_or-append,
}
use pi_rs.Prelude.Text.{Text, Lacks, AllLack}
use pi_rs.Tui.Editor.{Editor, current, text, join_lines}
use pi_rs.Tui.Editor.Buffer.{split_first, split_rest}
use pi_rs.Tui.Editor.Valid.{IsValid, by_parts}
use pi_rs.Tui.Editor.Zipper.{at}

-- Lines above the caret's, each with its newline; lines below, each behind one.
unfoldable pub lines_above : List Text → Text
lines_above [] = []
lines_above (x ∷ xs) = x ++ (b'\n' ∷ lines_above xs)

unfoldable pub lines_below : List Text → Text
lines_below [] = []
lines_below (x ∷ xs) = b'\n' ∷ (x ++ lines_below xs)

pub before : Editor → Text
before e = lines_above (take e.cursor.line e.lines) ++ take e.cursor.column (current e)

pub after : Editor → Text
after e = drop e.cursor.column (current e) ++ lines_below (drop (suc e.cursor.line) e.lines)

module _ (e : Editor) (pre : List Text) (l r : Text) (post : List Text) where
  pub before-at : before (at e pre l r post) ≡ lines_above pre ++ l
  unfolding before
  before-at = simp (take-append_length, get_or-append)

  pub after-at : after (at e pre l r post) ≡ r ++ lines_below post
  unfolding after
  after-at = rw (get_or-append, drop-append_length, drop-append_suc)

pub lines_above-append :
    (xs : List Text) (x : Text) → lines_above (xs ++ x ∷ []) ≡ lines_above xs ++ (x ++ b'\n' ∷ [])
unfolding lines_above
lines_above-append [] x = refl
lines_above-append (y ∷ xs) x = simp (lines_above-append xs x, append_assoc)

join_lines-cons : (x : Text) (xs : List Text) → join_lines (x ∷ xs) ≡ x ++ lines_below xs
unfolding join_lines lines_below
join_lines-cons x [] = sym (append-nil x)
join_lines-cons x (y ∷ ys) = rw (join_lines-cons y ys)

join_lines-append :
    (pre : List Text) (x : Text) (post : List Text)
    → join_lines (pre ++ x ∷ post) ≡ lines_above pre ++ (x ++ lines_below post)
unfolding lines_above join_lines
join_lines-append [] x post = join_lines-cons x post
join_lines-append (y ∷ []) x post =
    join_lines-cons y (x ∷ post) ∙ unfold lines_below in simp append_assoc
join_lines-append (y ∷ z ∷ pre) x post = simp (join_lines-append (z ∷ pre) x post, append_assoc)

-- The text of a valid buffer is what stands before the caret and then what stands after it.
pub text-before-after : (e : Editor) → IsValid e → text e ≡ before e ++ after e
unfolding text
text-before-after e v =
    by_parts (λ e. text e ≡ before e ++ after e) e v
      λ pre l r post p.
        join_lines-append pre (l ++ r) post
        ∙ rw (before-at e pre l r post, after-at e pre l r post) (simp append_assoc)

pub split_first-rest : (t : Text) → split_first t ++ lines_below (split_rest t) ≡ t
unfolding split_first split_rest lines_below
split_first-rest [] = refl
split_first-rest (c ∷ t) = ground (arith, split_first-rest t)

pub split_first-Lacks : (t : Text) → Lacks b'\n' (split_first t)
unfolding split_first
split_first-Lacks [] = tt
split_first-Lacks (c ∷ t) = ground (arith, split_first-Lacks t)

pub split_rest-AllLack : (t : Text) → AllLack b'\n' (split_rest t)
unfolding split_rest
split_rest-AllLack [] = tt
split_rest-AllLack (c ∷ t) = ground (arith, split_rest-AllLack t, split_first-Lacks t)
