-- ===== src/Tui/Editor/Edits.antt =====
-- crates/rupi-tui/src/editor.rs: what the edits do to the text on either side of the caret.
use pi_rs.Prelude.{◌≡◌, refl, sym, ap, subst, ◌∙◌, List, [], ◌∷◌, ◌++◌, append_assoc, append-nil}
use pi_rs.Prelude.Text.{Text, Lacks, AllLack, Lacks-append, AllLack-append}
use pi_rs.Tui.Editor.{Editor}
use pi_rs.Tui.Editor.Buffer.{
  insert_str, insert_parts, splice_first, split_line, split_first, split_rest, without_returns,
}
use pi_rs.Tui.Editor.Valid.{IsValid, Parts, at-IsValid, by_parts}
use pi_rs.Tui.Editor.Views.{
  before, after, before-at, after-at, lines_above, lines_below, lines_above-append,
  split_first-rest, split_first-Lacks, split_rest-AllLack,
}
use pi_rs.Tui.Editor.Zipper.{at, splice_first-at, split_line-at}

-- What insertion of `t` leaves: `t` behind what stood before the caret, and the rest as it was.
pub record Typed (e : Editor) (t : Text) (e' : Editor) : Type 0 where
  pub typed_before : before e' ≡ before e ++ t
  pub typed_after : after e' ≡ after e
  pub typed_valid : IsValid e'

-- The same of the form at hand, in which the lines below and the right part do not change.
record Split (e : Editor) (pre : List Text) (l r : Text) (post : List Text) (t : Text) (e' : Editor)
    : Type 0 where
  above' : List Text
  left' : Text
  is_at : e' ≡ at e above' left' r post
  grown : lines_above above' ++ left' ≡ lines_above pre ++ (l ++ t)
  parts' : Parts e above' left' r post

pub with_left :
    (e : Editor) (pre : List Text) (l l' r : Text) (post : List Text)
    → Parts e pre l r post
    → Lacks b'\n' l'
    → Parts e pre l' r post
with_left e pre l l' r post p h = record {
  above = p.above;
  left = h;
  right = p.right;
  below = p.below;
  words = p.words;
  wide = p.wide;
  recalls = p.recalls;
}

pub with_above :
    (e : Editor) (pre : List Text) (l r : Text) (post : List Text) (l' : Text)
    → Parts e pre l r post
    → Lacks b'\n' l'
    → Parts e (pre ++ l ∷ []) l' r post
with_above e pre l r post l' p h = record {
  above = AllLack-append b'\n' pre (l ∷ []) p.above (p.left, tt);
  left = h;
  right = p.right;
  below = p.below;
  words = p.words;
  wide = p.wide;
  recalls = p.recalls;
}

insert_parts-at :
    (e : Editor) (pre : List Text) (l r : Text) (post parts : List Text)
    → Parts e pre l r post
    → AllLack b'\n' parts
    → Split e pre l r post (lines_below parts) (insert_parts (at e pre l r post) parts)
unfolding insert_parts lines_below
insert_parts-at e pre l r post [] p h = record {
  above' = pre;
  left' = l;
  is_at = refl;
  grown = simp append-nil;
  parts' = p;
}
insert_parts-at e pre l r post (part ∷ parts) p h =
    let next = pre ++ l ∷ [] in
    let moved : splice_first (split_line (at e pre l r post)) part ≡ at e next part r post =
      ap (λ (x : Editor). splice_first x part) (split_line-at e pre l r post)
      ∙ splice_first-at e next [] r post part in
    let rest =
      insert_parts-at e next part r post parts (with_above e pre l r post part p h.0) h.1 in
    record {
      above' = rest.above';
      left' = rest.left';
      is_at = ap (λ (x : Editor). insert_parts x parts) moved ∙ rest.is_at;
      grown = rest.grown ∙ simp (lines_above-append pre l, append_assoc);
      parts' = rest.parts';
    }

insert_str-at :
    (e : Editor) (pre : List Text) (l r : Text) (post : List Text) (t : Text)
    → Parts e pre l r post
    → Split e pre l r post (without_returns t) (insert_str (at e pre l r post) t)
unfolding insert_str
insert_str-at e pre l r post t p =
    let u = without_returns t in
    let first = split_first u in
    let here =
      with_left e pre l (l ++ first) r post p
        (Lacks-append b'\n' l first p.left (split_first-Lacks u)) in
    let rest =
      insert_parts-at e pre (l ++ first) r post (split_rest u) here (split_rest-AllLack u) in
    record {
      above' = rest.above';
      left' = rest.left';
      is_at =
          ap (λ (x : Editor). insert_parts x (split_rest u)) (splice_first-at e pre l r post first)
          ∙ rest.is_at;
      grown =
          rest.grown ∙ rw (append_assoc l first (lines_below (split_rest u)), split_first-rest u);
      parts' = rest.parts';
    }

Split-Typed :
    (e : Editor) (pre : List Text) (l r : Text) (post : List Text) (t : Text) (e' : Editor)
    → Split e pre l r post t e'
    → Typed (at e pre l r post) t e'
Split-Typed e pre l r post t e' s = subst (Typed (at e pre l r post) t) (sym s.is_at) (record {
  typed_before =
      before-at e s.above' s.left' r post
      ∙ s.grown
      ∙ sym (append_assoc (lines_above pre) l t)
      ∙ ap (λ (x : Text). x ++ t) (sym (before-at e pre l r post));
  typed_after = after-at e s.above' s.left' r post ∙ sym (after-at e pre l r post);
  typed_valid = at-IsValid e s.above' s.left' r post s.parts';
})

-- Insertion of a text, whatever newlines it holds, puts it without its carriage returns behind what
-- stands before the caret of a valid editor, leaves what stands after the caret, and keeps the
-- editor valid.
pub insert_str-Typed :
    (e : Editor) (t : Text) → IsValid e → Typed e (without_returns t) (insert_str e t)
insert_str-Typed e t v =
    by_parts (λ e. Typed e (without_returns t) (insert_str e t)) e v
      λ pre l r post p.
        Split-Typed e pre l r post (without_returns t) _ (insert_str-at e pre l r post t p)
