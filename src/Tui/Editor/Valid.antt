-- ===== src/Tui/Editor/Valid.antt =====
-- The invariants that the head of editor.rs states, with those that its indexing needs.
use pi_rs.Prelude.{
  ℕ, ◌≤◌, ◌<◌, ◌≡◌, sym, subst, Option, none, some, List, [], ◌∷◌, ◌++◌, arith, length,
  length-append, get_or-append,
}
use pi_rs.Prelude.Text.{
  Text, Lacks, AllLack, Lacks-append, Lacks-parts, AllLack-append, AllLack-parts,
}
use pi_rs.Tui.Editor.{Editor, current}
use pi_rs.Tui.Editor.Zipper.{at, at_of}

abbrev pub Recalls : Option ℕ → ℕ → Type 0
Recalls none n = Unit
Recalls (some recalled) n = recalled < n

-- The caret is in the buffer, which so is not empty; no line holds a newline, nor does a completion;
-- the width is not zero; and a recall is of an entry of the history.
pub record IsValid (e : Editor) : Type 0 where
  pub line_in : e.cursor.line < length e.lines
  pub column_in : e.cursor.column ≤ length (current e)
  pub one_line : AllLack b'\n' e.lines
  pub words : AllLack b'\n' e.completions
  pub wide : 1 ≤ e.width
  pub recalls : Recalls e.recall (length e.history)

-- The same of the form that Zipper has.
pub record Parts (e : Editor) (pre : List Text) (l r : Text) (post : List Text) : Type 0 where
  pub above : AllLack b'\n' pre
  pub left : Lacks b'\n' l
  pub right : Lacks b'\n' r
  pub below : AllLack b'\n' post
  pub words : AllLack b'\n' e.completions
  pub wide : 1 ≤ e.width
  pub recalls : Recalls e.recall (length e.history)

pub at-IsValid :
    (e : Editor) (pre : List Text) (l r : Text) (post : List Text)
    → Parts e pre l r post
    → IsValid (at e pre l r post)
at-IsValid e pre l r post p = record {
  line_in = omega (arith, length-append pre ((l ++ r) ∷ post));
  column_in = omega (arith, ap_length, length-append l r);
  one_line = AllLack-append b'\n' pre _ p.above (Lacks-append b'\n' l r p.left p.right, p.below);
  words = p.words;
  wide = p.wide;
  recalls = p.recalls;
}
  where
    ap_length : length (current (at e pre l r post)) ≡ length (l ++ r)
    ap_length = rw (get_or-append pre (l ++ r) post [])

pub IsValid-at :
    (e : Editor) (pre : List Text) (l r : Text) (post : List Text)
    → IsValid (at e pre l r post)
    → Parts e pre l r post
IsValid-at e pre l r post v =
    let (a, b) = AllLack-parts b'\n' pre ((l ++ r) ∷ post) v.one_line in
    let (x, y) = Lacks-parts b'\n' l r b.0 in
    record {
      above = a;
      left = x;
      right = y;
      below = b.1;
      words = v.words;
      wide = v.wide;
      recalls = v.recalls;
    }

-- What holds of every editor of the form, holds of every valid one.
pub by_parts {ℓ} :
    (P : Editor → Type ℓ) (e : Editor)
    → IsValid e
    → ((pre : List Text) (l r : Text) (post : List Text)
        → Parts e pre l r post
        → P (at e pre l r post))
    → P e
by_parts P e v all =
    let (pre, l, r, post, p) = at_of e v.line_in v.column_in in
    subst P (sym p) (all pre l r post (IsValid-at e pre l r post (subst IsValid p v)))
