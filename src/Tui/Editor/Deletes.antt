-- ===== src/Tui/Editor/Deletes.antt =====
-- crates/rupi-tui/src/editor.rs: backspace and delete, as removals from the text beside the caret.
use pi_rs.Prelude.{
  ℕ, ◌+◌, ◌≡◌, refl, sym, subst, ◌∙◌, Bool, true, false, List, [], ◌∷◌, ◌++◌, arith, length,
  append_assoc, append-nil, get_or-append, length-append, le→leb, le→ltb,
}
use pi_rs.Prelude.Text.{Text, Lacks, AllLack, Lacks-parts, AllLack-parts}
use pi_rs.Tui.Editor.{Editor}
use pi_rs.Tui.Editor.Buffer.{delete_backward, delete_ahead}
use pi_rs.Tui.Editor.Edits.{with_left}
use pi_rs.Tui.Editor.Valid.{IsValid, Parts, at-IsValid, by_parts}
use pi_rs.Tui.Editor.Views.{
  before, after, before-at, after-at, lines_above, lines_below, lines_above-append,
}
use pi_rs.Tui.Editor.Zipper.{
  at, delete_backward-at, delete_ahead-at, join_backward-at, join_ahead-at,
}

-- What an edit with its flag leaves, given the two texts.
pub record Leaves (b a : Text) (done : Editor × Bool) : Type 0 where
  pub done_true : done.1 ≡ true
  pub done_before : before done.0 ≡ b
  pub done_after : after done.0 ≡ a
  pub done_valid : IsValid done.0

-- Nothing stands before the caret and nothing happens, or the last character of it goes.
pub data ErasesBefore (e : Editor) (done : Editor × Bool) : Type 0 where
  nothing_before : before e ≡ [] → done ≡ (e, false) → ErasesBefore e done
  erases_before :
      (s : Text) (c : ℕ) → before e ≡ s ++ c ∷ [] → Leaves s (after e) done → ErasesBefore e done

pub data ErasesAfter (e : Editor) (done : Editor × Bool) : Type 0 where
  nothing_after : after e ≡ [] → done ≡ (e, false) → ErasesAfter e done
  erases_after :
      (s : Text) (c : ℕ) → after e ≡ c ∷ s → Leaves (before e) s done → ErasesAfter e done

module _ {ℓ} {A : Type ℓ} where
  -- A list is empty, or it has a last element.
  by_last {ℓ'} :
      (P : List A → Type ℓ') (xs : List A) → P [] → ((s : List A) (c : A) → P (s ++ c ∷ [])) → P xs
  by_last P [] start step = start
  by_last P (x ∷ xs) start step = by_last (λ ys. P (x ∷ ys)) xs (step [] x) λ s c. step (x ∷ s) c

at-Leaves :
    (e : Editor) (pre : List Text) (l r : Text) (post : List Text) (b a : Text)
    (done : Editor × Bool)
    → done ≡ (at e pre l r post, true)
    → Parts e pre l r post
    → lines_above pre ++ l ≡ b
    → r ++ lines_below post ≡ a
    → Leaves b a done
at-Leaves e pre l r post b a done p h x y = subst (Leaves b a) (sym p) (record {
  done_true = refl;
  done_before = before-at e pre l r post ∙ x;
  done_after = after-at e pre l r post ∙ y;
  done_valid = at-IsValid e pre l r post h;
})

above_less :
    (e : Editor) (pre : List Text) (x r : Text) (post : List Text)
    → Parts e (pre ++ x ∷ []) [] r post
    → Parts e pre x r post
above_less e pre x r post p =
    let (a, b) = AllLack-parts b'\n' pre (x ∷ []) p.above in
    record {
      above = a;
      left = b.0;
      right = p.right;
      below = p.below;
      words = p.words;
      wide = p.wide;
      recalls = p.recalls;
    }

right_and_below :
    (e : Editor) (pre : List Text) (l r r' : Text) (post post' : List Text)
    → Parts e pre l r post
    → Lacks b'\n' r'
    → AllLack b'\n' post'
    → Parts e pre l r' post'
right_and_below e pre l r r' post post' p h k = record {
  above = p.above;
  left = p.left;
  right = h;
  below = k;
  words = p.words;
  wide = p.wide;
  recalls = p.recalls;
}

module _ (e : Editor) (pre : List Text) (l r : Text) (post : List Text) where
  char_before :
      (c : ℕ)
      → Parts e pre (l ++ c ∷ []) r post
      → ErasesBefore
          (at e pre (l ++ c ∷ []) r post)
          (delete_backward (at e pre (l ++ c ∷ []) r post))
  char_before c p =
      erases_before (lines_above pre ++ l) c
        (before-at e pre (l ++ c ∷ []) r post ∙ sym (append_assoc (lines_above pre) l (c ∷ [])))
        (at-Leaves e pre l r post _ _ _ (delete_backward-at e pre l r post c)
          (with_left e pre _ l r post p (Lacks-parts b'\n' l (c ∷ []) p.left).0) refl
          (sym (after-at e pre (l ++ c ∷ []) r post)))

  line_before :
      (x : Text)
      → Parts e (pre ++ x ∷ []) [] r post
      → ErasesBefore
          (at e (pre ++ x ∷ []) [] r post)
          (delete_backward (at e (pre ++ x ∷ []) [] r post))
  line_before x p =
      erases_before (lines_above pre ++ x) b'\n'
        (before-at e (pre ++ x ∷ []) [] r post
          ∙ simp (lines_above-append pre x, append_assoc, append-nil))
        (at-Leaves e pre x r post _ _ _ (join_backward-at e pre l r post x)
          (above_less e pre x r post p) refl (sym (after-at e (pre ++ x ∷ []) [] r post)))

  char_after :
      (c : ℕ)
      → Parts e pre l (c ∷ r) post
      → ErasesAfter (at e pre l (c ∷ r) post) (delete_ahead (at e pre l (c ∷ r) post))
  char_after c p = erases_after (r ++ lines_below post) c (after-at e pre l (c ∷ r) post) (
      at-Leaves e pre l r post _ _ _ (delete_ahead-at e pre l r post c)
        (right_and_below e pre l (c ∷ r) r post post p p.right.1 p.below)
        (sym (before-at e pre l (c ∷ r) post)) refl)

  line_after :
      (x : Text)
      → Parts e pre l [] (x ∷ post)
      → ErasesAfter (at e pre l [] (x ∷ post)) (delete_ahead (at e pre l [] (x ∷ post)))
  unfolding lines_below
  line_after x p = erases_after (x ++ lines_below post) b'\n' (after-at e pre l [] (x ∷ post)) (
      at-Leaves e pre l x post _ _ _ (join_ahead-at e pre l r post x)
        (right_and_below e pre l [] x (x ∷ post) post p p.below.0 p.below.1)
        (sym (before-at e pre l [] (x ∷ post))) refl)

no_char_before :
    (e : Editor) (r : Text) (post : List Text)
    → ErasesBefore (at e [] [] r post) (delete_backward (at e [] [] r post))
unfolding delete_backward lines_above
no_char_before e r post = nothing_before (before-at e [] [] r post) refl

no_char_after :
    (e : Editor) (pre : List Text) (l : Text)
    → ErasesAfter (at e pre l [] []) (delete_ahead (at e pre l [] []))
unfolding delete_ahead lines_below
no_char_after e pre l = nothing_after (after-at e pre l [] []) (
    rw
      (
        append-nil l,
        get_or-append,
        le→ltb (length l) (length l) (omega arith),
        le→leb (length (pre ++ l ∷ [])) (length pre + 1)
            (omega (arith, length-append pre (l ∷ []))),
      )
      refl)

-- On a valid editor, backspace removes the last character of what stands before the caret and says
-- so, leaves what stands after it, and keeps the editor valid; with nothing before the caret it
-- changes nothing and says that. A newline counts as a character.
pub delete_backward-ErasesBefore : (e : Editor) → IsValid e → ErasesBefore e (delete_backward e)
delete_backward-ErasesBefore e v =
    by_parts (λ e. ErasesBefore e (delete_backward e)) e v
      λ pre l r post.
        by_last
          (λ l.
            Parts e pre l r post
            → ErasesBefore (at e pre l r post) (delete_backward (at e pre l r post)))
          l
          (by_last
            (λ pre.
              Parts e pre [] r post
              → ErasesBefore (at e pre [] r post) (delete_backward (at e pre [] r post)))
            pre (λ p. no_char_before e r post) (λ above x. line_before e above [] r post x))
          (λ s c. char_before e pre s r post c)

ahead_at :
    (e : Editor) (pre : List Text) (l r : Text) (post : List Text)
    → Parts e pre l r post
    → ErasesAfter (at e pre l r post) (delete_ahead (at e pre l r post))
ahead_at e pre l [] [] p = no_char_after e pre l
ahead_at e pre l [] (x ∷ post) p = line_after e pre l [] post x p
ahead_at e pre l (c ∷ r) post p = char_after e pre l r post c p

-- On a valid editor, delete removes the first character of what stands after the caret and says so,
-- leaves what stands before it, and keeps the editor valid; with nothing after the caret it changes
-- nothing and says that. A newline counts as a character.
pub delete_ahead-ErasesAfter : (e : Editor) → IsValid e → ErasesAfter e (delete_ahead e)
delete_ahead-ErasesAfter e v = by_parts (λ e. ErasesAfter e (delete_ahead e)) e v (ahead_at e)

-- The edits keep the editor valid in either case.
pub ErasesBefore-IsValid :
    (e : Editor) (done : Editor × Bool) → IsValid e → ErasesBefore e done → IsValid done.0
ErasesBefore-IsValid e done v (nothing_before p q) =
    subst (λ (x : Editor × Bool). IsValid x.0) (sym q) v
ErasesBefore-IsValid e done v (erases_before s c p l) = l.done_valid

pub ErasesAfter-IsValid :
    (e : Editor) (done : Editor × Bool) → IsValid e → ErasesAfter e done → IsValid done.0
ErasesAfter-IsValid e done v (nothing_after p q) =
    subst (λ (x : Editor × Bool). IsValid x.0) (sym q) v
ErasesAfter-IsValid e done v (erases_after s c p l) = l.done_valid
