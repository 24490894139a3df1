-- ===== src/Tui/Editor/Session.antt =====
-- crates/rupi-tui/src/editor.rs: whole runs of the editor, from its start.
use pi_rs.Prelude.{
  ℕ, ◌≡◌, ◌≢◌, sym, ap, ◌∙◌, Bool, [], ◌∷◌, ◌++◌, arith, length, length-append, take,
  take-append_length,
}
use pi_rs.Prelude.Text.{Text}
use pi_rs.Tui.Editor.{Editor, Intent, with_width, set_width}
use pi_rs.Tui.Editor.Apply.{apply}
use pi_rs.Tui.Editor.Buffer.{insert_str, without_returns, delete_backward}
use pi_rs.Tui.Editor.Deletes.{
  Leaves, ErasesBefore, nothing_before, erases_before, delete_backward-ErasesBefore,
}
use pi_rs.Tui.Editor.Edits.{insert_str-Typed}
use pi_rs.Tui.Editor.Keeps.{apply-IsValid}
use pi_rs.Tui.Editor.Valid.{IsValid}
use pi_rs.Tui.Editor.Views.{before, after}

-- The editors that a terminal of some width can come to.
pub data Reached (is_alphanumeric : ℕ → Bool) : Editor → Type 0 where
  started : (width : ℕ) → Reached is_alphanumeric (with_width width)
  acted :
      (e : Editor) (intent : Intent)
      → Reached is_alphanumeric e
      → Reached is_alphanumeric (apply is_alphanumeric e intent).0
  widened :
      (e : Editor) (width : ℕ)
      → Reached is_alphanumeric e
      → Reached is_alphanumeric (set_width e width)

with_width-IsValid : (width : ℕ) → IsValid (with_width width)
unfolding with_width
with_width-IsValid width = record {
  line_in = omega arith;
  column_in = omega arith;
  one_line = (tt, tt);
  words = tt;
  wide = omega arith;
  recalls = tt;
}

set_width-IsValid : (e : Editor) (width : ℕ) → IsValid e → IsValid (set_width e width)
unfolding set_width
set_width-IsValid e width v = record {
  line_in = v.line_in;
  column_in = v.column_in;
  one_line = v.one_line;
  words = v.words;
  wide = omega arith;
  recalls = v.recalls;
}

-- Every editor that a user can come to is valid, by any intents and changes of the width in any
-- order, where no completions are registered.
pub Reached-IsValid :
    (is_alphanumeric : ℕ → Bool) (e : Editor) → Reached is_alphanumeric e → IsValid e
Reached-IsValid is_alphanumeric _ (started width) = with_width-IsValid width
Reached-IsValid is_alphanumeric _ (acted e intent r) =
    apply-IsValid is_alphanumeric e intent (Reached-IsValid is_alphanumeric e r)
Reached-IsValid is_alphanumeric _ (widened e width r) =
    set_width-IsValid e width (Reached-IsValid is_alphanumeric e r)

snoc_injective : (s t : Text) (c d : ℕ) → s ++ c ∷ [] ≡ t ++ d ∷ [] → s ≡ t
snoc_injective s t c d h =
    let same : length s ≡ length t =
      omega (
        arith,
        length-append s (c ∷ []),
        length-append t (d ∷ []),
        ap (λ (u : Text). length u) h,
      ) in
    sym (take-append_length s (c ∷ []))
    ∙ ap (λ (u : Text). take (length s) u) h
    ∙ ap (λ (n : ℕ). take n (t ++ d ∷ [])) same
    ∙ take-append_length t (d ∷ [])

no_return : (c : ℕ) → c ≢ b'\r' → without_returns (c ∷ []) ≡ c ∷ []
unfolding without_returns
no_return c h = ground arith

undone :
    (e typed : Editor) (c : ℕ) (done : Editor × Bool)
    → before typed ≡ before e ++ c ∷ []
    → after typed ≡ after e
    → ErasesBefore typed done
    → Leaves (before e) (after e) done
undone e typed c done h k (nothing_before p q) =
    let empty : length (before e ++ c ∷ []) ≡ 0 = ap (λ (u : Text). length u) (sym h ∙ p) in
    absurd (omega (arith, empty, length-append (before e) (c ∷ [])))
undone e typed c done h k (erases_before s d p l) = record {
  done_true = l.done_true;
  done_before = l.done_before ∙ snoc_injective s (before e) d c (sym p ∙ h);
  done_after = l.done_after ∙ k;
  done_valid = l.done_valid;
}

-- A character that is typed, a newline too, and that is no carriage return, is taken back by
-- backspace: a valid editor has the text and the place of the caret that it had.
pub delete_backward-insert_str :
    (e : Editor) (c : ℕ)
    → IsValid e
    → c ≢ b'\r'
    → Leaves (before e) (after e) (delete_backward (insert_str e (c ∷ [])))
delete_backward-insert_str e c v h =
    let typed = insert_str-Typed e (c ∷ []) v in
    undone e (insert_str e (c ∷ [])) c (delete_backward (insert_str e (c ∷ [])))
      (typed.typed_before ∙ ap (λ (t : Text). before e ++ t) (no_return c h)) typed.typed_after
      (delete_backward-ErasesBefore (insert_str e (c ∷ [])) typed.typed_valid)
