-- ===== src/Compat/Substitute/Expands.antt =====
-- crates/rupi-compat/src/substitute.rs: each piece of a template is expanded to what it stands for.
use pi_rs.Prelude.{
  ◌≤◌, ℕ, suc, ◌≡◌, refl, sym, ap, ◌∙◌, true, false, some, List, [], ◌∷◌, ◌++◌, length,
  length-append, append_assoc, ◌==◌, arith,
}
use pi_rs.Prelude.Text.{Text, Lacks}
use pi_rs.Compat.Substitute.{
  is_ascii_digit, is_digits_loop, parse_usize, positional, expand_braced, expand_at, is_word,
  take_digits, drop_digits, starts_word, expand_digits, expanded, step, substitute_loop, substitute,
}
use pi_rs.Compat.Substitute.Fuel.{substitute_loop_enough}
use pi_rs.Compat.Substitute.Pieces.{
  Placeholder, Piece, literal, hole, bare_position, bare_all, StartsWith, EndsBefore, inner_of,
  print, print_all, number, value, meaning, meaning_all, AllArguments, at_sign, spelled_out,
  all_name, argument, spaced, IsPosition, IsPlaceholder, IsPiece, AllPieces,
}
use pi_rs.Compat.Substitute.Braced.{
  braced-value, inner-Lacks, split_once-lacks, no_digits, digit_first, is_digits→loop, number_lem,
  positional-argument, join-spaced,
}

-- The loop with as much fuel as it takes.
abbrev run : List Text → Text → Text
run args s = substitute_loop (length s) args s

run-cons :
    (args : List Text) (c : ℕ) (s : Text)
    → run args (c ∷ s) ≡ step args (substitute_loop (length s) args) c s
unfolding substitute_loop
run-cons args c s = refl

literal-run :
    (args : List Text) (t rest : Text) → Lacks b'$' t → run args (t ++ rest) ≡ t ++ run args rest
unfolding substitute_loop step
literal-run args [] rest h = refl
literal-run args (c ∷ t) rest (h, hs) =
    let other : (c == b'$') ≡ false = ground arith in
    rw other (ap (c ∷◌) (literal-run args t rest hs))

placeholder-run :
    (args : List Text) (p : Placeholder) (rest : Text)
    → IsPlaceholder p
    → run args (b'$' ∷ b'{' ∷ (inner_of p ++ b'}' ∷ rest)) ≡ value args p ++ run args rest
unfolding substitute_loop step expanded expand_at expand_braced
placeholder-run args p rest h =
    let found = split_once-lacks b'}' (inner_of p) rest (inner-Lacks p h) in
    rw found (
      ap (λ (t : Text). t ++ substitute_loop (suc (length (inner_of p ++ b'}' ∷ rest))) args rest)
        (braced-value args p h)
      ∙ ap (λ (t : Text). value args p ++ t)
          (substitute_loop_enough (suc (length (inner_of p ++ b'}' ∷ rest))) (length rest) args rest
            (omega (arith, length-append (inner_of p) (b'}' ∷ rest))) (omega arith)))

take_digits-append :
    (s rest : Text)
    → is_digits_loop s ≡ true
    → ¬ StartsWith is_ascii_digit rest
    → take_digits (s ++ rest) ≡ s
unfolding take_digits is_digits_loop
take_digits-append [] [] h k = refl
take_digits-append [] (c ∷ rest) h k = ground arith
take_digits-append (c ∷ s) rest h k = ground (arith, take_digits-append s rest)

drop_digits-append :
    (s rest : Text)
    → is_digits_loop s ≡ true
    → ¬ StartsWith is_ascii_digit rest
    → drop_digits (s ++ rest) ≡ rest
unfolding drop_digits is_digits_loop
drop_digits-append [] [] h k = refl
drop_digits-append [] (c ∷ rest) h k = ground arith
drop_digits-append (c ∷ s) rest h k = ground (arith, drop_digits-append s rest)

no_word : (rest : Text) → ¬ StartsWith is_word rest → starts_word rest ≡ false
unfolding starts_word
no_word [] h = refl
no_word (c ∷ rest) h = ground arith

-- A placeholder that `expand_at` knows is replaced, and the run goes on behind it.
expanded-run :
    (args : List Text) (s t rest : Text)
    → expand_at args s ≡ some (t, rest)
    → length rest ≤ length s
    → run args (b'$' ∷ s) ≡ t ++ run args rest
unfolding step expanded
expanded-run args s t rest h shorter =
    run-cons args b'$' s
    ∙ ap (expanded (substitute_loop (length s) args) s) h
    ∙ ap (λ (u : Text). t ++ u)
        (substitute_loop_enough (length s) (length rest) args rest shorter (omega arith))

expand_at-digit :
    (args : List Text) (c : ℕ) (s : Text)
    → is_ascii_digit c ≡ true
    → expand_at args (c ∷ s) ≡ expand_digits args (c ∷ s) (parse_usize (take_digits (c ∷ s)))
unfolding expand_at
expand_at-digit args c s first =
    let brace : (c == b'{') ≡ false = ground arith in
    let at : (c == b'@') ≡ false = ground arith in rw (brace, at, first) refl

expand_digits-position :
    (args : List Text) (digits rest : Text)
    → IsPosition digits
    → ¬ StartsWith is_ascii_digit rest
    → expand_digits args (digits ++ rest) (parse_usize (take_digits (digits ++ rest)))
      ≡ some (argument (number digits) args, rest)
unfolding expand_digits
expand_digits-position args digits rest (n, h, k) stop =
    let all : is_digits_loop digits ≡ true = is_digits→loop digits k in
    ap (expand_digits args (digits ++ rest))
      (ap parse_usize (take_digits-append digits rest all stop) ∙ h)
    ∙ ap (λ (t : Text). some (positional args (suc n), t)) (drop_digits-append digits rest all stop)
    ∙ ap (λ (t : Text). some (t, rest))
        (ap (positional args) (sym (number_lem digits (suc n) h))
          ∙ positional-argument args digits (n, h, k))

expand_at-position :
    (args : List Text) (digits rest : Text)
    → IsPosition digits
    → ¬ StartsWith is_ascii_digit rest
    → expand_at args (digits ++ rest) ≡ some (argument (number digits) args, rest)
expand_at-position args [] rest (n, h, k) stop = absurd (no_digits k)
expand_at-position args (c ∷ s) rest (n, h, k) stop =
    expand_at-digit args c (s ++ rest) (digit_first c s k)
    ∙ expand_digits-position args (c ∷ s) rest (n, h, k) stop

expand_at-name :
    (args : List Text) (name : AllArguments) (rest : Text)
    → EndsBefore (bare_all name) rest
    → expand_at args (all_name name ++ rest) ≡ some (spaced args, rest)
unfolding expand_at
expand_at-name args at_sign rest stop = ap (λ (t : Text). some (t, rest)) (join-spaced args)
expand_at-name args spelled_out rest stop =
    rw (no_word rest stop) (ap (λ (t : Text). some (t, rest)) (join-spaced args))

piece-run :
    (args : List Text) (p : Piece) (rest : Text)
    → IsPiece p
    → EndsBefore p rest
    → run args (print p ++ rest) ≡ meaning args p ++ run args rest
piece-run args (literal t) rest h stop = literal-run args t rest h
piece-run args (hole p) rest h stop =
    ap (λ (t : Text). run args (b'$' ∷ b'{' ∷ t)) (append_assoc (inner_of p) (b'}' ∷ []) rest)
    ∙ placeholder-run args p rest h
piece-run args (bare_position digits) rest h stop =
    expanded-run args (digits ++ rest) _ rest (expand_at-position args digits rest h stop)
      (omega (arith, length-append digits rest))
piece-run args (bare_all name) rest h stop =
    expanded-run args (all_name name ++ rest) _ rest (expand_at-name args name rest stop)
      (omega (arith, length-append (all_name name) rest))

-- A template that is written in the documented grammar, of texts without `$` and placeholders, in
-- braces or bare, becomes what its pieces stand for, one after another: a text is left alone, and a
-- placeholder gives the argument at its position, counted from one, or its default where that is
-- empty, all arguments with spaces between them, those from a position on, or a number of them from
-- there. A bare number ends before what is no digit, and a bare `$ARGUMENTS` before what cannot stand in
-- a word.
pub substitute-print_all :
    (args : List Text) (ps : List Piece)
    → AllPieces ps
    → substitute (print_all ps) args ≡ meaning_all args ps
unfolding substitute
substitute-print_all args [] h = refl
substitute-print_all args (p ∷ ps) (h, stop, hs) =
    piece-run args p (print_all ps) h stop
    ∙ ap (λ (t : Text). meaning args p ++ t) (substitute-print_all args ps hs)
