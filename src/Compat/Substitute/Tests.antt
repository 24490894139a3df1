-- ===== src/Compat/Substitute/Tests.antt =====
-- crates/rupi-compat/src/substitute.rs: a template, and the position zero.
use pi_rs.Prelude.{◌≡◌, refl, List, [], ◌∷◌, arith}
use pi_rs.Prelude.Text.{Text, codes}
use pi_rs.Compat.Substitute.{substitute, is_digits, parse_usize}
use pi_rs.Compat.Substitute.Pieces.{
  Piece, literal, hole, bare_position, bare_all, at_position_or, some_from, all_arguments_or,
  at_sign, spelled_out, print_all, meaning_all, AllPieces,
}
use pi_rs.Compat.Substitute.Expands.{substitute-print_all}

abbrev arguments : List Text
arguments = codes "a" ∷ codes "b" ∷ codes "c" ∷ []

abbrev template : List Piece
template =
    literal (codes "run ")
    ∷ hole (at_position_or (codes "5") (codes "all"))
    ∷ literal (codes " on ")
    ∷ hole (some_from at_sign (codes "2") (codes "2"))
    ∷ hole (all_arguments_or spelled_out (codes "none"))
    ∷ bare_position (codes "1")
    ∷ literal (codes ", ")
    ∷ bare_all spelled_out
    ∷ []

well_formed : AllPieces template
unfolding parse_usize is_digits
well_formed = (
  omega arith,
  tt,
  (
    ((4, refl, refl), omega arith),
    tt,
    (
      omega arith,
      tt,
      (
        ((1, refl, refl), (2, refl, refl)),
        tt,
        (omega arith, tt, ((0, refl, refl), λ h. cc, (omega arith, tt, (tt, λ h. h, tt)))),
      ),
    ),
  ),
)

written : substitute (codes "run ${5:-all} on ${@:2:2}") arguments ≡ codes "run all on b c"
unfolding substitute
written = refl

-- There is no position zero, but the first argument is given for it.
position_zero : substitute (codes "${0}") arguments ≡ codes "a"
unfolding substitute
position_zero = refl

substitute-print_all_example :
    substitute (print_all template) arguments ≡ meaning_all arguments template
substitute-print_all_example = substitute-print_all arguments template well_formed
