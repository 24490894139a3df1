-- ===== src/Compat/Substitute/Pieces.antt =====
-- crates/rupi-compat/src/substitute.rs: the grammar that the file documents, as data, and what a
-- template written in it becomes.
use pi_rs.Prelude.{Bool, ℕ, zero, suc, ◌≡◌, true, some, List, [], ◌∷◌, ◌++◌, take}
use pi_rs.Prelude.Text.{Text, codes, Lacks}
use pi_rs.Compat.Substitute.{is_ascii_digit, is_word, is_digits, parse_usize, or_zero}

-- All arguments are asked for by a sign or a word.
pub data AllArguments : Type 0 where
  at_sign spelled_out : AllArguments

abbrev pub all_name : AllArguments → Text
all_name at_sign = codes "@"
all_name spelled_out = codes "ARGUMENTS"

-- Positions and lengths are the digits that stand for them.
pub data Placeholder : Type 0 where
  at_position : (digits : Text) → Placeholder
  at_position_or : (digits default : Text) → Placeholder
  all_arguments : (name : AllArguments) → Placeholder
  all_arguments_or : (name : AllArguments) (default : Text) → Placeholder
  from_position : (name : AllArguments) (digits : Text) → Placeholder
  some_from : (name : AllArguments) (digits count : Text) → Placeholder

pub data Piece : Type 0 where
  literal : Text → Piece
  hole : Placeholder → Piece
  bare_position : (digits : Text) → Piece
  bare_all : (name : AllArguments) → Piece

abbrev pub inner_of : Placeholder → Text
inner_of (at_position digits) = digits
inner_of (at_position_or digits default) = digits ++ b':' ∷ b'-' ∷ default
inner_of (all_arguments name) = all_name name
inner_of (all_arguments_or name default) = all_name name ++ b':' ∷ b'-' ∷ default
inner_of (from_position name digits) = all_name name ++ b':' ∷ digits
inner_of (some_from name digits count) = all_name name ++ b':' ∷ (digits ++ b':' ∷ count)

-- How a piece is written.
abbrev pub print : Piece → Text
print (literal t) = t
print (hole p) = b'$' ∷ b'{' ∷ (inner_of p ++ b'}' ∷ [])
print (bare_position digits) = b'$' ∷ digits
print (bare_all name) = b'$' ∷ all_name name

abbrev pub print_all : List Piece → Text
print_all [] = []
print_all (p ∷ ps) = print p ++ print_all ps

abbrev pub number : Text → ℕ
number digits = or_zero (parse_usize digits)

-- The argument at a position, counted from one; none is an empty text.
abbrev pub argument : ℕ → List Text → Text
argument n [] = []
argument zero (a ∷ args) = []
argument (suc zero) (a ∷ args) = a
argument (suc (suc n)) (a ∷ args) = argument (suc n) args

-- The arguments from a position on, counted from one.
abbrev pub arguments_from : ℕ → List Text → List Text
arguments_from zero args = []
arguments_from (suc zero) args = args
arguments_from (suc (suc n)) [] = []
arguments_from (suc (suc n)) (a ∷ args) = arguments_from (suc n) args

-- Arguments with a space before each but the first.
abbrev pub each_after_space : List Text → Text
each_after_space [] = []
each_after_space (a ∷ args) = b' ' ∷ (a ++ each_after_space args)

abbrev pub spaced : List Text → Text
spaced [] = []
spaced (a ∷ args) = a ++ each_after_space args

abbrev pub unless_empty : Text → Text → Text
unless_empty [] default = default
unless_empty (c ∷ s) default = c ∷ s

-- What a piece stands for, by the words of the grammar and not by the functions of the code.
abbrev pub value : List Text → Placeholder → Text
value args (at_position digits) = argument (number digits) args
value args (at_position_or digits default) = unless_empty (argument (number digits) args) default
value args (all_arguments name) = spaced args
value args (all_arguments_or name default) = unless_empty (spaced args) default
value args (from_position name digits) = spaced (arguments_from (number digits) args)
value args (some_from name digits count) =
    spaced (take (number count) (arguments_from (number digits) args))

abbrev pub meaning : List Text → Piece → Text
meaning args (literal t) = t
meaning args (hole p) = value args p
meaning args (bare_position digits) = argument (number digits) args
meaning args (bare_all name) = spaced args

abbrev pub meaning_all : List Text → List Piece → Text
meaning_all args [] = []
meaning_all args (p ∷ ps) = meaning args p ++ meaning_all args ps

-- Digits that stand for a number from one on that a `usize` can hold; and for any such number.
abbrev pub IsPosition : Text → Type 0
IsPosition digits = (n : ℕ) × (parse_usize digits ≡ some (suc n)) × (is_digits digits ≡ true)

abbrev pub IsCount : Text → Type 0
IsCount digits = (n : ℕ) × (parse_usize digits ≡ some n) × (is_digits digits ≡ true)

-- A default holds no closing brace, and a literal no `$`.
abbrev pub IsPlaceholder : Placeholder → Type 0
IsPlaceholder (at_position digits) = IsPosition digits
IsPlaceholder (at_position_or digits default) = IsPosition digits × Lacks b'}' default
IsPlaceholder (all_arguments name) = Unit
IsPlaceholder (all_arguments_or name default) = Lacks b'}' default
IsPlaceholder (from_position name digits) = IsPosition digits
IsPlaceholder (some_from name digits count) = IsPosition digits × IsCount count

abbrev pub IsPiece : Piece → Type 0
IsPiece (literal t) = Lacks b'$' t
IsPiece (hole p) = IsPlaceholder p
IsPiece (bare_position digits) = IsPosition digits
IsPiece (bare_all name) = Unit

-- A text that goes on the number, or the word, before it.
abbrev pub StartsWith : (ℕ → Bool) → Text → Type 0
StartsWith test [] = ⊥
StartsWith test (c ∷ s) = test c ≡ true

-- Without braces the end of a number or of a word is where the text behind it cannot belong to it.
abbrev pub EndsBefore : Piece → Text → Type 0
EndsBefore (literal t) rest = Unit
EndsBefore (hole p) rest = Unit
EndsBefore (bare_position digits) rest = ¬ StartsWith is_ascii_digit rest
EndsBefore (bare_all at_sign) rest = Unit
EndsBefore (bare_all spelled_out) rest = ¬ StartsWith is_word rest

abbrev pub AllPieces : List Piece → Type 0
AllPieces [] = Unit
AllPieces (p ∷ ps) = IsPiece p × EndsBefore p (print_all ps) × AllPieces ps
