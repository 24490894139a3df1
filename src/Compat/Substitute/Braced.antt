-- ===== src/Compat/Substitute/Braced.antt =====
-- crates/rupi-compat/src/substitute.rs: what `braced` gives for each form of the grammar.
use pi_rs.Prelude.{
  ℕ, suc, ◌-◌, ◌≡◌, refl, sym, ap, ◌∙◌, true, false, Option, none, some, List, [], ◌∷◌, ◌++◌, take,
  drop, zero, get_or, append-nil, ◌==◌, arith,
}
use pi_rs.Prelude.Text.{Text, text_eq, Lacks, Lacks-append, split_once}
use pi_rs.Compat.Substitute.{
  is_ascii_digit, is_digits_loop, is_digits, parse_usize, join, positional, slice_length, slice_at,
  slice_parts, slice_from, or_verbatim, or_default, is_all, value_of, with_spec, braced_parts,
  braced,
}
use pi_rs.Compat.Substitute.Pieces.{
  Placeholder, at_position, at_position_or, all_arguments, all_arguments_or, from_position,
  some_from, inner_of, number, value, AllArguments, at_sign, spelled_out, all_name, argument,
  arguments_from, each_after_space, spaced, unless_empty, IsPosition, IsPlaceholder,
}

pub split_once-lacks : (d : ℕ) (a b : Text) → Lacks d a → split_once d (a ++ (d ∷ b)) ≡ some (a, b)
unfolding split_once
split_once-lacks d [] b h = ground arith
split_once-lacks d (c ∷ a) b h = ground (arith, split_once-lacks d a b)

split_once-none : (d : ℕ) (a : Text) → Lacks d a → split_once d a ≡ none
unfolding split_once
split_once-none d [] h = refl
split_once-none d (c ∷ a) h = ground (arith, split_once-none d a)

-- Digits hold none of the characters of the grammar.
digits-Lacks : (d : ℕ) (s : Text) → is_ascii_digit d ≡ false → is_digits_loop s ≡ true → Lacks d s
unfolding is_digits_loop
digits-Lacks d [] h k = tt
digits-Lacks d (c ∷ s) h k = (ground arith, digits-Lacks d s h (ground arith))

digits_not_all : (s : Text) → is_digits s ≡ true → is_all s ≡ false
unfolding is_digits is_digits_loop is_all text_eq
digits_not_all [] h = ground arith
digits_not_all (c ∷ s) h =
    let first : is_ascii_digit c ≡ true = ground arith in
    let at : (c == b'@') ≡ false = ground arith in
    let a : (c == b'A') ≡ false = ground arith in rw (at, a) refl

pub is_digits→loop : (s : Text) → is_digits s ≡ true → is_digits_loop s ≡ true
unfolding is_digits
is_digits→loop s h = ground arith

no_colon : (digits : Text) → is_digits digits ≡ true → Lacks b':' digits
no_colon digits h = digits-Lacks b':' digits refl (is_digits→loop digits h)

value_of-all : (args : List Text) (name : AllArguments) → value_of args (all_name name) ≡ join args
unfolding value_of is_all text_eq
value_of-all args at_sign = refl
value_of-all args spelled_out = refl

slice_from-position :
    (args : List Text) (digits : Text) (n : ℕ)
    → parse_usize digits ≡ some (suc n)
    → is_digits digits ≡ true
    → slice_from args digits ≡ some (join (drop n args))
unfolding slice_from slice_parts slice_at
slice_from-position args digits n h k = rw (split_once-none b':' digits (no_colon digits k), h) refl

slice_from-count :
    (args : List Text) (digits count : Text) (n m : ℕ)
    → parse_usize digits ≡ some (suc n)
    → parse_usize count ≡ some m
    → is_digits digits ≡ true
    → slice_from args (digits ++ b':' ∷ count) ≡ some (join (take m (drop n args)))
unfolding slice_from slice_parts slice_at slice_length
slice_from-count args digits count n m h l k =
    rw (split_once-lacks b':' digits count (no_colon digits k), h, l) refl

-- The name of all arguments is one, and has no colon in it.
name_is_all : (name : AllArguments) → is_all (all_name name) ≡ true
unfolding is_all text_eq
name_is_all at_sign = refl
name_is_all spelled_out = refl

name-Lacks : (name : AllArguments) → Lacks b':' (all_name name)
name-Lacks at_sign = omega arith
name-Lacks spelled_out = omega arith

name-Lacks_brace : (name : AllArguments) → Lacks b'}' (all_name name)
name-Lacks_brace at_sign = omega arith
name-Lacks_brace spelled_out = omega arith

-- A specification that begins with a digit asks for a part of the arguments.
with_spec-slice :
    (args : List Text) (inner target : Text) (c : ℕ) (s part : Text)
    → is_all target ≡ true
    → slice_from args (c ∷ s) ≡ some part
    → (c == b'-') ≡ false
    → with_spec args inner target (c ∷ s) ≡ part
unfolding with_spec or_verbatim
with_spec-slice args inner target c s part a h k =
    rw (k, a) (ap (λ (o : Option Text). or_verbatim o inner) h)

-- What stands behind the name of all arguments.
braced-spec :
    (args : List Text) (name : AllArguments) (spec : Text)
    → braced args (all_name name ++ b':' ∷ spec)
      ≡ with_spec args (all_name name ++ b':' ∷ spec) (all_name name) spec
unfolding braced braced_parts
braced-spec args name spec =
    rw (split_once-lacks b':' (all_name name) spec (name-Lacks name), name_is_all name) refl

pub no_digits : is_digits [] ≡ true → ⊥
unfolding is_digits
no_digits h = cc

pub digit_first : (c : ℕ) (s : Text) → is_digits (c ∷ s) ≡ true → is_ascii_digit c ≡ true
unfolding is_digits is_digits_loop
digit_first c s h = ground arith

no_dash : (c : ℕ) (s : Text) → is_digits (c ∷ s) ≡ true → (c == b'-') ≡ false
unfolding is_digits is_digits_loop
no_dash c s h = ground arith

-- The functions of the code give what the grammar says.
join-cons : (a : Text) (args : List Text) → join (a ∷ args) ≡ a ++ each_after_space args
unfolding join
join-cons a [] = sym (append-nil a)
join-cons a (b ∷ args) = ap (λ (t : Text). a ++ b' ' ∷ t) (join-cons b args)

pub join-spaced : (args : List Text) → join args ≡ spaced args
unfolding join
join-spaced [] = refl
join-spaced (a ∷ args) = join-cons a args

get_or-argument : (n : ℕ) (args : List Text) → get_or args n [] ≡ argument (suc n) args
get_or-argument n [] = refl
get_or-argument zero (a ∷ args) = refl
get_or-argument (suc n) (a ∷ args) = get_or-argument n args

drop-arguments_from : (n : ℕ) (args : List Text) → drop n args ≡ arguments_from (suc n) args
drop-arguments_from zero args = refl
drop-arguments_from (suc n) [] = refl
drop-arguments_from (suc n) (a ∷ args) = drop-arguments_from n args

or_default-unless_empty : (t default : Text) → or_default t default ≡ unless_empty t default
or_default-unless_empty [] default = refl
or_default-unless_empty (c ∷ t) default = refl

pub positional-argument :
    (args : List Text) (digits : Text)
    → IsPosition digits
    → positional args (number digits) ≡ argument (number digits) args
positional-argument args digits (n, h, k) =
    let e : suc n - 1 ≡ n = omega arith in rw (h, e) (get_or-argument n args)

pub number_lem : (digits : Text) (n : ℕ) → parse_usize digits ≡ some n → number digits ≡ n
number_lem digits n h = rw h refl

pub braced-value :
    (args : List Text) (p : Placeholder) → IsPlaceholder p → braced args (inner_of p) ≡ value args p
unfolding braced braced_parts with_spec
braced-value args (at_position digits) (n, h, k) =
    rw (split_once-none b':' digits (no_colon digits k), digits_not_all digits k, k)
      (positional-argument args digits (n, h, k))
braced-value args (at_position_or digits default) ((n, h, k), l) =
    rw
      (
        split_once-lacks b':' digits (b'-' ∷ default) (no_colon digits k),
        digits_not_all digits k,
        k,
      )
      (ap (λ (t : Text). or_default t default) (positional-argument args digits (n, h, k))
        ∙ or_default-unless_empty _ default)
braced-value args (all_arguments at_sign) h = join-spaced args
braced-value args (all_arguments spelled_out) h = join-spaced args
braced-value args (all_arguments_or name default) h =
    braced-spec args name (b'-' ∷ default)
    ∙ ap (λ (t : Text). or_default t default) (value_of-all args name ∙ join-spaced args)
    ∙ or_default-unless_empty _ default
braced-value args (from_position name []) (n, h, k) = absurd (no_digits k)
braced-value args (from_position name (c ∷ s)) (n, h, k) =
    braced-spec args name (c ∷ s)
    ∙ with_spec-slice args _ (all_name name) c s _ (name_is_all name)
        (slice_from-position args (c ∷ s) n h k) (no_dash c s k)
    ∙ join-spaced _
    ∙ ap spaced (
        drop-arguments_from n args
        ∙ ap (λ (i : ℕ). arguments_from i args) (sym (number_lem (c ∷ s) (suc n) h)))
braced-value args (some_from name [] count) ((n, h, k), (m, l, o)) = absurd (no_digits k)
braced-value args (some_from name (c ∷ s) count) ((n, h, k), (m, l, o)) =
    braced-spec args name (c ∷ (s ++ b':' ∷ count))
    ∙ with_spec-slice args _ (all_name name) c (s ++ b':' ∷ count) _ (name_is_all name)
        (slice_from-count args (c ∷ s) count n m h l k) (no_dash c s k)
    ∙ join-spaced _
    ∙ ap (λ (xs : List Text). spaced (take m xs))
        (drop-arguments_from n args
          ∙ ap (λ (i : ℕ). arguments_from i args) (sym (number_lem (c ∷ s) (suc n) h)))
    ∙ ap (λ (i : ℕ). spaced (take i (arguments_from (number (c ∷ s)) args)))
        (sym (number_lem count m l))

-- No placeholder holds a closing brace.
pub inner-Lacks : (p : Placeholder) → IsPlaceholder p → Lacks b'}' (inner_of p)
inner-Lacks (at_position digits) (n, h, k) = digits-Lacks b'}' digits refl (is_digits→loop digits k)
inner-Lacks (at_position_or digits default) ((n, h, k), l) =
    Lacks-append b'}' digits (b':' ∷ b'-' ∷ default)
      (digits-Lacks b'}' digits refl (is_digits→loop digits k)) (omega arith, (omega arith, l))
inner-Lacks (all_arguments name) h = name-Lacks_brace name
inner-Lacks (all_arguments_or name default) h =
    Lacks-append b'}' (all_name name) (b':' ∷ b'-' ∷ default) (name-Lacks_brace name)
      (omega arith, (omega arith, h))
inner-Lacks (from_position name digits) (n, h, k) =
    Lacks-append b'}' (all_name name) (b':' ∷ digits) (name-Lacks_brace name)
      (omega arith, digits-Lacks b'}' digits refl (is_digits→loop digits k))
inner-Lacks (some_from name digits count) ((n, h, k), (m, l, o)) =
    Lacks-append b'}' (all_name name) (b':' ∷ (digits ++ b':' ∷ count)) (name-Lacks_brace name) (
      omega arith,
      Lacks-append b'}' digits (b':' ∷ count)
          (digits-Lacks b'}' digits refl (is_digits→loop digits k))
          (omega arith, digits-Lacks b'}' count refl (is_digits→loop count o)),
    )
