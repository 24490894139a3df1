-- ===== src/Compat/Substitute.antt =====
-- crates/rupi-compat/src/substitute.rs: arguments in a prompt template. The index into the bytes of the
-- body is the text that is left; the loop runs on fuel, one unit for a character or a placeholder.
pub mod Fuel
pub mod Pieces
pub mod Braced
pub mod Expands
mod Tests
use pi_rs.Prelude.{
  ℕ, zero, suc, ◌+◌, ◌-◌, ◌*◌, ◌^◌, Bool, true, false, not, ◌&&◌, ◌||◌, Option, none, some, List,
  [], ◌∷◌, ◌++◌, length, is_empty, take, drop, get_or, ltb, leb, ◌==◌, if◌then◌else◌,
}
use pi_rs.Prelude.Text.{Text, codes, text_eq, starts_with, within, split_once}

abbrev pub is_ascii_digit : ℕ → Bool
is_ascii_digit c = within b'0' b'9' c

abbrev pub is_word : ℕ → Bool
is_word c = is_ascii_digit c || within b'a' b'z' c || within b'A' b'Z' c || c == b'_'

unfoldable pub is_digits_loop : Text → Bool
is_digits_loop [] = true
is_digits_loop (c ∷ s) = is_ascii_digit c && is_digits_loop s

unfoldable pub is_digits : Text → Bool
unfolding is_digits_loop
is_digits s = not (is_empty s) && is_digits_loop s

-- `str::parse::<usize>`: an optional sign, digits, and a value that fits.
unfoldable pub value_from : ℕ → Text → ℕ
value_from acc [] = acc
value_from acc (c ∷ s) = value_from (acc * 10 + (c - b'0')) s

unfoldable pub parse_digits : Text → Option ℕ
unfolding is_digits value_from
parse_digits s =
    if is_digits s && leb (value_from 0 s) (2 ^ 64 - 1) then some (value_from 0 s) else none

unfoldable pub parse_usize : Text → Option ℕ
unfolding parse_digits
parse_usize [] = none
parse_usize (c ∷ s) = if c == b'+' then parse_digits s else parse_digits (c ∷ s)

-- `args.join(" ")`
unfoldable pub join : List Text → Text
join [] = []
join (a ∷ []) = a
join (a ∷ b ∷ args) = a ++ b' ' ∷ join (b ∷ args)

abbrev pub positional : List Text → ℕ → Text
positional args index = get_or args (index - 1) []

abbrev pub verbatim : Text → Text
verbatim inner = b'$' ∷ b'{' ∷ (inner ++ b'}' ∷ [])

unfoldable pub slice_length : List Text → Option ℕ → Option Text
unfolding join
slice_length from none = none
slice_length from (some n) = some (join (take n from))

unfoldable pub slice_at : List Text → Option ℕ → Option Text → Option Text
unfolding slice_length join parse_usize
slice_at args none count = none
slice_at args (some zero) count = none
slice_at args (some (suc n)) none = some (join (drop n args))
slice_at args (some (suc n)) (some count) = slice_length (drop n args) (parse_usize count)

unfoldable pub slice_parts : List Text → Text → Option (Text × Text) → Option Text
unfolding slice_at parse_usize
slice_parts args spec none = slice_at args (parse_usize spec) none
slice_parts args spec (some (start, count)) = slice_at args (parse_usize start) (some count)

unfoldable pub slice_from : List Text → Text → Option Text
unfolding slice_parts split_once
slice_from args spec = slice_parts args spec (split_once b':' spec)

unfoldable pub or_verbatim : Option Text → Text → Text
or_verbatim none inner = verbatim inner
or_verbatim (some value) inner = value

abbrev pub or_zero : Option ℕ → ℕ
or_zero none = 0
or_zero (some n) = n

unfoldable pub is_all : Text → Bool
unfolding text_eq
is_all target = text_eq target (codes "@") || text_eq target (codes "ARGUMENTS")

unfoldable pub value_of : List Text → Text → Text
unfolding is_all join parse_usize
value_of args target =
    if is_all target then join args else positional args (or_zero (parse_usize target))

abbrev pub or_default : Text → Text → Text
or_default value default = if is_empty value then default else value

-- What stands behind the colon.
unfoldable pub with_spec : List Text → Text → Text → Text → Text
unfolding value_of is_all slice_from or_verbatim
with_spec args inner target [] =
    if is_all target then or_verbatim (slice_from args []) inner else verbatim inner
with_spec args inner target (c ∷ s) =
    if c == b'-'
    then or_default (value_of args target) s
    else if is_all target
    then or_verbatim (slice_from args (c ∷ s)) inner
    else verbatim inner

unfoldable pub braced_parts : List Text → Text → Option (Text × Text) → Text
unfolding is_all is_digits value_of with_spec
braced_parts args inner none =
    if is_all inner || is_digits inner then value_of args inner else verbatim inner
braced_parts args inner (some (target, spec)) =
    if is_all target || is_digits target then with_spec args inner target spec else verbatim inner

unfoldable pub braced : List Text → Text → Text
unfolding braced_parts split_once
braced args inner = braced_parts args inner (split_once b':' inner)

unfoldable pub take_digits : Text → Text
take_digits [] = []
take_digits (c ∷ s) = if is_ascii_digit c then c ∷ take_digits s else []

unfoldable pub drop_digits : Text → Text
drop_digits [] = []
drop_digits (c ∷ s) = if is_ascii_digit c then drop_digits s else c ∷ s

unfoldable pub starts_word : Text → Bool
starts_word [] = false
starts_word (c ∷ s) = is_word c

unfoldable pub expand_braced : List Text → Option (Text × Text) → Option (Text × Text)
unfolding braced
expand_braced args none = none
expand_braced args (some (inner, rest)) = some (braced args inner, rest)

unfoldable pub expand_digits : List Text → Text → Option ℕ → Option (Text × Text)
unfolding drop_digits
expand_digits args s none = none
expand_digits args s (some n) = some (positional args n, drop_digits s)

-- What follows a `$`: the text that it becomes, and the text behind it.
unfoldable pub expand_at : List Text → Text → Option (Text × Text)
unfolding expand_braced split_once join expand_digits parse_usize take_digits starts_with
    starts_word
expand_at args [] = none
expand_at args (c ∷ s) =
    if c == b'{'
    then expand_braced args (split_once b'}' s)
    else if c == b'@'
    then some (join args, s)
    else if is_ascii_digit c
    then expand_digits args (c ∷ s) (parse_usize (take_digits (c ∷ s)))
    else if starts_with (c ∷ s) (codes "ARGUMENTS") && not (starts_word (drop 9 (c ∷ s)))
    then some (join args, drop 9 (c ∷ s))
    else none

unfoldable pub expanded : (Text → Text) → Text → Option (Text × Text) → Text
expanded next s none = b'$' ∷ next s
expanded next s (some (replacement, rest)) = replacement ++ next rest

unfoldable pub step : List Text → (Text → Text) → ℕ → Text → Text
unfolding expanded expand_at
step args next c s = if c == b'$' then expanded next s (expand_at args s) else c ∷ next s

unfoldable pub substitute_loop : ℕ → List Text → Text → Text
unfolding step
substitute_loop zero args s = []
substitute_loop (suc fuel) args [] = []
substitute_loop (suc fuel) args (c ∷ s) = step args (substitute_loop fuel args) c s

unfoldable pub substitute : Text → List Text → Text
unfolding substitute_loop
substitute body args = substitute_loop (length body) args body
