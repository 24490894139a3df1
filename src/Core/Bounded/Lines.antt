-- ===== src/Core/Bounded/Lines.antt =====
-- crates/rupi-core/src/bounded.rs: the first line of some bytes, which the reader should give, and what
-- joins to the bytes do to it.
use pi_rs.Prelude.{
  ℕ, ◌≡◌, refl, ◌&&◌, Option, none, some, List, [], ◌∷◌, ◌++◌, is_empty, length, take, leb,
  if◌then◌else◌, arith,
}
use pi_rs.Core.Bounded.{
  Bytes, Event, chunk, failure, LineOverflow, reject, truncate, BoundedLine, complete, truncated,
  invalid_data, ok, err, new, Step, unread, before_newline, after_newline,
}

-- The bytes that a source still has to give.
abbrev pub flat : List Event → Bytes
flat [] = []
flat (chunk b bs ∷ es) = b ∷ (bs ++ flat es)
flat (failure e ∷ es) = flat es

abbrev pub NoFailure : List Event → Type 0
NoFailure [] = Unit
NoFailure (chunk b bs ∷ es) = NoFailure es
NoFailure (failure e ∷ es) = ⊥

-- The bytes behind the newline, and the newline itself, of `after_newline bs`.
unfoldable pub remainder : Option Bytes → Bytes
remainder none = []
remainder (some rest) = rest

unfoldable pub terminator : Option Bytes → Bytes
terminator none = []
terminator (some rest) = b'\n' ∷ []

unfoldable pub refused :
    LineOverflow → Option BoundedLine × Bytes → Option (Option BoundedLine × Bytes)
refused reject cut_line = none
refused truncate cut_line = some cut_line

-- The line that begins with `line` and goes on in `bs`, with the bytes behind it; `none` if it is
-- refused.
abbrev pub line_from : ℕ → LineOverflow → Bytes → Bytes → Option (Option BoundedLine × Bytes)
line_from limit overflow line bs =
    if is_empty line && is_empty bs
    then some (none, [])
    else if leb (length (line ++ before_newline bs)) limit
    then some (
      some (complete (line ++ (before_newline bs ++ terminator (after_newline bs)))),
      remainder (after_newline bs),
    )
    else refused overflow
        (some (truncated (take limit (line ++ before_newline bs))), remainder (after_newline bs))

-- The first line of `bs`.
abbrev pub first_line : ℕ → LineOverflow → Bytes → Option (Option BoundedLine × Bytes)
first_line limit overflow bs = line_from limit overflow [] bs

-- A call gives that line, and leaves a fresh reader and the bytes behind it; or it is refused.
abbrev pub Gives : Step → Option (Option BoundedLine × Bytes) → Type 0
Gives s none = s.result ≡ err invalid_data
Gives s (some (line, rest)) =
    (s.result ≡ ok line) × (s.reader ≡ new) × (flat s.source ≡ rest) × NoFailure s.source

pub flat-unread : (bs : Bytes) (es : List Event) → flat (unread bs es) ≡ bs ++ flat es
flat-unread [] es = refl
flat-unread (b ∷ bs) es = refl

pub NoFailure-unread : (bs : Bytes) (es : List Event) → NoFailure es → NoFailure (unread bs es)
NoFailure-unread [] es h = h
NoFailure-unread (b ∷ bs) es h = h

module _ (xs : Bytes) where
  pub before_newline-append :
      (bs : Bytes)
      → after_newline bs ≡ none
      → (before_newline bs ≡ bs)
        × (before_newline (bs ++ xs) ≡ bs ++ before_newline xs)
        × (after_newline (bs ++ xs) ≡ after_newline xs)
  unfolding before_newline after_newline
  before_newline-append [] h = (refl, refl, refl)
  before_newline-append (b ∷ bs) h = ground (arith, before_newline-append bs)

  pub after_newline-append :
      (bs rest : Bytes)
      → after_newline bs ≡ some rest
      → (before_newline (bs ++ xs) ≡ before_newline bs)
        × (after_newline (bs ++ xs) ≡ some (rest ++ xs))
  unfolding before_newline after_newline
  after_newline-append [] rest h = cc
  after_newline-append (b ∷ bs) rest h = ground (arith, after_newline-append bs rest)
