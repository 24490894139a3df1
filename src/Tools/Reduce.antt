-- ===== src/Tools/Reduce.antt =====
-- crates/rupi-tools/src/reduce.rs: a bounded form of a tool's output. A text is its UTF-8 bytes. The
-- subtractions on `usize` are checked: `overflowed` is the panic of a build with overflow checks
-- (without them the count wraps).
pub mod Boundaries
pub mod Accounting
mod Tests
use pi_rs.Prelude.{
  ℕ, zero, suc, ◌+◌, ◌-◌, ◌*◌, ◌/◌, ◌≤◌, Bool, true, false, not, ◌&&◌, Option, none, some, List, [],
  ◌∷◌, ◌++◌, length, get_elem?, take, drop, ltb, leb, if◌then◌else◌,
}
use pi_rs.Prelude.Text.{within}

abbrev pub Bytes : Type 0
Bytes = List ℕ

pub record Reduction : Type 0 where
  pub text : Bytes
  pub full : Bytes
  pub full_bytes : ℕ
  pub elided_bytes : ℕ
  pub budget : ℕ

pub data Outcome : Type 0 where
  unreduced overflowed : Outcome
  reduced : Reduction → Outcome

abbrev pub min_useful : ℕ
min_useful = 1024

abbrev pub max_useful : ℕ
max_useful = 65536

-- `str::is_char_boundary`: the ends, and in between any byte that does not continue a character.
pub is_boundary_byte : Option ℕ → Bool
is_boundary_byte none = true
is_boundary_byte (some b) = not (within 0x80 0xbf b)

unfoldable pub is_char_boundary : Bytes → ℕ → Bool
unfolding is_boundary_byte
is_char_boundary text zero = true
is_char_boundary text (suc i) =
    leb (suc i) (length text) && is_boundary_byte (get_elem? text (suc i))

-- `while cursor > 0 && !text.is_char_boundary(cursor) { cursor -= 1 }`
pub floor_loop : Bytes → ℕ → ℕ
floor_loop text zero = 0
floor_loop text (suc cursor) =
    let lower = floor_loop text cursor in
    if not (is_char_boundary text (suc cursor)) then lower else suc cursor

pub floor_char_boundary : Bytes → ℕ → ℕ
unfolding floor_loop
floor_char_boundary text index =
    if leb (length text) index then length text else floor_loop text index

-- `while cursor < text.len() && !text.is_char_boundary(cursor) { cursor += 1 }`, by the rounds that
-- are left, `text.len() - cursor`.
pub ceil_loop : Bytes → ℕ → ℕ → ℕ
ceil_loop text zero cursor = cursor
ceil_loop text (suc rounds) cursor =
    let higher = ceil_loop text rounds (cursor + 1) in
    if not (is_char_boundary text cursor) then higher else cursor

pub ceil_char_boundary : Bytes → ℕ → ℕ
unfolding ceil_loop
ceil_char_boundary text index =
    if leb (length text) index then length text else ceil_loop text (length text - index) index

unfoldable pub budget_of : ℕ → ℕ
budget_of max_bytes =
    if ltb max_bytes min_useful
    then min_useful
    else if ltb max_useful max_bytes
    then max_useful
    else max_bytes

-- The text of the notice is that of `format!`, an argument of `reduce` here.
module _ (notice : ℕ → ℕ → Bytes) where
  -- From the two cuts on: `tail_start - head`, and the text that is put together.
  pub assemble : Bytes → ℕ → ℕ → ℕ → Outcome
  assemble text max_bytes head tail_start =
      if ltb tail_start head
      then overflowed
      else reduced (record {
        text = take head text ++ (notice (tail_start - head) (length text) ++ drop tail_start text);
        full = text;
        full_bytes = length text;
        elided_bytes = tail_start - head;
        budget = max_bytes;
      })

  pub reduce : Bytes → ℕ → Outcome
  unfolding assemble
  reduce text max_bytes =
      let budget = budget_of max_bytes in
      let head_len = budget * 3 / 5 in
      let tail_len = budget - head_len in
      if ltb (length text) max_bytes
      then unreduced
      else if ltb (length text) tail_len
      then overflowed
      else assemble text max_bytes (floor_char_boundary text head_len)
          (ceil_char_boundary text (length text - tail_len))
