-- ===== src/Core/Bounded.antt =====
-- crates/rupi-core/src/bounded.rs: a line reader that never holds more than its limit.
-- The `BufRead` it reads from is the sequence of results of its `fill_buf`: a chunk that is not
-- empty, or an I/O error, which passes. After the last event the reader is at its end. `consume`
-- takes bytes off the first chunk.
pub mod Lines
pub mod Framing
pub mod Limits
pub mod Retry
mod Tests
use pi_rs.Prelude.{
  ℕ, suc, ◌+◌, ◌-◌, Bool, true, false, Option, none, some, List, [], ◌∷◌, ◌++◌, is_empty, length,
  take, ltb, leb, ◌==◌, if◌then◌else◌,
}

abbrev pub Bytes : Type 0
Bytes = List ℕ

pub data LineOverflow : Type 0 where
  reject truncate : LineOverflow

pub data BoundedLine : Type 0 where
  complete : Bytes → BoundedLine
  truncated : Bytes → BoundedLine

unfoldable pub as_bytes : BoundedLine → Bytes
as_bytes (complete bytes) = bytes
as_bytes (truncated bytes) = bytes

-- `io::ErrorKind`; `transport` is any error of the reader below, by its code.
pub data IoError : Type 0 where
  invalid_input invalid_data : IoError
  transport : ℕ → IoError

pub data IoResult {ℓ} (A : Type ℓ) : Type ℓ where
  ok : A → IoResult A
  err : IoError → IoResult A

-- What the next `fill_buf` gives. A chunk has a first byte, since an empty one is the end.
pub data Event : Type 0 where
  chunk : ℕ → Bytes → Event
  failure : ℕ → Event

pub record BoundedLineReader : Type 0 where
  pub line : Bytes
  pub is_truncated : Bool

abbrev pub new : BoundedLineReader
new = record { line = []; is_truncated = false }

-- A call's result, the reader after it, and what is left of the source.
pub record Step : Type 0 where
  pub result : IoResult (Option BoundedLine)
  pub reader : BoundedLineReader
  pub source : List Event

-- The bytes before the first newline of a buffer, and the position of that newline.
unfoldable pub before_newline : Bytes → Bytes
before_newline [] = []
before_newline (b ∷ bs) = if b == b'\n' then [] else b ∷ before_newline bs

unfoldable pub after_newline : Bytes → Option Bytes
after_newline [] = none
after_newline (b ∷ bs) = if b == b'\n' then some bs else after_newline bs

-- `consume` up to the bytes that are left of the buffer; an empty rest is no chunk.
abbrev pub unread : Bytes → List Event → List Event
unread [] es = es
unread (b ∷ bs) es = chunk b bs ∷ es

abbrev pub taken : BoundedLineReader → BoundedLine
taken r = if r.is_truncated then truncated r.line else complete r.line

-- `take_line`
abbrev pub take_line : BoundedLineReader → List Event → Step
take_line r es = record { result = ok (some (taken r)); reader = new; source = es }

abbrev pub at_end : BoundedLineReader → Step
at_end r =
    if is_empty r.line then record { result = ok none; reader = r; source = [] } else take_line r []

-- The buffer holds a newline, with `rest` behind it, and the content in front of it fits.
abbrev pub finish_line : BoundedLineReader → Bytes → Bytes → List Event → Step
finish_line r content rest es =
    take_line (record r { line = r.line ++ (content ++ b'\n' ∷ []) }) (unread rest es)

-- `LineOverflow::Truncate` on content that does not fit.
abbrev pub cut : ℕ → BoundedLineReader → Bytes → BoundedLineReader
cut limit r content = record r {
  line = r.line ++ take (limit - length r.line) content;
  is_truncated = true;
}

-- The end of the body: what is left of the line is consumed and not retained. The `Option` is
-- `after_newline` of the buffer, here and in `keep_line`.
unfoldable pub skip_line :
    Option Bytes → BoundedLineReader → (BoundedLineReader → Step) → List Event → Step
skip_line none r next es = next r
skip_line (some rest) r next es = take_line r (unread rest es)

-- Content that fits is retained, with the newline behind it.
unfoldable pub keep_line :
    Option Bytes → BoundedLineReader → (BoundedLineReader → Step) → Bytes → List Event → Step
keep_line none r next content es = next (record r { line = r.line ++ content })
keep_line (some rest) r next content es = finish_line r content rest es

-- Content that does not fit.
unfoldable pub overflow_line :
    ℕ → LineOverflow → BoundedLineReader → (BoundedLineReader → Step) → Bytes → List Event → Step
unfolding skip_line
overflow_line limit reject r next buffer es = record {
  result = err invalid_data;
  reader = r;
  source = unread buffer es;
}
overflow_line limit truncate r next buffer es =
    skip_line (after_newline buffer) (cut limit r (before_newline buffer)) next es

-- The body of the loop once `fill_buf` has given `buffer`; `next` is the loop on the later events.
unfoldable pub read_buffer :
    ℕ → LineOverflow → BoundedLineReader → (BoundedLineReader → Step) → Bytes → List Event → Step
unfolding skip_line keep_line overflow_line
read_buffer limit overflow r next buffer es =
    if r.is_truncated
    then skip_line (after_newline buffer) r next es
    else if leb (length (before_newline buffer)) (limit - length r.line)
    then keep_line (after_newline buffer) r next (before_newline buffer) es
    else overflow_line limit overflow r next buffer es

unfoldable pub read_loop : ℕ → LineOverflow → BoundedLineReader → List Event → Step
read_loop limit overflow r [] = at_end r
read_loop limit overflow r (failure e ∷ es) = record {
  result = err (transport e);
  reader = r;
  source = es;
}
read_loop limit overflow r (chunk b bs ∷ es) =
    read_buffer limit overflow r (λ q. read_loop limit overflow q es) (b ∷ bs) es

unfoldable pub read_line : ℕ → LineOverflow → BoundedLineReader → List Event → Step
unfolding read_loop
read_line limit overflow r es =
    if limit == 0
    then record { result = err invalid_input; reader = r; source = es }
    else read_loop limit overflow r es

-- `read_bounded_line`, the wrapper that starts with a new reader.
unfoldable pub read_bounded_line : ℕ → LineOverflow → List Event → IoResult (Option BoundedLine)
read_bounded_line limit overflow es = (read_line limit overflow new es).result
