-- ===== src/Provider/Sse/Lines.antt =====
-- crates/rupi-provider/src/sse.rs and crates/rupi-core/src/bounded.rs: a line takes a byte.
use pi_rs.Prelude.{
  ℕ, ◌+◌, ◌-◌, ◌≤◌, ◌<◌, ◌≡◌, refl, ap, ◌∙◌, Bool, true, false, Option, none, some, List, [], ◌∷◌,
  ◌++◌, length, length-append, leb, ◌==◌, if◌then◌else◌, inl, inr, Bool-cases, arith,
}
use pi_rs.Core.Bounded.{
  Bytes, Event, chunk, failure, reject, BoundedLine, ok, BoundedLineReader, Step, unread,
  before_newline, after_newline, skip_line, keep_line, overflow_line, at_end, read_buffer,
  read_loop, read_line,
}
use pi_rs.Core.Bounded.Lines.{flat, flat-unread}

abbrev pub left : Step → ℕ
left s = length s.reader.line + length (flat s.source)

-- A step that gives a line leaves fewer than `n` bytes.
abbrev pub Takes : ℕ → Step → Type 0
Takes n s = (line : BoundedLine) → s.result ≡ ok (some line) → left s < n

after_newline-shorter :
    (buffer rest : Bytes) → after_newline buffer ≡ some rest → length rest < length buffer
unfolding after_newline
after_newline-shorter [] rest e = cc
after_newline-shorter (b ∷ bs) rest e = elim (Bool-cases (b == b'\n')) [
  | inl h ↦ let same : bs ≡ rest = ground arith in omega (arith, ap length same)
  | inr h ↦ let low = after_newline-shorter bs rest (ground arith) in omega arith
]

before_newline-shorter : (buffer : Bytes) → length (before_newline buffer) ≤ length buffer
unfolding before_newline
before_newline-shorter [] = omega arith
before_newline-shorter (b ∷ bs) = ground (arith, before_newline-shorter bs)

Takes-more : (n m : ℕ) (s : Step) → n ≤ m → Takes n s → Takes m s
Takes-more n m s h t = λ line e. let low = t line e in omega arith

unread-left :
    (rest : Bytes) (es : List Event)
    → length (flat (unread rest es)) ≡ length rest + length (flat es)
unread-left rest es = ap length (flat-unread rest es) ∙ length-append rest (flat es)

module _ (limit : ℕ) (es : List Event) (next : BoundedLineReader → Step)
    (later : (q : BoundedLineReader) → Takes (length q.line + length (flat es)) (next q)) where
  if-Takes : (b : Bool) (n : ℕ) (s t : Step) → Takes n s → Takes n t → Takes n (if b then s else t)
  if-Takes true n s t p q = p
  if-Takes false n s t p q = q

  skip_line-Takes :
      (buffer : Bytes) (after : Option Bytes) (r : BoundedLineReader)
      → ((rest : Bytes) → after ≡ some rest → length rest < length buffer)
      → Takes (length r.line + (length buffer + length (flat es))) (skip_line after r next es)
  unfolding skip_line
  skip_line-Takes buffer none r h = Takes-more _ _ (next r) (omega arith) (later r)
  skip_line-Takes buffer (some rest) r h =
      λ line e. let short = h rest refl in let whole = unread-left rest es in omega arith

  keep_line-Takes :
      (buffer content : Bytes) (after : Option Bytes) (r : BoundedLineReader)
      → length content ≤ length buffer
      → ((rest : Bytes) → after ≡ some rest → length rest < length buffer)
      → Takes
          (length r.line + (length buffer + length (flat es)))
          (keep_line after r next content es)
  unfolding keep_line
  keep_line-Takes buffer content none r low h =
      let grown = length-append r.line content in
      Takes-more _ _ (next (record r { line = r.line ++ content })) (omega arith)
        (later (record r { line = r.line ++ content }))
  keep_line-Takes buffer content (some rest) r low h =
      λ line e. let short = h rest refl in let whole = unread-left rest es in omega arith

  buffer-Takes :
      (r : BoundedLineReader) (buffer : Bytes)
      → Takes
          (length r.line + (length buffer + length (flat es)))
          (read_buffer limit reject r next buffer es)
  unfolding read_buffer overflow_line
  buffer-Takes r buffer =
      if-Takes r.is_truncated _ _ _
        (skip_line-Takes buffer (after_newline buffer) r (after_newline-shorter buffer))
        (if-Takes (leb (length (before_newline buffer)) (limit - length r.line)) _ _ _
          (keep_line-Takes buffer (before_newline buffer) (after_newline buffer) r
            (before_newline-shorter buffer) (after_newline-shorter buffer))
          (λ line e. absurd (ground arith)))

end-Takes :
    (line : Bytes) (is_truncated : Bool)
    → Takes (length line + 0) (at_end (record { line = line; is_truncated = is_truncated }))
end-Takes [] t = λ line e. absurd (ground arith)
end-Takes (b ∷ bs) t = λ line e. omega arith

loop-Takes :
    (limit : ℕ) (es : List Event) (r : BoundedLineReader)
    → Takes (length r.line + length (flat es)) (read_loop limit reject r es)
unfolding read_loop
loop-Takes limit [] r = end-Takes r.line r.is_truncated
loop-Takes limit (failure x ∷ es) r = λ line e. absurd (ground arith)
loop-Takes limit (chunk b bs ∷ es) r =
    let whole = length-append bs (flat es) in
    Takes-more _ _ (read_loop limit reject r (chunk b bs ∷ es)) (omega arith) (
      buffer-Takes limit es (λ q. read_loop limit reject q es) (λ q. loop-Takes limit es q) r
        (b ∷ bs))

-- A line that `read_line` gives has taken a byte of the reader or of the source.
pub read_line-Takes :
    (limit : ℕ) (es : List Event) (r : BoundedLineReader)
    → Takes (length r.line + length (flat es)) (read_line limit reject r es)
unfolding read_line
read_line-Takes limit es r = elim (Bool-cases (limit == 0)) [
  | inl e ↦ rw e (λ line h. absurd (ground arith))
  | inr e ↦ rw e (loop-Takes limit es r)
]
