-- ===== src/Core/Bounded/Limits.antt =====
-- What the reader holds stays within the limit, and in `Reject` mode no byte is lost.
use pi_rs.Prelude.{
  ℕ, ◌+◌, ◌-◌, ◌≤◌, ◌≡◌, refl, sym, ap, ◌∙◌, false, Option, none, some, List, [], ◌∷◌, ◌++◌, length,
  take, leb, ◌==◌, arith, append_assoc, length-append, length-take, inl, inr, Bool-cases,
  Option-cases,
}
use pi_rs.Core.Bounded.{
  Bytes, Event, chunk, failure, LineOverflow, reject, truncate, BoundedLine, IoResult, ok,
  BoundedLineReader, cut, Step, unread, before_newline, after_newline, as_bytes, skip_line,
  keep_line, overflow_line, read_buffer, read_loop, read_line,
}
use pi_rs.Core.Bounded.Lines.{flat, flat-unread}

-- The line that a call hands out.
unfoldable pub delivered : IoResult (Option BoundedLine) → Bytes
delivered (ok (some line)) = as_bytes line
delivered _ = []

-- The reader holds at most `limit` bytes, and a line handed out one more, its newline.
pub record Within (limit : ℕ) (s : Step) : Type 0 where
  pub held : length s.reader.line ≤ limit
  pub handed_out : length (delivered s.result) ≤ limit + 1

module _ (limit : ℕ) where
  skip_line-Within :
      (after : Option Bytes) (r : BoundedLineReader) (next : BoundedLineReader → Step)
      (es : List Event)
      → length r.line ≤ limit
      → Within limit (next r)
      → Within limit (skip_line after r next es)
  unfolding skip_line delivered as_bytes
  skip_line-Within none r next es h later = later
  skip_line-Within (some rest) r next es h later = ground arith

  keep_line-Within :
      (after : Option Bytes) (r : BoundedLineReader) (next : BoundedLineReader → Step)
      (content : Bytes) (es : List Event)
      → length r.line ≤ limit
      → length content ≤ limit - length r.line
      → Within limit (next (record r { line = r.line ++ content }))
      → Within limit (keep_line after r next content es)
  unfolding keep_line delivered as_bytes
  keep_line-Within none r next content es h room later = later
  keep_line-Within (some rest) r next content es h room later =
      ground
        (arith, length-append r.line (content ++ b'\n' ∷ []), length-append content (b'\n' ∷ []))

  cut-held :
      (line content : Bytes)
      → length line ≤ limit
      → length (line ++ take (limit - length line) content) ≤ limit
  cut-held line content h = omega (
    arith,
    length-append line (take (limit - length line) content),
    length-take (limit - length line) content,
  )

  read_buffer-Within :
      (overflow : LineOverflow) (buffer : Bytes) (es : List Event) (r : BoundedLineReader)
      (next : BoundedLineReader → Step)
      → length r.line ≤ limit
      → ((q : BoundedLineReader) → length q.line ≤ limit → Within limit (next q))
      → Within limit (read_buffer limit overflow r next buffer es)
  unfolding read_buffer delivered
  read_buffer-Within reject buffer es r next h later =
      let content = before_newline buffer in
      ground (
        arith,
        skip_line-Within (after_newline buffer) r next es h (later r h),
        keep_line-Within (after_newline buffer) r next content es h,
        later (record r { line = r.line ++ content }),
        length-append r.line content,
      )
  read_buffer-Within truncate buffer es r next h later =
      let content = before_newline buffer in
      let q = cut limit r content in
      ground (
        arith,
        skip_line-Within (after_newline buffer) r next es h (later r h),
        skip_line-Within (after_newline buffer) q next es (cut-held r.line content h)
            (later q (cut-held r.line content h)),
        keep_line-Within (after_newline buffer) r next content es h,
        later (record r { line = r.line ++ content }),
        length-append r.line content,
      )

  loop-Within :
      (overflow : LineOverflow) (es : List Event) (r : BoundedLineReader)
      → length r.line ≤ limit
      → Within limit (read_loop limit overflow r es)
  unfolding read_loop delivered as_bytes
  loop-Within overflow [] r h = ground arith
  loop-Within overflow (failure e ∷ es) r h = ground arith
  loop-Within overflow (chunk b bs ∷ es) r h =
      read_buffer-Within overflow (b ∷ bs) es r (λ q. read_loop limit overflow q es) h
        (λ q. loop-Within overflow es q)

-- Whatever the source sends and whichever way a call ends, a reader that holds no more than the
-- limit goes on to do so, and no line that it hands out has more than `limit` bytes and a newline.
pub read_line-Within :
    (limit : ℕ) (overflow : LineOverflow) (es : List Event) (r : BoundedLineReader)
    → length r.line ≤ limit
    → Within limit (read_line limit overflow r es)
unfolding read_line delivered
read_line-Within limit overflow es r h = ground (arith, loop-Within limit overflow es r h)

-- All bytes that a call leaves: those handed out, those held and those not yet read.
abbrev pub accounted : Step → Bytes
accounted s = delivered s.result ++ (s.reader.line ++ flat s.source)

abbrev Conserves : Step → Bytes → Type 0
Conserves s bytes = (accounted s ≡ bytes) × (s.reader.is_truncated ≡ false)

after_newline-split :
    (buffer rest : Bytes)
    → after_newline buffer ≡ some rest
    → before_newline buffer ++ b'\n' ∷ rest ≡ buffer
unfolding after_newline before_newline
after_newline-split [] rest e = cc
after_newline-split (b ∷ bs) rest e = ground (arith, after_newline-split bs rest)

after_newline-none : (buffer : Bytes) → after_newline buffer ≡ none → before_newline buffer ≡ buffer
unfolding after_newline before_newline
after_newline-none [] e = refl
after_newline-none (b ∷ bs) e = ground (arith, after_newline-none bs)

kept :
    (buffer rest : Bytes) (es : List Event) (line : Bytes)
    → after_newline buffer ≡ some rest
    → (line ++ (before_newline buffer ++ b'\n' ∷ [])) ++ flat (unread rest es)
      ≡ line ++ (buffer ++ flat es)
kept buffer rest es line e =
    let line_back =
      sym (append_assoc (before_newline buffer) (b'\n' ∷ rest) (flat es))
      ∙ ap (λ (x : Bytes). x ++ flat es) (after_newline-split buffer rest e) in
    rw (flat-unread rest es) (simp append_assoc (ap (λ (x : Bytes). line ++ x) line_back))

loop-Conserves :
    (limit : ℕ) (es : List Event) (line : Bytes)
    → Conserves
        (read_loop limit reject (record { line = line; is_truncated = false }) es)
        (line ++ flat es)
unfolding read_loop read_buffer delivered as_bytes
loop-Conserves limit [] [] = (refl, refl)
loop-Conserves limit [] (x ∷ line) = (refl, refl)
loop-Conserves limit (failure e ∷ es) line = (refl, refl)
loop-Conserves limit (chunk b bs ∷ es) line =
    elim (Bool-cases (leb (length (before_newline (b ∷ bs))) (limit - length line))) [
      | inl fits ↦ rw fits (elim (Option-cases (after_newline (b ∷ bs))) [
        | inl e ↦
            rw (e, after_newline-none (b ∷ bs) e)
              (unfold keep_line in
                let (all, whole) = loop-Conserves limit es (line ++ b ∷ bs) in
                (all ∙ append_assoc line (b ∷ bs) (flat es), whole))
        | inr (rest, e) ↦ rw e (unfold keep_line in (kept (b ∷ bs) rest es line e, refl))
      ])
      | inr over ↦ rw over (unfold overflow_line in (refl, refl))
    ]

-- In `Reject` mode a call loses no byte, however it ends: with a line, at the end of the source,
-- by an I/O error, or by a refusal. What it hands out, what the reader then holds and what the
-- source still has are, in this order, what the reader held and what the source had.
pub read_line-accounted :
    (limit : ℕ) (es : List Event) (r : BoundedLineReader)
    → r.is_truncated ≡ false
    → accounted (read_line limit reject r es) ≡ r.line ++ flat es
unfolding read_line delivered
read_line-accounted limit es r whole = elim (Bool-cases (limit == 0)) [
  | inl none_allowed ↦ rw none_allowed
  | inr some_allowed ↦ rw (some_allowed, whole) (loop-Conserves limit es r.line).0
]
