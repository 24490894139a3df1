-- ===== src/Core/Bounded/Framing.antt =====
-- What `read_line` gives, as a function of the bytes alone: how the source cuts them into chunks
-- does not show.
use pi_rs.Prelude.{
  ℕ, zero, suc, ◌-◌, ◌≤◌, ◌<◌, ◌≡◌, refl, sym, ◌∙◌, inl, inr, Bool, true, false, ◌&&◌, none, some,
  List, [], ◌∷◌, ◌++◌, is_empty, length, take, leb, arith, append-nil, append_assoc, length-append,
  take-append_le, take-append_ge, Bool-cases, pos→ne_zero, le→leb, lt→leb, leb→le, leb→lt,
  Option-cases,
}
use pi_rs.Core.Bounded.{
  Bytes, Event, chunk, failure, LineOverflow, reject, truncate, complete, truncated,
  BoundedLineReader, new, Step, before_newline, after_newline, skip_line, keep_line, overflow_line,
  read_buffer, read_loop, read_line,
}
use pi_rs.Core.Bounded.Lines.{
  flat, NoFailure, remainder, terminator, refused, line_from, first_line, Gives, flat-unread,
  NoFailure-unread, before_newline-append, after_newline-append,
}

abbrev in_progress : Bytes → Bool → BoundedLineReader
in_progress line cut_off = record { line = line; is_truncated = cut_off }

module _ (next : BoundedLineReader → Step) (buffer : Bytes) (es : List Event)
    (h : NoFailure es) where
  skip_line-Gives :
      (line : Bytes)
      → Gives
          (next (in_progress line true))
          (some (some (truncated line), remainder (after_newline (flat es))))
      → Gives
          (skip_line (after_newline buffer) (in_progress line true) next es)
          (some (some (truncated line), remainder (after_newline (buffer ++ flat es))))
  unfolding skip_line remainder
  skip_line-Gives line later = elim (Option-cases (after_newline buffer)) [
    | inl e ↦ rw (e, (before_newline-append (flat es) buffer e).2) later
    | inr (rest, e) ↦
        rw (e, (after_newline-append (flat es) buffer rest e).1)
          (refl, refl, flat-unread rest es, NoFailure-unread rest es h)
  ]

module _ (limit : ℕ) (overflow : LineOverflow) where
  -- Once truncated, the reader gives what it holds at the next newline.
  skipping :
      (es : List Event) (line : Bytes)
      → NoFailure es
      → is_empty line ≡ false
      → Gives
          (read_loop limit overflow (in_progress line true) es)
          (some (some (truncated line), remainder (after_newline (flat es))))
  unfolding read_loop read_buffer remainder after_newline
  skipping [] line h ne = rw ne (refl, refl, refl, tt)
  skipping (failure e ∷ es) line h ne = absurd h
  skipping (chunk b bs ∷ es) line h ne =
      skip_line-Gives (λ q. read_loop limit overflow q es) (b ∷ bs) es h line
        (skipping es line h ne)

and_false : (b : Bool) → (b && false) ≡ false
and_false true = refl
and_false false = refl

is_empty-append : (line : Bytes) (b : ℕ) (bs : Bytes) → is_empty (line ++ b ∷ bs) ≡ false
is_empty-append [] b bs = refl
is_empty-append (x ∷ line) b bs = refl

before_newline-prefix :
    (xs bs : Bytes) → (extra : Bytes) × (before_newline (bs ++ xs) ≡ before_newline bs ++ extra)
before_newline-prefix xs bs = elim (Option-cases (after_newline bs)) [
  | inl e ↦ let (p, q, _) = before_newline-append xs bs e in (before_newline xs, rw p q)
  | inr (rest, e) ↦
      ([], (after_newline-append xs bs rest e).0 ∙ sym (append-nil (before_newline bs)))
]

module _ (limit : ℕ) (overflow : LineOverflow) (line : Bytes) (b : ℕ) (bs more : Bytes) where
  abbrev buffer : Bytes
  buffer = b ∷ bs

  -- A buffer with no newline only lengthens the line.
  line_from-none :
      after_newline buffer ≡ none
      → line_from limit overflow line (b ∷ (bs ++ more))
        ≡ line_from limit overflow (line ++ buffer) more
  line_from-none e =
      let (_, p, q) = before_newline-append more buffer e in
      rw (p, q, and_false (is_empty line), is_empty-append line b bs, append_assoc line buffer)
        (simp append_assoc)

  line_from-fits :
      (rest : Bytes)
      → after_newline buffer ≡ some rest
      → length line ≤ limit
      → length (before_newline buffer) ≤ limit - length line
      → line_from limit overflow line (b ∷ (bs ++ more))
        ≡ some (some (complete (line ++ (before_newline buffer ++ b'\n' ∷ []))), rest ++ more)
  unfolding remainder terminator
  line_from-fits rest e fits room =
      let (p, q) = after_newline-append more buffer rest e in
      let le : leb (length (line ++ before_newline buffer)) limit ≡ true =
        le→leb _ _ (omega (arith, length-append line (before_newline buffer))) in
      rw (p, q, and_false (is_empty line), le)

  line_from-overflow :
      length line ≤ limit
      → limit - length line < length (before_newline buffer)
      → line_from limit overflow line (b ∷ (bs ++ more))
        ≡ refused overflow (
          some (truncated (line ++ take (limit - length line) (before_newline buffer))),
          remainder (after_newline (buffer ++ more)),
        )
  line_from-overflow fits over =
      let (extra, p) = before_newline-prefix more buffer in
      let big : leb (length (line ++ (before_newline buffer ++ extra))) limit ≡ false = lt→leb _ _ (
        omega (
          arith,
          length-append line (before_newline buffer ++ extra),
          length-append (before_newline buffer) extra,
        )) in
      rw (
        p,
        and_false (is_empty line),
        big,
        take-append_le limit line (before_newline buffer ++ extra) fits,
        take-append_ge (limit - length line) (before_newline buffer) extra (omega arith),
      )

-- The three ways on from a buffer, given the loop on the later events.
module _ (limit : ℕ) (overflow : LineOverflow) (next : BoundedLineReader → Step) (line : Bytes)
    (b : ℕ) (bs : Bytes) (es : List Event) (h : NoFailure es) (fits : length line ≤ limit) where
  keep_line-Gives :
      length (before_newline (b ∷ bs)) ≤ limit - length line
      → Gives
          (next (in_progress (line ++ before_newline (b ∷ bs)) false))
          (line_from limit overflow (line ++ before_newline (b ∷ bs)) (flat es))
      → Gives
          (keep_line
            (after_newline (b ∷ bs))
            (in_progress line false)
            next
            (before_newline (b ∷ bs))
            es)
          (line_from limit overflow line (b ∷ (bs ++ flat es)))
  unfolding keep_line
  keep_line-Gives room later = elim (Option-cases (after_newline (b ∷ bs))) [
    | inl e ↦
        let (p, _, _) = before_newline-append [] (b ∷ bs) e in
        rw (e, p, line_from-none limit overflow line b bs (flat es) e) (rw p at later)
    | inr (rest, e) ↦
        rw (e, line_from-fits limit overflow line b bs (flat es) rest e fits room)
          (refl, refl, flat-unread rest es, NoFailure-unread rest es h)
  ]

  overflow_line-Gives :
      (o : LineOverflow)
      → limit - length line < length (before_newline (b ∷ bs))
      → Gives
          (next (in_progress (line ++ take (limit - length line) (before_newline (b ∷ bs))) true))
          (some (
            some (truncated (line ++ take (limit - length line) (before_newline (b ∷ bs)))),
            remainder (after_newline (flat es)),
          ))
      → Gives
          (overflow_line limit o (in_progress line false) next (b ∷ bs) es)
          (line_from limit o line (b ∷ (bs ++ flat es)))
  unfolding overflow_line refused
  overflow_line-Gives reject over later =
      rw (line_from-overflow limit reject line b bs (flat es) fits over)
  overflow_line-Gives truncate over later =
      rw (line_from-overflow limit truncate line b bs (flat es) fits over)
        (skip_line-Gives next (b ∷ bs) es h _ later)

nonempty-cut :
    (line content : Bytes) (limit : ℕ)
    → 0 < limit
    → limit - length line < length content
    → is_empty (line ++ take (limit - length line) content) ≡ false
nonempty-cut [] (c ∷ content) (suc limit) pos over =
    let e : suc limit - 0 ≡ suc limit = omega arith in rw e
nonempty-cut [] [] (suc limit) pos over = absurd (omega arith)
nonempty-cut [] content zero pos over = absurd (omega arith)
nonempty-cut (x ∷ line) content limit pos over = refl

module _ (limit : ℕ) (overflow : LineOverflow) (pos : 0 < limit) where
  framing :
      (es : List Event) (line : Bytes)
      → NoFailure es
      → length line ≤ limit
      → Gives
          (read_loop limit overflow (in_progress line false) es)
          (line_from limit overflow line (flat es))
  unfolding read_loop read_buffer keep_line before_newline after_newline terminator remainder
  framing [] [] h fits = (refl, refl, refl, tt)
  framing [] (x ∷ line) h fits =
      rw (append-nil line, le→leb (suc (length line)) limit fits) (refl, refl, refl, tt)
  framing (failure e ∷ es) line h fits = absurd h
  framing (chunk b bs ∷ es) line h fits =
      let next = λ (q : BoundedLineReader). read_loop limit overflow q es in
      let content = before_newline (b ∷ bs) in
      elim (Bool-cases (leb (length content) (limit - length line))) [
        | inl room ↦ rw room (
            keep_line-Gives limit overflow next line b bs es h fits (leb→le _ _ room) (
              framing es (line ++ content) h
                (omega (arith, length-append line content, leb→le _ _ room))))
        | inr over ↦
            let over' = leb→lt _ _ over in
            rw over (
              overflow_line-Gives limit overflow next line b bs es h fits overflow over' (
                skipping limit overflow es (line ++ take (limit - length line) content) h
                  (nonempty-cut line content limit pos over')))
      ]

-- With a limit, and a source that gives no I/O error, a fresh reader gives the first line of the
-- source's bytes: no line if there are no bytes; the line with its newline, if it has one, where
-- its content is within the limit; and where it is not, its first `limit` bytes marked as
-- truncated, or `InvalidData`, as asked. The cut into chunks does not show. Unless the line is
-- refused, the reader is fresh again and the source goes on behind the newline.
pub read_line-first_line :
    (limit : ℕ) (overflow : LineOverflow) (es : List Event)
    → 0 < limit
    → NoFailure es
    → Gives (read_line limit overflow new es) (first_line limit overflow (flat es))
unfolding read_line
read_line-first_line limit overflow es pos h =
    rw (pos→ne_zero limit pos) (framing limit overflow pos es [] h (omega arith))
