-- ===== src/Core/Bounded/Retry.antt =====
-- A caller that goes on after an I/O error of the reader below.
use pi_rs.Prelude.{
  ℕ, ◌-◌, ◌≡◌, refl, Bool, true, false, Option, none, some, List, [], ◌∷◌, ◌++◌, length, leb,
  if◌then◌else◌, arith,
}
use pi_rs.Core.Bounded.{
  Bytes, Event, chunk, failure, LineOverflow, reject, truncate, err, transport, BoundedLineReader,
  Step, cut, before_newline, after_newline, skip_line, keep_line, overflow_line, read_buffer,
  read_loop, read_line,
}

-- The source in which the first I/O error does not happen.
abbrev pub without_failure : List Event → List Event
without_failure [] = []
without_failure (chunk b bs ∷ es) = chunk b bs ∷ without_failure es
without_failure (failure e ∷ es) = es

module _ (limit : ℕ) (overflow : LineOverflow) (e : ℕ) where
  -- A step that fails for the source, `s`, against the step on the source that does not fail, `t`.
  abbrev Resumes : Step → Step → Type 0
  Resumes s t = s.result ≡ err (transport e) → read_loop limit overflow s.reader s.source ≡ t

  module _ (next next' : BoundedLineReader → Step)
      (later : (q : BoundedLineReader) → Resumes (next q) (next' q)) (es es' : List Event) where
    if-Resumes :
        (b : Bool) (s s' t t' : Step)
        → Resumes s s'
        → Resumes t t'
        → Resumes (if b then s else t) (if b then s' else t')
    if-Resumes true s s' t t' p q = p
    if-Resumes false s s' t t' p q = q

    skip_line-Resumes :
        (after : Option Bytes) (r : BoundedLineReader)
        → Resumes (skip_line after r next es) (skip_line after r next' es')
    unfolding skip_line
    skip_line-Resumes none r = later r
    skip_line-Resumes (some rest) r = λ h. cc

    keep_line-Resumes :
        (after : Option Bytes) (r : BoundedLineReader) (content : Bytes)
        → Resumes (keep_line after r next content es) (keep_line after r next' content es')
    unfolding keep_line
    keep_line-Resumes none r content = later (record r { line = r.line ++ content })
    keep_line-Resumes (some rest) r content = λ h. cc

    overflow_line-Resumes :
        (o : LineOverflow) (r : BoundedLineReader) (buffer : Bytes)
        → Resumes
            (overflow_line limit o r next buffer es)
            (overflow_line limit o r next' buffer es')
    unfolding overflow_line
    overflow_line-Resumes reject r buffer = λ h. cc
    overflow_line-Resumes truncate r buffer =
        skip_line-Resumes (after_newline buffer) (cut limit r (before_newline buffer))

    read_buffer-Resumes :
        (r : BoundedLineReader) (buffer : Bytes)
        → Resumes
            (read_buffer limit overflow r next buffer es)
            (read_buffer limit overflow r next' buffer es')
    unfolding read_buffer
    read_buffer-Resumes r buffer =
        if-Resumes r.is_truncated _ _ _ _ (skip_line-Resumes (after_newline buffer) r) (
          if-Resumes (leb (length (before_newline buffer)) (limit - length r.line)) _ _ _ _
            (keep_line-Resumes (after_newline buffer) r (before_newline buffer))
            (overflow_line-Resumes overflow r buffer))

  resumes :
      (es : List Event) (r : BoundedLineReader)
      → Resumes (read_loop limit overflow r es) (read_loop limit overflow r (without_failure es))
  unfolding read_loop
  resumes [] r = λ h. ground arith
  resumes (failure x ∷ es) r = λ h. refl
  resumes (chunk b bs ∷ es) r =
      read_buffer-Resumes (λ q. read_loop limit overflow q es)
        (λ q. read_loop limit overflow q (without_failure es)) (resumes es) es (without_failure es)
        r (b ∷ bs)

-- A call that ends with an I/O error of the source loses nothing: the next call on the reader and
-- the source that it leaves does what the first would have done without the error.
pub read_line_resumes :
    (limit : ℕ) (overflow : LineOverflow) (e : ℕ) (r : BoundedLineReader) (es : List Event)
    → (read_line limit overflow r es).result ≡ err (transport e)
    → read_line limit overflow
        (read_line limit overflow r es).reader
        (read_line limit overflow r es).source
      ≡ read_line limit overflow r (without_failure es)
unfolding read_line
read_line_resumes limit overflow e r es h = ground (arith, resumes limit overflow e es r)
