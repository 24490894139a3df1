-- ===== src/Core/Bounded/Tests.antt =====
-- Runs of the reader, and the theorems at them.
use pi_rs.Prelude.{◌≡◌, refl, List, [], ◌∷◌, some, arith}
use pi_rs.Core.Bounded.{
  Event, chunk, failure, complete, truncated, ok, reject, truncate, read_line, new, before_newline,
  after_newline, read_buffer,
}
use pi_rs.Core.Bounded.Framing.{read_line-first_line}
use pi_rs.Core.Bounded.Lines.{flat, Gives, first_line}
use pi_rs.Core.Bounded.Limits.{Within, accounted, read_line-Within, read_line-accounted}
use pi_rs.Core.Bounded.Retry.{without_failure, read_line_resumes}

-- "abc\nd" in two chunks, and with an I/O error between them.
abbrev two_chunks : List Event
two_chunks = chunk b'a' (b'b' ∷ []) ∷ chunk b'c' (b'\n' ∷ b'd' ∷ []) ∷ []

abbrev interrupted : List Event
interrupted = chunk b'a' (b'b' ∷ []) ∷ failure 11 ∷ chunk b'c' (b'\n' ∷ b'd' ∷ []) ∷ []

read_two :
    (read_line 8 reject new two_chunks).result
    ≡ ok (some (complete (b'a' ∷ b'b' ∷ b'c' ∷ b'\n' ∷ [])))
unfolding read_line read_buffer before_newline after_newline
read_two = refl

read_cut : (read_line 2 truncate new two_chunks).result ≡ ok (some (truncated (b'a' ∷ b'b' ∷ [])))
unfolding read_line read_buffer before_newline after_newline
read_cut = refl

read_line-first_line_example :
    Gives (read_line 2 truncate new two_chunks) (first_line 2 truncate (flat two_chunks))
read_line-first_line_example = read_line-first_line 2 truncate two_chunks (omega arith) tt

read_line-Within_example : Within 2 (read_line 2 reject new interrupted)
read_line-Within_example = read_line-Within 2 reject interrupted new (omega arith)

read_line-accounted_example : accounted (read_line 3 reject new interrupted) ≡ flat interrupted
read_line-accounted_example = read_line-accounted 3 interrupted new refl

read_line_resumes_example :
    read_line 8 reject
      (read_line 8 reject new interrupted).reader
      (read_line 8 reject new interrupted).source
    ≡ read_line 8 reject new (without_failure interrupted)
unfolding read_line read_buffer before_newline after_newline
read_line_resumes_example = read_line_resumes 8 reject 11 new interrupted refl
