-- ===== src/Provider/Sse.antt =====
-- crates/rupi-provider/src/sse.rs: events out of lines. `String::from_utf8` is an argument: the text
-- of bytes that are valid, `none` for others. The loop runs on fuel, one unit for a line; a line takes
-- a byte of the source or of the line reader, so their number, and one more, is enough.
pub mod Lines
pub mod Progress
mod Tests
use pi_rs.Prelude.{
  ℕ, zero, suc, ◌+◌, ◌*◌, ◌-◌, ◌^◌, Bool, true, false, not, ◌&&◌, ◌||◌, Option, none, some, List,
  [], ◌∷◌, ◌++◌, length, is_empty, reverse, min, ltb, leb, ◌==◌, if◌then◌else◌,
}
use pi_rs.Prelude.Text.{Text, codes, text_eq, trim, split_once}
use pi_rs.Core.Bounded.{
  Bytes, LineOverflow, reject, BoundedLine, as_bytes, IoError, invalid_data, IoResult, ok, err,
  Event, BoundedLineReader, new, Step, read_line,
}
use pi_rs.Core.Bounded.Lines.{flat}
use pi_rs.Provider.Decode.{byte_len}

abbrev pub max_event_bytes : ℕ
max_event_bytes = 1024 * 1024

abbrev pub max_response_frames : ℕ
max_response_frames = 65536

-- The stream without the source below it, which is passed along.
pub record SseStream : Type 0 where
  pub lines : BoundedLineReader
  pub pending_data : Text
  pub pending_received : Bool
  pub pending_frame_bytes : ℕ
  pub response_frames : ℕ
  pub finished : Bool

abbrev pub opened : SseStream
opened = record {
  lines = new;
  pending_data = [];
  pending_received = false;
  pending_frame_bytes = 0;
  response_frames = 0;
  finished = false;
}

pub data Pulled : Type 0 where
  event : Text → Pulled
  ended : Pulled
  broken : IoError → Pulled
  out_of_fuel : Pulled

-- A call's result, the stream after it, and what is left of the source.
pub record Pull : Type 0 where
  pub result : Pulled
  pub stream : SseStream
  pub source : List Event

-- The loop: the stream, `data`, `received` and the source.
abbrev pub Loop : Type 0
Loop = SseStream → Text → Bool → List Event → Pull

abbrev pub pull : Pulled → SseStream → List Event → Pull
pull result s es = record { result = result; stream = s; source = es }

-- An error that closes the protocol.
abbrev pub close : SseStream → List Event → Pull
close s es = pull (broken invalid_data) (record s { finished = true }) es

-- `SseEvent::is_done`
unfoldable pub is_done : Text → Bool
unfolding text_eq trim
is_done words = text_eq (trim words) (codes "[DONE]")

-- `trim_end_matches(['\n', '\r'])`
unfoldable pub skip_line_ends : Text → Text
skip_line_ends [] = []
skip_line_ends (c ∷ s) = if c == b'\n' || c == b'\r' then skip_line_ends s else c ∷ s

unfoldable pub trim_line_end : Text → Text
unfolding skip_line_ends
trim_line_end s = reverse (skip_line_ends (reverse s))

abbrev pub strip_space : Text → Text
strip_space [] = []
strip_space (c ∷ s) = if c == b' ' then s else c ∷ s

-- `finish_frame`, and `next` where it succeeds.
unfoldable pub finish_frame : SseStream → List Event → (SseStream → Pull) → Pull
finish_frame s es next =
    if leb max_response_frames s.response_frames
    then close s es
    else next (record s { response_frames = s.response_frames + 1; pending_frame_bytes = 0 })

-- A blank line ends a frame.
abbrev pub blanked : SseStream → Text → Bool → SseStream
blanked s words received = record s {
  finished = s.finished || (received && is_done words);
  pending_data = [];
  pending_received = false;
}

abbrev pub after_blank : Loop → Text → Bool → List Event → SseStream → Pull
after_blank next words received es s =
    if received
    then pull (event words) (blanked s words received) es
    else next (blanked s words received) words received es

unfoldable pub on_blank : Loop → SseStream → Text → Bool → List Event → Pull
unfolding finish_frame is_done
on_blank next s words received es = finish_frame s es (after_blank next words received es)

-- The value of a field `data`.
unfoldable pub on_data : Loop → SseStream → Text → Bool → List Event → Text → Pull
unfolding byte_len
on_data next s words received es value =
    if ltb max_event_bytes (byte_len words + byte_len value)
    then close s es
    else next (record s { pending_received = true })
        (words ++ ((if received then b'\n' ∷ [] else []) ++ value)) true es

unfoldable pub on_field : Loop → SseStream → Text → Bool → List Event → Option (Text × Text) → Pull
unfolding text_eq on_data
on_field next s words received es none = next s words received es
on_field next s words received es (some (field, value)) =
    if text_eq field (codes "data")
    then on_data next s words received es (strip_space value)
    else next s words received es

unfoldable pub starts_with_colon : Text → Bool
starts_with_colon [] = false
starts_with_colon (c ∷ s) = c == b':'

unfoldable pub on_text : Loop → SseStream → Text → Bool → List Event → Option Text → Pull
unfolding trim_line_end on_blank starts_with_colon on_field split_once
on_text next s words received es none = close s es
on_text next s words received es (some line) =
    if is_empty (trim_line_end line)
    then on_blank next s words received es
    else if starts_with_colon (trim_line_end line)
    then next s words received es
    else on_field next s words received es (split_once b':' (trim_line_end line))

-- The end of the source.
unfoldable pub at_end : SseStream → Text → Bool → List Event → Pull
unfolding finish_frame
at_end s words received es =
    let t = record s { finished = true; pending_data = []; pending_received = false } in
    if received then finish_frame t es (λ u. pull (event words) u es) else pull ended t es

module _ (from_utf8 : Bytes → Option Text) where
  unfoldable pub on_line : Loop → SseStream → Text → Bool → List Event → Bytes → Pull
  unfolding on_text
  on_line next s words received es raw_line =
      let t = record s {
        pending_frame_bytes = min (s.pending_frame_bytes + length raw_line) (2 ^ 64 - 1);
      } in
      if ltb max_event_bytes t.pending_frame_bytes
      then close t es
      else on_text next t words received es (from_utf8 raw_line)

  -- What `read_line` gave; an error of the source keeps what has been gathered.
  unfoldable pub on_read :
      Loop → SseStream → Text → Bool → List Event → IoResult (Option BoundedLine) → Pull
  unfolding on_line as_bytes at_end
  on_read next s words received es (ok none) = at_end s words received es
  on_read next s words received es (ok (some line)) =
      on_line next s words received es (as_bytes line)
  on_read next s words received es (err e) =
      pull (broken e) (record s { pending_data = words; pending_received = received }) es

  unfoldable pub event_loop : ℕ → SseStream → Text → Bool → List Event → Pull
  unfolding read_line on_read
  event_loop zero s words received es = pull out_of_fuel s es
  event_loop (suc fuel) s words received es =
      let step = read_line max_event_bytes reject s.lines es in
      on_read (event_loop fuel) (record s { lines = step.reader }) words received step.source
        step.result

  abbrev pub bytes_left : SseStream → List Event → ℕ
  bytes_left s es = length s.lines.line + length (flat es)

  -- `next_event`
  unfoldable pub next_event : SseStream → List Event → Pull
  unfolding event_loop
  next_event s es =
      if s.finished
      then pull ended s es
      else event_loop (suc (bytes_left s es))
          (record s { pending_data = []; pending_received = false }) s.pending_data
          s.pending_received es
