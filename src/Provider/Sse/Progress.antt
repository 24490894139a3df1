-- ===== src/Provider/Sse/Progress.antt =====
-- crates/rupi-provider/src/sse.rs: `next_event` comes to an end.
use pi_rs.Prelude.{
  ℕ, zero, suc, ◌+◌, ◌-◌, ◌^◌, ◌<◌, ◌≡◌, refl, ap, ◌∙◌, Bool, true, false, Option, none, some, List,
  [], length, is_empty, min, ltb, leb, if◌then◌else◌, arith,
}
use pi_rs.Prelude.Text.{Text, codes, text_eq, split_once}
use pi_rs.Core.Bounded.{
  Bytes, Event, reject, BoundedLine, as_bytes, IoError, IoResult, ok, err, BoundedLineReader, Step,
  read_line,
}
use pi_rs.Core.Bounded.Lines.{flat}
use pi_rs.Provider.Sse.{
  max_event_bytes, max_response_frames, SseStream, event, ended, broken, out_of_fuel, Pull, Loop,
  pull, close, trim_line_end, strip_space, finish_frame, blanked, after_blank, on_blank, on_data,
  on_field, starts_with_colon, on_text, at_end, on_line, on_read, event_loop, bytes_left,
  next_event,
}
use pi_rs.Provider.Decode.{byte_len}
use pi_rs.Provider.Sse.Lines.{left, read_line-Takes}

abbrev pub Ends : Pull → Type 0
Ends p = p.result ≡ out_of_fuel → ⊥

if-Ends : (b : Bool) (p q : Pull) → Ends p → Ends q → Ends (if b then p else q)
if-Ends true p q h k = h
if-Ends false p q h k = k

event-Ends : (words : Text) (s : SseStream) (es : List Event) → Ends (pull (event words) s es)
event-Ends words s es = λ h. ground arith

ended-Ends : (s : SseStream) (es : List Event) → Ends (pull ended s es)
ended-Ends s es = λ h. ground arith

broken-Ends : (e : IoError) (s : SseStream) (es : List Event) → Ends (pull (broken e) s es)
broken-Ends e s es = λ h. ground arith

fewer :
    (q : BoundedLineReader) (step : Step) (n fuel : ℕ)
    → q ≡ step.reader
    → left step < n
    → n < suc fuel
    → length q.line + length (flat step.source) < fuel
fewer q step n fuel same low h =
    let e = ap (λ (r : BoundedLineReader). length r.line) same in omega arith

close-Ends : (s : SseStream) (es : List Event) → Ends (close s es)
close-Ends s es = λ h. ground arith

finish_frame-Ends :
    (s : SseStream) (es : List Event) (next : SseStream → Pull)
    → ((t : SseStream) → t.lines ≡ s.lines → Ends (next t))
    → Ends (finish_frame s es next)
unfolding finish_frame
finish_frame-Ends s es next h =
    if-Ends (leb max_response_frames s.response_frames) _ _ (close-Ends s es)
      (h (record s { response_frames = s.response_frames + 1; pending_frame_bytes = 0 }) refl)

-- A line ends if the rest of the loop does, on every stream with the same line reader.
module _ (next : Loop) (lines : BoundedLineReader) (es : List Event)
    (later : (s : SseStream) (words : Text) (received : Bool)
      → s.lines ≡ lines
      → Ends (next s words received es)) where
  on_blank-Ends :
      (s : SseStream) (words : Text) (received : Bool)
      → s.lines ≡ lines
      → Ends (on_blank next s words received es)
  unfolding on_blank
  on_blank-Ends s words received h =
      finish_frame-Ends s es (after_blank next words received es) (λ t e.
        if-Ends received (pull (event words) (blanked t words received) es)
          (next (blanked t words received) words received es)
          (event-Ends words (blanked t words received) es)
          (later (blanked t words received) words received (e ∙ h)))

  on_data-Ends :
      (s : SseStream) (words : Text) (received : Bool) (value : Text)
      → s.lines ≡ lines
      → Ends (on_data next s words received es value)
  unfolding on_data
  on_data-Ends s words received value h =
      if-Ends (ltb max_event_bytes (byte_len words + byte_len value)) _ _ (close-Ends s es)
        (later _ _ true h)

  on_field-Ends :
      (s : SseStream) (words : Text) (received : Bool) (field : Option (Text × Text))
      → s.lines ≡ lines
      → Ends (on_field next s words received es field)
  unfolding on_field
  on_field-Ends s words received none h = later s words received h
  on_field-Ends s words received (some (field, value)) h =
      if-Ends (text_eq field (codes "data")) _ _
        (on_data-Ends s words received (strip_space value) h) (later s words received h)

  on_text-Ends :
      (s : SseStream) (words : Text) (received : Bool) (line : Option Text)
      → s.lines ≡ lines
      → Ends (on_text next s words received es line)
  unfolding on_text
  on_text-Ends s words received none h = close-Ends s es
  on_text-Ends s words received (some line) h =
      if-Ends (is_empty (trim_line_end line)) _ _ (on_blank-Ends s words received h) (
        if-Ends (starts_with_colon (trim_line_end line)) _ _ (later s words received h)
          (on_field-Ends s words received (split_once b':' (trim_line_end line)) h))

at_end-Ends :
    (s : SseStream) (words : Text) (received : Bool) (es : List Event)
    → Ends (at_end s words received es)
unfolding at_end
at_end-Ends s words received es =
    let t = record s { finished = true; pending_data = []; pending_received = false } in
    if-Ends received _ _
      (finish_frame-Ends t es (λ u. pull (event words) u es) (λ u e. event-Ends words u es))
      (ended-Ends t es)

abbrev framed : SseStream → Bytes → SseStream
framed s raw_line = record s {
  pending_frame_bytes = min (s.pending_frame_bytes + length raw_line) (2 ^ 64 - 1);
}

module _ (from_utf8 : Bytes → Option Text) where
  on_line-Ends :
      (next : Loop) (s : SseStream) (words : Text) (received : Bool) (es : List Event)
      (raw_line : Bytes)
      → ((t : SseStream) (words : Text) (received : Bool)
          → t.lines ≡ s.lines
          → Ends (next t words received es))
      → Ends (on_line from_utf8 next s words received es raw_line)
  unfolding on_line
  on_line-Ends next s words received es raw_line h =
      if-Ends (ltb max_event_bytes (min (s.pending_frame_bytes + length raw_line) (2 ^ 64 - 1))) _ _
        (close-Ends (framed s raw_line) es)
        (on_text-Ends next s.lines es h (framed s raw_line) words received (from_utf8 raw_line)
          refl)

  on_read-Ends :
      (next : Loop) (s : SseStream) (words : Text) (received : Bool) (es : List Event)
      (result : IoResult (Option BoundedLine))
      → ((line : BoundedLine)
          → result ≡ ok (some line)
          → (t : SseStream) (words : Text) (received : Bool) → t.lines ≡ s.lines
          → Ends (next t words received es))
      → Ends (on_read from_utf8 next s words received es result)
  unfolding on_read
  on_read-Ends next s words received es (ok none) h = at_end-Ends s words received es
  on_read-Ends next s words received es (ok (some line)) h =
      on_line-Ends next s words received es (as_bytes line) (h line refl)
  on_read-Ends next s words received es (err e) h =
      broken-Ends e (record s { pending_data = words; pending_received = received }) es

  pub event_loop-Ends :
      (fuel : ℕ) (s : SseStream) (words : Text) (received : Bool) (es : List Event)
      → bytes_left from_utf8 s es < fuel
      → Ends (event_loop from_utf8 fuel s words received es)
  unfolding event_loop
  event_loop-Ends zero s words received es h = absurd (omega arith)
  event_loop-Ends (suc fuel) s words received es h =
      let step : Step = read_line max_event_bytes reject s.lines es in
      on_read-Ends (event_loop from_utf8 fuel) (record s { lines = step.reader }) words received
        step.source step.result
        (λ line e t more now same. event_loop-Ends fuel t more now step.source (
          fewer t.lines step (bytes_left from_utf8 s es) fuel same
            (read_line-Takes max_event_bytes es s.lines line e) h))

  -- `next_event` gives an event, the end or an error on every source, after as many lines at most as
  -- there are bytes left, and one more.
  pub next_event-Ends : (s : SseStream) (es : List Event) → Ends (next_event from_utf8 s es)
  unfolding next_event
  next_event-Ends s es = if-Ends s.finished _ _ (ended-Ends s es) (
      event_loop-Ends (suc (bytes_left from_utf8 s es)) _ s.pending_data s.pending_received es
        (omega arith))
