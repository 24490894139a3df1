-- ===== src/Provider/Sse/Tests.antt =====
-- crates/rupi-provider/src/sse.rs: an event whose source fails in the middle of it.
use pi_rs.Prelude.{◌≡◌, refl, Option, some, List, [], ◌∷◌}
use pi_rs.Prelude.Text.{Text, codes}
use pi_rs.Core.Bounded.{
  Bytes, transport, read_line, read_buffer, before_newline, after_newline, Event, chunk, failure,
}
use pi_rs.Provider.Sse.{Pull, broken, event, opened, next_event}
use pi_rs.Provider.Sse.Progress.{Ends, next_event-Ends}

abbrev source : List Event
source = chunk b'd' (codes "ata: ok") ∷ failure 11 ∷ chunk b'\n' (codes "\n\n") ∷ []

next_event-Ends_example : Ends (next_event (λ bytes. some bytes) opened source)
next_event-Ends_example = next_event-Ends (λ bytes. some bytes) opened source

abbrev utf8 : Bytes → Option Text
utf8 bytes = some bytes

abbrev interrupted : Pull
unfolding next_event read_line
interrupted = next_event utf8 opened source

-- The error of the source keeps what has come, and the next call goes on.
timed_out : interrupted.result ≡ broken (transport 11)
unfolding interrupted next_event read_line read_buffer before_newline after_newline
timed_out = refl

resumed : (next_event utf8 interrupted.stream interrupted.source).result ≡ event (codes "ok")
unfolding interrupted next_event read_line read_buffer before_newline after_newline
resumed = refl
