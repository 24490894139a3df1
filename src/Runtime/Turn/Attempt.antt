-- ===== src/Runtime/Turn/Attempt.antt =====
-- crates/rupi-runtime/src/turn.rs: `attempt`, round by round. The list of rounds is what the world answers.
use pi_rs.Prelude.{
  ℕ, ◌+◌, ◌-◌, ◌*◌, ◌^◌, Bool, true, false, ◌&&◌, ◌||◌, Option, none, some, List, [], ◌∷◌, ◌++◌,
  ltb, leb, ◌==◌, min, if◌then◌else◌,
}
use pi_rs.Core.Capability.{ModelRef}
use pi_rs.Core.Failure.{
  ModelFailureKind, context_overflow, ModelFailure, build, with_partial_output,
}
use pi_rs.Core.Completion.{CompletionUsage, stopped_at_output_limit}
use pi_rs.Runtime.Turn.{
  completion_failure, TurnLoop, TurnFailure, Written, Built, Streamed, Round, Action, u32_max,
  recover, with_history, cancelled, provider_overflow, output_truncated, fatal, sink, written, lost,
  request, not_built, finished, broke, takeover, stop, failed,
}

unfoldable pub retry_delay_ms : Option ℕ → ℕ → ℕ
retry_delay_ms (some ms) attempts = ms
retry_delay_ms none attempts = min (100 * 2 ^ min (attempts - 1) 5) 2000

pub data End : Type 0 where
  responded : CompletionUsage → End
  ended : TurnFailure → End
  -- The answers of the world are used up: no end of the code.
  waiting : End

abbrev pub Next : Type 0
Next = TurnLoop → End × TurnLoop

-- The `match` on `recover`.
unfoldable pub act : Round → ModelFailure → ℕ → Next → TurnLoop → Action × TurnLoop → End × TurnLoop
unfolding retry_delay_ms
act w f attempts next t (Action.retry, t') =
    if w.slept (retry_delay_ms f.retry_after_ms attempts) then next t' else (ended cancelled, t')
act w f attempts next t (takeover, t') = next t'
act w f attempts next t (stop, t') = (ended (fatal f), t')
act w f attempts next t (failed e, t') = (ended e, t')

-- `recoverable_output_truncation`
unfoldable pub truncation : Option CompletionUsage → Option ℕ → Option (ℕ × ℕ)
unfolding stopped_at_output_limit
truncation none requested = none
truncation (some usage) none = none
truncation (some usage) (some requested) = elim usage.output_tokens [
  | none ↦ none
  | some actual ↦
      if stopped_at_output_limit usage.finish_reason && ltb actual requested
      then some (actual, requested)
      else none
]

unfoldable pub is_overflow : ModelFailureKind → Bool
is_overflow context_overflow = true
is_overflow _ = false

-- From the overflow test on.
unfoldable pub after_truncation :
    TurnLoop → ℕ → Round → Next → ModelFailure → Option (ℕ × ℕ) → End × TurnLoop
unfolding act recover is_overflow
after_truncation t attempts w next f (some (actual, requested)) =
    (ended (output_truncated f actual requested w.surface_output_emitted), t)
after_truncation t attempts w next f none =
    if is_overflow f.kind
    then (ended (if f.partial_output_emitted then fatal f else provider_overflow f), t)
    else if leb t.max_requests t.requests
    then (ended (fatal f), t)
    else act w f attempts next t (recover t f w)

-- A request that failed, with its usage where it has one.
unfoldable pub after_close :
    TurnLoop
    → ℕ
    → Round
    → Next
    → Option ℕ
    → ModelFailure
    → Option CompletionUsage
    → Written
    → End × TurnLoop
unfolding after_truncation truncation
after_close t attempts w next max_output f usage (lost e) = (ended e, t)
after_close t attempts w next max_output f usage written =
    if w.is_cancelled
    then (ended cancelled, t)
    else after_truncation t attempts w next f (truncation usage max_output)

abbrev pub on_model : ModelFailure → ℕ → ModelRef → ModelFailure
on_model f attempts model = record f { attempts = attempts; model = some model }

unfoldable pub complete_or_fail :
    TurnLoop → ℕ → Round → Next → Option ℕ → CompletionUsage → Option ModelFailure → End × TurnLoop
unfolding after_close
complete_or_fail t attempts w next max_output usage none =
    if ltb u32_max w.calls then (ended (sink 4), t) else (responded usage, t)
complete_or_fail t attempts w next max_output usage (some f) =
    after_close t attempts w next max_output (on_model f attempts t.epoch.model) (some usage)
      w.closed

unfoldable pub settle : TurnLoop → ℕ → Round → Next → Option ℕ → Streamed → End × TurnLoop
unfolding complete_or_fail completion_failure build
settle t attempts w next max_output (finished usage) =
    complete_or_fail t attempts w next max_output usage
      (completion_failure usage w.produced w.committed)
settle t attempts w next max_output (broke f) =
    after_close t attempts w next max_output
      (on_model (build f (with_partial_output (f.partial_output_emitted || w.committed))) attempts
        t.epoch.model)
      none w.closed

unfoldable pub after_collect : TurnLoop → ℕ → Round → Next → Option ℕ → Written → End × TurnLoop
unfolding settle
after_collect t attempts w next max_output (lost e) = (ended e, t)
after_collect t attempts w next max_output written = settle t attempts w next max_output w.streamed

-- The envelope of `ModelRequestStarted`, which `emit` keeps once the trace has it.
abbrev pub start_recorded : TurnLoop → TurnLoop
start_recorded t = record t {
  envelopes = t.envelopes ++ record { epoch = t.epoch.index; model = t.epoch.model } ∷ [];
}

unfoldable pub after_start : TurnLoop → ℕ → Round → Next → Option ℕ → Written → End × TurnLoop
unfolding after_collect
after_start t attempts w next max_output (lost e) = (ended e, t)
after_start t attempts w next max_output written =
    after_collect (start_recorded t) attempts w next max_output w.collected

abbrev pub usize_max : ℕ
usize_max = 2 ^ 64 - 1

unfoldable pub with_request : TurnLoop → ℕ → Round → Next → Built → End × TurnLoop
unfolding after_start
with_request t attempts w next (not_built e) = (ended e, t)
with_request t attempts w next (request max_output) =
    if t.requests == usize_max
    then (ended (sink 1), t)
    else after_start (record t { requests = t.requests + 1 }) attempts w next max_output w.started

-- The attempts that count at the start of a round: those of another epoch do not.
abbrev pub counted : TurnLoop → ℕ → ℕ → ℕ
counted t attempts epoch_of_attempts = if t.epoch.index == epoch_of_attempts then attempts else 0

unfoldable pub round : TurnLoop → ℕ → Round → Next → End × TurnLoop
unfolding with_request
round t attempts w next =
    if attempts == u32_max
    then (ended (sink 2), t)
    else with_request (with_history t w.built_history) (attempts + 1) w next w.built

unfoldable pub attempt_loop : TurnLoop → ℕ → ℕ → List Round → End × TurnLoop
unfolding round
attempt_loop t attempts epoch_of_attempts [] = (waiting, t)
attempt_loop t attempts epoch_of_attempts (w ∷ ws) =
    let here = counted t attempts epoch_of_attempts in
    round t here w (λ t'. attempt_loop t' (here + 1) t.epoch.index ws)

unfoldable pub attempt : TurnLoop → List Round → End × TurnLoop
unfolding attempt_loop
attempt t ws = attempt_loop t 0 t.epoch.index ws
