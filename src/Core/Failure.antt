-- ===== src/Core/Failure.antt =====
-- crates/rupi-core/src/failure.rs: the kinds of provider failures, what may be replayed, and the
-- classification of HTTP answers.
pub mod Http
pub mod Replay
mod Tests
use pi_rs.Prelude.{
  ℕ, Bool, true, false, not, ◌&&◌, ◌||◌, Option, none, some, List, [], ◌∷◌, ◌==◌, if◌then◌else◌,
}
use pi_rs.Prelude.Text.{Text, codes, within, contains, to_ascii_lowercase}
use pi_rs.Core.Capability.{ModelRef}

pub data ModelFailureKind : Type 0 where
  transport timeout rate_limited provider_unavailable authentication protocol : ModelFailureKind
  context_overflow semantic cancelled : ModelFailureKind

unfoldable pub is_retryable : ModelFailureKind → Bool
is_retryable transport = true
is_retryable timeout = true
is_retryable rate_limited = true
is_retryable provider_unavailable = true
is_retryable _ = false

unfoldable pub is_failover_candidate : ModelFailureKind → Bool
is_failover_candidate transport = true
is_failover_candidate timeout = true
is_failover_candidate rate_limited = true
is_failover_candidate provider_unavailable = true
is_failover_candidate protocol = true
is_failover_candidate _ = false

pub data FailurePhase : Type 0 where
  pre_request waiting_for_response streaming normalizing : FailurePhase

pub data RequestReplaySafety : Type 0 where
  safe ambiguous_post_boundary committed_output : RequestReplaySafety

unfoldable pub is_safe : RequestReplaySafety → Bool
is_safe safe = true
is_safe _ = false

pub record ModelFailure : Type 0 where
  pub kind : ModelFailureKind
  pub phase : FailurePhase
  pub message : Text
  pub status : Option ℕ
  pub retry_after_ms : Option ℕ
  pub attempts : ℕ
  pub partial_output_emitted : Bool
  pub replay_safety : RequestReplaySafety
  pub model : Option ModelRef
  pub detail : Option Text

unfoldable pub initial_safety : FailurePhase → RequestReplaySafety
initial_safety pre_request = safe
initial_safety _ = ambiguous_post_boundary

unfoldable pub new : ModelFailureKind → FailurePhase → Text → ModelFailure
unfolding initial_safety
new kind phase message = record {
  kind = kind;
  phase = phase;
  message = message;
  status = none;
  retry_after_ms = none;
  attempts = 0;
  partial_output_emitted = false;
  replay_safety = initial_safety phase;
  model = none;
  detail = none;
}

-- The methods that build a failure up, each by its argument.
pub data Builder : Type 0 where
  with_status with_retry_after_ms with_attempts : ℕ → Builder
  with_partial_output : Bool → Builder
  with_replay_safety : RequestReplaySafety → Builder
  with_model : ModelRef → Builder
  with_detail : Text → Builder

unfoldable pub build : ModelFailure → Builder → ModelFailure
build f (with_status status) = record f { status = some status }
build f (with_retry_after_ms ms) = record f { retry_after_ms = some ms }
build f (with_attempts attempts) = record f { attempts = attempts }
build f (with_partial_output emitted) = record f {
  partial_output_emitted = emitted;
  replay_safety = if emitted then committed_output else f.replay_safety;
}
build f (with_replay_safety safety) = record f {
  replay_safety = if f.partial_output_emitted then committed_output else safety;
}
build f (with_model model) = record f { model = some model }
build f (with_detail detail) = record f { detail = some detail }

unfoldable pub safe_to_retry : ModelFailure → Bool
unfolding is_retryable is_safe
safe_to_retry f = is_retryable f.kind && (is_safe f.replay_safety && not f.partial_output_emitted)

abbrev overflow_phrases : List Text
overflow_phrases =
    codes "context length"
    ∷ codes "context_length"
    ∷ codes "maximum context"
    ∷ codes "context window"
    ∷ codes "context size"
    ∷ codes "exceeds the supported"
    ∷ codes "too many tokens"
    ∷ codes "prompt is too long"
    ∷ codes "reduce the length of the messages"
    ∷ []

unfoldable pub contains_any : Text → List Text → Bool
contains_any s [] = false
contains_any s (phrase ∷ phrases) = contains s phrase || contains_any s phrases

unfoldable pub looks_like_context_overflow : Text → Bool
unfolding contains_any
looks_like_context_overflow message = contains_any (to_ascii_lowercase message) overflow_phrases

-- The `match status`, arm by arm.
unfoldable pub classify_status : ℕ → ModelFailureKind
classify_status status =
    if status == 401 || status == 403
    then authentication
    else if status == 408 || status == 504
    then timeout
    else if status == 429
    then rate_limited
    else if status == 404 || status == 410
    then provider_unavailable
    else if status == 413
    then context_overflow
    else if within 500 599 status
    then provider_unavailable
    else if within 400 499 status
    then protocol
    else protocol

unfoldable pub classify_http : ℕ → Text → ModelFailureKind
unfolding classify_status
classify_http status message =
    if looks_like_context_overflow message then context_overflow else classify_status status
