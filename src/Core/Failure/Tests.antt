-- ===== src/Core/Failure/Tests.antt =====
-- Failures at concrete values.
use pi_rs.Prelude.{ℕ, ◌≡◌, ◌≢◌, ◌↔◌, refl, true, false, ◌&&◌, List, [], ◌∷◌}
use pi_rs.Prelude.Text.{codes, contains, to_ascii_lowercase}
use pi_rs.Core.Failure.{
  timeout, context_overflow, streaming, safe, with_partial_output, with_replay_safety, new,
  safe_to_retry, is_retryable, is_safe, is_failover_candidate, classify_http,
  looks_like_context_overflow, Builder,
}
use pi_rs.Core.Failure.Http.{
  IsTransient, classify_http-is_retryable, classify_http-is_failover_candidate,
}
use pi_rs.Core.Failure.Replay.{build_all, safe_to_retry_built}

overflow_first :
    classify_http 400 (codes "This model's maximum context length is 8192") ≡ context_overflow
unfolding classify_http looks_like_context_overflow contains to_ascii_lowercase
overflow_first = refl

classify_http-is_retryable_example :
    (is_retryable (classify_http 503 (codes "busy")) ≡ true)
    ↔ (IsTransient 503 × (looks_like_context_overflow (codes "busy") ≡ false))
classify_http-is_retryable_example = classify_http-is_retryable 503 (codes "busy")

forbidden_fails_over : (is_failover_candidate (classify_http 403 (codes "no")) ≡ true) ↔ (
    (◌≢◌ {A = ℕ} 403 401)
    × (◌≢◌ {A = ℕ} 403 403)
    × (◌≢◌ {A = ℕ} 403 413)
    × (looks_like_context_overflow (codes "no") ≡ false))
forbidden_fails_over = classify_http-is_failover_candidate 403 (codes "no")

-- Output was emitted, and the caller then claims that a replay is safe.
abbrev steps : List Builder
steps = with_partial_output true ∷ with_replay_safety safe ∷ []

safe_to_retry_built_example :
    let f = build_all (new timeout streaming []) steps in
    safe_to_retry f ≡ (is_retryable f.kind && is_safe f.replay_safety)
safe_to_retry_built_example = safe_to_retry_built timeout streaming [] steps
