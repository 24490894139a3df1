-- ===== src/Core/Failure/Http.antt =====
-- What an HTTP answer may lead to.
use pi_rs.Prelude.{ℕ, ◌≤◌, ◌≡◌, ◌≢◌, ◌⊎◌, ◌↔◌, true, false, arith}
use pi_rs.Prelude.Text.{Text}
use pi_rs.Core.Failure.{
  is_retryable, is_failover_candidate, classify_http, looks_like_context_overflow,
}

-- The statuses of an answer that may change when the same request is sent again.
abbrev pub IsTransient : ℕ → Type 0
IsTransient status =
    (status ≡ 404)
    ⊎ (status ≡ 408)
    ⊎ (status ≡ 410)
    ⊎ (status ≡ 429)
    ⊎ ((500 ≤ status) × (status ≤ 599))

-- An HTTP answer is classified as retryable exactly when its status is transient and its message
-- does not speak of the context window.
pub classify_http-is_retryable :
    (status : ℕ) (message : Text)
    → (is_retryable (classify_http status message) ≡ true)
      ↔ (IsTransient status × (looks_like_context_overflow message ≡ false))
unfolding is_retryable classify_http
classify_http-is_retryable status message = (λ h. ground arith, λ h. ground arith)

-- An HTTP answer is classified as one that may move the session to the backup model unless credentials were refused (401, 403) or the
-- request was too large (413, or a message that speaks of the context window).
pub classify_http-is_failover_candidate :
    (status : ℕ) (message : Text)
    → (is_failover_candidate (classify_http status message) ≡ true) ↔ (
        (status ≢ 401)
        × (status ≢ 403)
        × (status ≢ 413)
        × (looks_like_context_overflow message ≡ false))
unfolding is_failover_candidate classify_http
classify_http-is_failover_candidate status message = (λ h. ground arith, λ h. ground arith)
