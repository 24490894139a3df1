-- ===== src/Runtime/Failover/Tests.antt =====
-- Recovery decisions at concrete failures.
use pi_rs.Prelude.{ℕ, ◌≡◌, ◌<◌, ◌↔◌, refl, false, true, some, [], ◌∷◌}
use pi_rs.Prelude.Text.{codes}
use pi_rs.Core.Capability.{ModelRef, ModelCapabilities, text_only, window_gap, gaps, has_hard_gap}
use pi_rs.Core.Capability.Gaps.{Serves}
use pi_rs.Core.Failure.{
  ModelFailure, timeout, pre_request, streaming, new, safe_to_retry, is_failover_candidate,
}
use pi_rs.Runtime.Failover.{
  FailoverPolicy, retry, failover, default, with_backup, requiring, decide,
}
use pi_rs.Runtime.Failover.Decisions.{IsSpent, decide-retry, decide-failover}

abbrev spare : ModelRef
spare = record { provider = codes "local"; model = codes "spare" }

-- A backup with a smaller window than the session's.
abbrev policy : FailoverPolicy
unfolding default with_backup requiring
policy = requiring (with_backup default spare (text_only 4000)) (text_only 8192)

abbrev refused_connection : ModelFailure
unfolding new
refused_connection = record (new timeout pre_request []) { attempts = 1 }

abbrev lost_answer : ModelFailure
unfolding new
lost_answer = record (new timeout streaming []) { attempts = 1 }

asks_again : decide policy refused_connection ≡ retry 1 2
unfolding decide new safe_to_retry default with_backup requiring
asks_again = refl

takes_over : decide policy lost_answer ≡ failover spare (window_gap 8192 4000 ∷ [])
unfolding decide new safe_to_retry is_failover_candidate default with_backup requiring text_only
    gaps has_hard_gap
takes_over = refl

decide-retry_example :
    (decide policy refused_connection ≡ retry 1 2)
    ↔ ((safe_to_retry refused_connection ≡ true) × (1 < 2) × (◌≡◌ {A = ℕ} 1 1) × (◌≡◌ {A = ℕ} 2 2))
unfolding new default with_backup requiring
decide-retry_example = decide-retry policy refused_connection 1 2

decide-failover_example :
    (decide policy lost_answer ≡ failover spare (window_gap 8192 4000 ∷ [])) ↔ (
      (c : ModelCapabilities) × (lost_answer.partial_output_emitted ≡ false)
      × (is_failover_candidate lost_answer.kind ≡ true)
      × IsSpent policy lost_answer
      × (policy.backup ≡ some spare)
      × (policy.backup_capabilities ≡ some c)
      × Serves c policy.required
      × (window_gap 8192 4000 ∷ [] ≡ gaps c policy.required))
decide-failover_example = decide-failover policy lost_answer spare (window_gap 8192 4000 ∷ [])
