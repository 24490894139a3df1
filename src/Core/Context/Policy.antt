-- ===== src/Core/Context/Policy.antt =====
-- What `evaluate` may decide, for thresholds in order.
use pi_rs.Prelude.{ℕ, ◌≤◌, ◌<◌, ◌≡◌, ◌⊎◌, ◌↔◌, true, false, some, arith}
use pi_rs.Core.Context.{
  ContextLevel, l0_payload, l1_ordinary, requires_safe_boundary, ContextState, effective_tokens,
  Reason, exceeds_compact, keep, warn, compact, ContextThresholds, evaluate_with,
}
use pi_rs.Core.Context.Ladder.{IsLadder}

module _ (t : ContextThresholds) (s : ContextState) (ladder : IsLadder s.window t) where
  -- With thresholds in order for the window, a decision at a level that rewrites history is made only
  -- at a safe boundary.
  pub evaluate_boundary :
      (level : ContextLevel)
      → (evaluate_with t s).level ≡ some level
      → requires_safe_boundary level ≡ true
      → s.at_safe_boundary ≡ true
  unfolding evaluate_with requires_safe_boundary
  evaluate_boundary level h structural = ground arith

  -- With thresholds in order for the window, a compaction is decided only at the ordinary level, at a
  -- safe boundary, with the context at or above the compaction threshold, and where the provider
  -- reported an overflow or 30 seconds have passed since the last one. Its target is that of the
  -- thresholds, and below what the context holds now.
  pub evaluate-compact :
      (level : ContextLevel) (reason : Reason) (target : ℕ)
      → (evaluate_with t s).action ≡ compact level reason target
      → (level ≡ l1_ordinary)
        × (s.at_safe_boundary ≡ true)
        × (t.compact_tokens ≤ effective_tokens s)
        × (target ≡ t.recent_target_tokens)
        × (target < effective_tokens s)
        × ((s.overflow_observed ≡ true) ⊎ (30000 ≤ s.since_last_compaction_ms))
  unfolding evaluate_with
  evaluate-compact level reason target h = ground arith

  -- With thresholds in order for the window, nothing is done exactly when no overflow was reported,
  -- the context is below the first threshold and the recent part is within its target.
  pub evaluate-keep : (evaluate_with t s).action ≡ keep ↔ (
      (s.overflow_observed ≡ false)
      × (effective_tokens s < t.warn_tokens)
      × (s.recent_tokens ≤ t.recent_target_tokens))
  unfolding evaluate_with
  evaluate-keep = (λ h. ground arith, λ h. ground arith)

  -- With thresholds in order for the window, once a compaction has reached its target, nothing above
  -- the payload level is decided at the same window, however long ago the compaction was, unless an
  -- overflow is reported.
  pub compact_settles :
      (s' : ContextState) (level : ContextLevel) (reason : Reason) (target : ℕ)
      → (evaluate_with t s).action ≡ compact level reason target
      → s'.window ≡ s.window
      → s'.overflow_observed ≡ false
      → effective_tokens s' ≤ target
      → (next : ContextLevel) → (evaluate_with t s').level ≡ some next
      → next ≡ l0_payload
  unfolding evaluate_with
  compact_settles s' level reason target h w o reached next e = ground arith

  -- With thresholds in order for the window, no overflow reported, and at a safe boundary between the
  -- two cooldowns, 30 and 120 seconds after the last reduction, more pressure gets less: a context in the compaction band is compacted, and one at or above the
  -- checkpoint threshold is only warned of.
  pub checkpoint_pressure_waits :
      s.at_safe_boundary ≡ true
      → s.overflow_observed ≡ false
      → 30000 ≤ s.since_last_compaction_ms
      → s.since_last_compaction_ms < 120000
      → t.compact_tokens ≤ effective_tokens s
      → ((effective_tokens s < t.checkpoint_tokens)
          × ((evaluate_with t s).action
              ≡ compact l1_ordinary
                  (exceeds_compact (effective_tokens s) t.compact_tokens)
                  t.recent_target_tokens))
        ⊎ ((t.checkpoint_tokens ≤ effective_tokens s)
            × ((evaluate_with t s).action ≡ warn (effective_tokens s) t.checkpoint_tokens))
  unfolding evaluate_with
  checkpoint_pressure_waits b o after before over = ground arith
