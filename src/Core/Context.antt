-- ===== src/Core/Context.antt =====
-- crates/rupi-core/src/context.rs: when the model-visible context is reduced, and how.
-- `f64` is a parameter (Profile); a reason's text is a value with the numbers that are formatted
-- into it. Token counts are u64 values below the window or given by the caller, and no sum of them
-- comes near 2 ^ 64.
pub mod Ladder
pub mod Profile
pub mod Policy
pub mod External
mod Tests
use pi_rs.Prelude.{
  ℕ, ◌+◌, ◌-◌, ◌≤◌, ◌<◌, Bool, true, false, not, ◌&&◌, ◌||◌, Option, none, some, ltb, leb, ◌==◌,
  min, if◌then◌else◌,
}
use pi_rs.Core.Capability.{ModelRef}

pub data ContextLevel : Type 0 where
  l0_payload l1_ordinary l2_phase l3_checkpoint : ContextLevel

unfoldable pub requires_safe_boundary : ContextLevel → Bool
requires_safe_boundary l1_ordinary = true
requires_safe_boundary l2_phase = true
requires_safe_boundary l3_checkpoint = true
requires_safe_boundary l0_payload = false

pub data ReductionReason : Type 0 where
  oversized_tool_output recent_target_exceeded external_context_too_large : ℕ → ReductionReason
  user_requested : ReductionReason

pub record ContextState : Type 0 where
  pub window : ℕ
  pub model : Option ModelRef
  pub estimated_tokens : ℕ
  pub measured_tokens : Option ℕ
  pub recent_tokens : ℕ
  pub working_messages : ℕ
  pub context_epoch : ℕ
  pub at_safe_boundary : Bool
  pub since_last_compaction_ms : ℕ
  pub overflow_observed : Bool

-- `unwrap_or`
abbrev pub unwrap_or : Option ℕ → ℕ → ℕ
unwrap_or none d = d
unwrap_or (some n) d = n

unfoldable pub effective_tokens : ContextState → ℕ
effective_tokens s = unwrap_or s.measured_tokens s.estimated_tokens

-- The texts that `evaluate` formats, by their numbers.
pub data Reason : Type 0 where
  window_too_small overflow_reported : Reason
  exceeds_window working_context_at exceeds_compact : ℕ → ℕ → Reason

pub data ContextAction : Type 0 where
  keep : ContextAction
  warn : (tokens threshold : ℕ) → ContextAction
  reduce_payload : ReductionReason → ContextAction
  compact : (level : ContextLevel) (reason : Reason) (target_tokens : ℕ) → ContextAction
  suggest_checkpoint refuse : Reason → ContextAction

pub record ContextDecision : Type 0 where
  pub action : ContextAction
  pub tokens : ℕ
  pub level : Option ContextLevel

pub record ContextThresholds : Type 0 where
  pub warn_tokens : ℕ
  pub reduce_tokens : ℕ
  pub compact_tokens : ℕ
  pub checkpoint_tokens : ℕ
  pub recent_target_tokens : ℕ

pub record ContextOverrides : Type 0 where
  pub warn_tokens : Option ℕ
  pub reduce_tokens : Option ℕ
  pub compact_tokens : Option ℕ
  pub checkpoint_tokens : Option ℕ
  pub recent_target_tokens : Option ℕ

-- `Ord::clamp`, which panics unless `lo ≤ hi`; Ladder shows that of both its calls.
unfoldable pub clamp : ℕ → ℕ → ℕ → ℕ
clamp x lo hi = if ltb x lo then lo else if ltb hi x then hi else x

unfoldable pub normalized_for_window : ContextThresholds → ℕ → ContextThresholds
unfolding clamp
normalized_for_window t window =
    let compact_tokens = clamp t.compact_tokens 1 (window - 2) in
    let reduce_tokens = min t.reduce_tokens compact_tokens in
    if ltb window 3
    then record {
      warn_tokens = 0;
      reduce_tokens = 0;
      compact_tokens = 0;
      checkpoint_tokens = 0;
      recent_target_tokens = 0;
    }
    else record {
      warn_tokens = min t.warn_tokens reduce_tokens;
      reduce_tokens = reduce_tokens;
      compact_tokens = compact_tokens;
      checkpoint_tokens = clamp t.checkpoint_tokens (compact_tokens + 1) (window - 1);
      recent_target_tokens = min t.recent_target_tokens (compact_tokens - 1);
    }

-- The thresholds that the overrides ask for.
unfoldable pub requested : ContextThresholds → ContextOverrides → ContextThresholds
requested t o = record {
  warn_tokens = unwrap_or o.warn_tokens t.warn_tokens;
  reduce_tokens = unwrap_or o.reduce_tokens t.reduce_tokens;
  compact_tokens = unwrap_or o.compact_tokens t.compact_tokens;
  checkpoint_tokens = unwrap_or o.checkpoint_tokens t.checkpoint_tokens;
  recent_target_tokens = unwrap_or o.recent_target_tokens t.recent_target_tokens;
}

-- The derived `==` of thresholds.
unfoldable pub thresholds_eq : ContextThresholds → ContextThresholds → Bool
thresholds_eq s t =
    s.warn_tokens == t.warn_tokens
    && (s.reduce_tokens == t.reduce_tokens
        && (s.compact_tokens == t.compact_tokens
            && (s.checkpoint_tokens == t.checkpoint_tokens
                && s.recent_target_tokens == t.recent_target_tokens)))

unfoldable pub with_overrides : ContextThresholds → ContextOverrides → ℕ → ContextThresholds × Bool
with_overrides t o window =
    let normalized = normalized_for_window (requested t o) window in
    (normalized, not (thresholds_eq normalized (requested t o)))

unfoldable pub compaction_cooldown_ms : ContextLevel → ℕ
compaction_cooldown_ms l0_payload = 0
compaction_cooldown_ms l1_ordinary = 30000
compaction_cooldown_ms l2_phase = 60000
compaction_cooldown_ms l3_checkpoint = 120000

-- At a boundary where history may be rewritten, and past the cooldown of the level.
unfoldable pub may_compact : ContextState → ContextLevel → Bool
unfolding compaction_cooldown_ms
may_compact s level =
    s.at_safe_boundary && leb (compaction_cooldown_ms level) s.since_last_compaction_ms

-- The branch of `evaluate` for an overflow that the provider reported.
unfoldable pub on_overflow : ContextThresholds → ContextState → ℕ → ContextDecision
on_overflow t s tokens =
    if ltb t.compact_tokens tokens && s.at_safe_boundary
    then record {
      action = compact l1_ordinary overflow_reported t.recent_target_tokens;
      tokens = tokens;
      level = some l1_ordinary;
    }
    else record {
      action = refuse (exceeds_window tokens t.compact_tokens);
      tokens = tokens;
      level = none;
    }

abbrev warning : ℕ → ℕ → ContextDecision
warning tokens threshold = record { action = warn tokens threshold; tokens = tokens; level = none }

-- The ladder below that branch.
unfoldable pub on_pressure : ContextThresholds → ContextState → ℕ → ContextDecision
unfolding may_compact
on_pressure t s tokens =
    if leb t.checkpoint_tokens tokens
    then if may_compact s l3_checkpoint
      then record {
        action = suggest_checkpoint (working_context_at tokens t.checkpoint_tokens);
        tokens = tokens;
        level = some l3_checkpoint;
      }
      else warning tokens t.checkpoint_tokens
    else if leb t.compact_tokens tokens
    then if may_compact s l1_ordinary
      then record {
        action =
            compact l1_ordinary (exceeds_compact tokens t.compact_tokens) t.recent_target_tokens;
        tokens = tokens;
        level = some l1_ordinary;
      }
      else warning tokens t.compact_tokens
    else if leb t.reduce_tokens tokens || ltb t.recent_target_tokens s.recent_tokens
    then record {
      action = reduce_payload (recent_target_exceeded t.recent_target_tokens);
      tokens = tokens;
      level = some l0_payload;
    }
    else if leb t.warn_tokens tokens
    then warning tokens t.warn_tokens
    else record { action = keep; tokens = tokens; level = none }

-- `evaluate`, by the thresholds of the state's window, which it derives behind the first test.
unfoldable pub evaluate_with : ContextThresholds → ContextState → ContextDecision
unfolding effective_tokens on_overflow on_pressure
evaluate_with t s =
    if ltb s.window 3
    then record { action = refuse window_too_small; tokens = effective_tokens s; level = none }
    else if s.overflow_observed
    then on_overflow t s (effective_tokens s)
    else on_pressure t s (effective_tokens s)
