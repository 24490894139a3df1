-- ===== src/Core/Context/Profile.antt =====
-- crates/rupi-core/src/context.rs: the built-in profiles and the policy over them. The machine's
-- `f64` is the parameter `Floats`: the profile's thresholds are computed with its operations, as the
-- code does, and nothing is assumed of them.
use pi_rs.Prelude.{ℕ, ◌+◌, ◌/◌, Bool, leb, ◌==◌, min, max, if◌then◌else◌}
use pi_rs.Core.Context.{
  ContextThresholds, ContextOverrides, ContextState, ContextDecision, normalized_for_window,
  with_overrides, evaluate_with,
}

pub record Floats : Type 1 where
  pub F : Type 0
  -- `x as f64`, `x as u64`, and the literal `digits / 100`.
  pub of_u64 : ℕ → F
  pub to_u64 : F → ℕ
  pub hundredths : ℕ → F
  pub mul : F → F → F
  pub sub : F → F → F
  pub div : F → F → F
  pub min_f64 : F → F → F
  pub clamp_f64 : F → F → F → F

pub data ContextProfile : Type 0 where
  aggressive balanced relaxed : ContextProfile

-- The fractions in hundredths.
pub record ProfileFractions : Type 0 where
  pub warn : ℕ
  pub reduce : ℕ
  pub compact : ℕ
  pub recent_target : ℕ
  pub working_cap_tokens : ℕ

unfoldable pub fractions : ContextProfile → ProfileFractions
fractions aggressive = record {
  warn = 45;
  reduce = 55;
  compact = 65;
  recent_target = 15;
  working_cap_tokens = 32000;
}
fractions balanced = record {
  warn = 60;
  reduce = 70;
  compact = 80;
  recent_target = 25;
  working_cap_tokens = 64000;
}
fractions relaxed = record {
  warn = 75;
  reduce = 82;
  compact = 90;
  recent_target = 35;
  working_cap_tokens = 96000;
}

abbrev pub constrained_window_tokens : ℕ
constrained_window_tokens = 64000

abbrev pub large_window_tokens : ℕ
large_window_tokens = 192000

pub record ProfilePolicy : Type 0 where
  pub profile : ContextProfile
  pub thresholds : ContextThresholds
  pub overrides : ContextOverrides
  pub reference_window : ℕ

module _ (fl : Floats) where
  open fl use {of_u64, to_u64, hundredths, mul, sub, div, min_f64, clamp_f64}

  unfoldable pub for_profile : ContextProfile → ℕ → ContextThresholds
  for_profile profile window =
      let p = fractions profile in
      let effective_window = of_u64 (min window large_window_tokens) in
      let lowered = hundredths (if leb window constrained_window_tokens then 5 else 0) in
      let compact_fraction = sub (hundredths p.compact) lowered in
      let cap = of_u64 p.working_cap_tokens in
      let compact = min_f64 (mul effective_window compact_fraction) cap in
      let scaled = λ (fraction : ℕ). to_u64 (
        mul compact (
          clamp_f64 (div (hundredths fraction) (hundredths p.compact)) (hundredths 5)
            (hundredths 150))) in
      normalized_for_window
        (record {
          warn_tokens = scaled p.warn;
          reduce_tokens = scaled p.reduce;
          compact_tokens = to_u64 compact;
          checkpoint_tokens = to_u64 compact + max (to_u64 compact / 10) 4096;
          recent_target_tokens =
              to_u64 (mul (min_f64 effective_window cap) (hundredths p.recent_target));
        })
        window

  unfoldable pub base_thresholds_for_window : ProfilePolicy → ℕ → ContextThresholds
  base_thresholds_for_window p window =
      if window == p.reference_window then p.thresholds else for_profile p.profile window

  -- `thresholds_for_window_with_status`
  pub thresholds_with_status : ProfilePolicy → ℕ → ContextThresholds × Bool
  thresholds_with_status p window =
      with_overrides (base_thresholds_for_window p window) p.overrides window

  pub thresholds_for_window : ProfilePolicy → ℕ → ContextThresholds
  thresholds_for_window p window = (thresholds_with_status p window).0

  unfoldable pub evaluate : ProfilePolicy → ContextState → ContextDecision
  evaluate p s = evaluate_with (thresholds_for_window p s.window) s
