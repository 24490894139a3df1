-- ===== src/Core/Capability.antt =====
-- crates/rupi-core/src/capability.rs: model references, capability snapshots, and the shortfalls of
-- one snapshot against another.
pub mod Gaps
pub mod Reference
mod Tests
use pi_rs.Prelude.{
  ℕ, Bool, true, false, not, ◌&&◌, ◌||◌, Option, none, some, List, [], ◌∷◌, ◌++◌, is_empty, ltb,
  if◌then◌else◌,
}
use pi_rs.Prelude.Text.{Text, trim, split_once}

pub record ModelRef : Type 0 where
  pub provider : Text
  pub model : Text

-- On what `split_once` gives.
abbrev trimmed_halves : Option (Text × Text) → Option ModelRef
trimmed_halves none = none
trimmed_halves (some (provider, model)) =
    if is_empty (trim provider) || is_empty (trim model)
    then none
    else some (record { provider = trim provider; model = trim model })

unfoldable pub parse : Text → Option ModelRef
parse value = trimmed_halves (split_once b'/' value)

unfoldable pub as_key : ModelRef → Text
as_key r = r.provider ++ (b'/' ∷ r.model)

pub data ReasoningExposure : Type 0 where
  hidden native provider_summary declared : ReasoningExposure

pub record ModelCapabilities : Type 0 where
  pub text : Bool
  pub images : Bool
  pub tools : Bool
  pub exposed_reasoning : ReasoningExposure
  pub context_window : ℕ
  pub max_output_tokens : Option ℕ

unfoldable pub text_only : ℕ → ModelCapabilities
text_only context_window = record {
  text = true;
  images = false;
  tools = false;
  exposed_reasoning = hidden;
  context_window = context_window;
  max_output_tokens = none;
}

pub data CapabilityGap : Type 0 where
  text_gap images_gap tools_gap : CapabilityGap
  window_gap : ℕ → ℕ → CapabilityGap

-- One `if … { gaps.push(…) }`.
abbrev push_if : Bool → CapabilityGap → List CapabilityGap → List CapabilityGap
push_if b gap gaps = if b then gap ∷ gaps else gaps

unfoldable pub gaps : ModelCapabilities → ModelCapabilities → List CapabilityGap
gaps c required = push_if (required.text && not c.text) text_gap (
    push_if (required.images && not c.images) images_gap (
      push_if (required.tools && not c.tools) tools_gap (
        push_if (ltb c.context_window required.context_window)
          (window_gap required.context_window c.context_window) [])))

-- `!matches!(gap, CapabilityGap::ContextWindow { .. })`
unfoldable pub is_hard : CapabilityGap → Bool
is_hard (window_gap required available) = false
is_hard _ = true

unfoldable pub has_hard_gap : List CapabilityGap → Bool
unfolding is_hard
has_hard_gap [] = false
has_hard_gap (gap ∷ gaps) = is_hard gap || has_hard_gap gaps
