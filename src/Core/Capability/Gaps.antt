-- ===== src/Core/Capability/Gaps.antt =====
-- The shortfalls against what capabilities mean.
use pi_rs.Prelude.{◌≤◌, ◌≡◌, ◌≢◌, ◌<◌, ◌↔◌, true, false, [], ◌∷◌, arith}
use pi_rs.Core.Capability.{ModelCapabilities, gaps, has_hard_gap, window_gap}

-- Every modality of `required` is one of `c`.
pub record Serves (c required : ModelCapabilities) : Type 0 where
  pub text : required.text ≡ true → c.text ≡ true
  pub images : required.images ≡ true → c.images ≡ true
  pub tools : required.tools ≡ true → c.tools ≡ true

-- A snapshot has no hard gap exactly when it has every modality that is required, whatever the
-- windows are.
pub has_hard_gap_iff :
    (c required : ModelCapabilities) → (has_hard_gap (gaps c required) ≡ false) ↔ Serves c required
unfolding has_hard_gap gaps
has_hard_gap_iff c required = (
  λ h. record { text = ground arith; images = ground arith; tools = ground arith },
  λ s. ground arith,
)

-- A snapshot has no gap at all exactly when it has every modality that is required and its window is
-- at least as large as the one required.
pub gaps-nil_iff :
    (c required : ModelCapabilities)
    → (gaps c required ≡ []) ↔ (Serves c required × (required.context_window ≤ c.context_window))
unfolding gaps
gaps-nil_iff c required = (
  λ h. (record { text = ground arith; images = ground arith; tools = ground arith }, ground arith),
  λ s. ground arith,
)

-- Where there is no hard gap, there is at most one gap, the window's, with its numbers.
pub soft_gaps :
    (c required : ModelCapabilities)
    → has_hard_gap (gaps c required) ≡ false
    → gaps c required ≢ []
    → (gaps c required ≡ window_gap required.context_window c.context_window ∷ [])
      × (c.context_window < required.context_window)
unfolding has_hard_gap gaps
soft_gaps c required h ne = ground arith
