-- ===== src/Core/Context/Ladder.antt =====
-- The order of the thresholds.
use pi_rs.Prelude.{ℕ, ◌+◌, ◌-◌, ◌≤◌, ◌<◌, ◌≡◌, ◌↔◌, refl, Bool, true, false, not, arith, subst}
use pi_rs.Core.Context.{
  ContextThresholds, ContextOverrides, normalized_for_window, requested, thresholds_eq,
  with_overrides, clamp,
}

-- warn ≤ reduce ≤ compact < checkpoint < window, and the target of a compaction below the point
-- that triggers one.
pub record IsLadder (window : ℕ) (t : ContextThresholds) : Type 0 where
  pub warns_first : t.warn_tokens ≤ t.reduce_tokens
  pub reduces_next : t.reduce_tokens ≤ t.compact_tokens
  pub then_compacts : t.compact_tokens < t.checkpoint_tokens
  pub fits : t.checkpoint_tokens < window
  pub leaves_room : t.recent_target_tokens < t.compact_tokens

-- The bounds of both `clamp` calls are in order, so neither panics.
clamp_bounds :
    (t : ContextThresholds) (window : ℕ)
    → 3 ≤ window
    → (1 ≤ window - 2) × (clamp t.compact_tokens 1 (window - 2) + 1 ≤ window - 1)
unfolding clamp
clamp_bounds t window h = (omega arith, ground arith)

normalized-IsLadder :
    (t : ContextThresholds) (window : ℕ)
    → 3 ≤ window
    → IsLadder window (normalized_for_window t window)
unfolding normalized_for_window
normalized-IsLadder t window h = ground arith

normalized_fixed :
    (t : ContextThresholds) (window : ℕ)
    → 3 ≤ window
    → IsLadder window t
    → normalized_for_window t window ≡ t
unfolding normalized_for_window
normalized_fixed t window h l = ground arith

thresholds_eq_iff : (s t : ContextThresholds) → (thresholds_eq s t ≡ true) ↔ (s ≡ t)
unfolding thresholds_eq
thresholds_eq_iff s t = (λ h. ground arith, λ e. ground arith)

-- Whatever thresholds a profile gives and an operator asks for, those in force at a window of at
-- least 3 tokens are in order; and the flag that they were adjusted is raised exactly when those
-- asked for were not.
pub with_overrides_lem :
    (t : ContextThresholds) (o : ContextOverrides) (window : ℕ)
    → 3 ≤ window
    → IsLadder window (with_overrides t o window).0
      × (((with_overrides t o window).1 ≡ false) ↔ IsLadder window (requested t o))
unfolding with_overrides
with_overrides_lem t o window h =
    let asked = requested t o in
    let kept = normalized_for_window asked window in
    let ladder = normalized-IsLadder asked window h in
    (
      ladder,
      (
        λ e. subst (IsLadder window) ((thresholds_eq_iff kept asked).0 (not_false e)) ladder,
        λ l. rw ((thresholds_eq_iff kept asked).1 (normalized_fixed asked window h l)) refl,
      ),
    )
  where
    not_false : {b : Bool} → not b ≡ false → b ≡ true
    not_false e = ground arith

-- Where the thresholds asked for are in order already, they are in force as they are.
pub with_overrides_kept :
    (t : ContextThresholds) (o : ContextOverrides) (window : ℕ)
    → 3 ≤ window
    → IsLadder window (requested t o)
    → (with_overrides t o window).0 ≡ requested t o
unfolding with_overrides
with_overrides_kept t o window h l = normalized_fixed (requested t o) window h l
