-- ===== src/Core/Context/Tests.antt =====
-- The policy at a window of 128,000 tokens, with a model of `f64` by hundredths.
use pi_rs.Prelude.{
  ℕ, ◌≡◌, ◌≤◌, ◌<◌, ◌⊎◌, ◌↔◌, ◌*◌, ◌/◌, ◌-◌, refl, true, false, some, none, [], ◌∷◌, min, max,
  arith,
}
use pi_rs.Core.Context.{
  ContextThresholds, ContextOverrides, ContextState, l0_payload, l1_ordinary, exceeds_compact,
  compact, keep, warn, effective_tokens, evaluate_with, with_overrides, requested,
  requires_safe_boundary,
}
use pi_rs.Core.Context.External.{
  ExternalContextItem, rehydrate, external_ref, compact_to_reference, rehydrate-compact,
}
use pi_rs.Core.Context.Ladder.{IsLadder, with_overrides_lem, with_overrides_kept}
use pi_rs.Core.Context.Policy.{
  evaluate_boundary, evaluate-compact, evaluate-keep, compact_settles, checkpoint_pressure_waits,
}
use pi_rs.Core.Context.Profile.{Floats, ProfilePolicy, balanced}

-- Nonnegative multiples of a hundredth, which serve as `f64` for the numbers of the profiles.
abbrev by_hundredths : Floats
by_hundredths = record {
  F = ℕ;
  of_u64 = λ n. n * 100;
  to_u64 = λ x. x / 100;
  hundredths = λ d. d;
  mul = λ x y. x * y / 100;
  sub = λ x y. x - y;
  div = λ x y. x * 100 / y;
  min_f64 = λ x y. min x y;
  clamp_f64 = λ x lo hi. min (max x lo) hi;
}

abbrev no_overrides : ContextOverrides
no_overrides = record {
  warn_tokens = none;
  reduce_tokens = none;
  compact_tokens = none;
  checkpoint_tokens = none;
  recent_target_tokens = none;
}

abbrev thresholds : ContextThresholds
thresholds = record {
  warn_tokens = 48000;
  reduce_tokens = 56000;
  compact_tokens = 64000;
  checkpoint_tokens = 70400;
  recent_target_tokens = 16000;
}

abbrev crossed : ContextOverrides
crossed = record no_overrides { warn_tokens = some 90000 }

abbrev policy : ProfilePolicy
policy = record {
  profile = balanced;
  thresholds = thresholds;
  overrides = crossed;
  reference_window = 128000;
}

abbrev state : ContextState
state = record {
  window = 128000;
  model = none;
  estimated_tokens = 65000;
  measured_tokens = none;
  recent_tokens = 1000;
  working_messages = 40;
  context_epoch = 0;
  at_safe_boundary = true;
  since_last_compaction_ms = 45000;
  overflow_observed = false;
}

abbrev idle : ContextState
idle = record state { estimated_tokens = 1000 }

abbrev crowded : ContextState
crowded = record state { estimated_tokens = 71000 }

ladder : IsLadder 128000 thresholds
ladder = omega arith

compacts :
    (evaluate_with thresholds state).action
    ≡ compact l1_ordinary (exceeds_compact 65000 64000) 16000
unfolding evaluate_with
compacts = refl

with_overrides_lem_example :
    IsLadder 128000 (with_overrides thresholds crossed 128000).0
    × (((with_overrides thresholds crossed 128000).1 ≡ false)
        ↔ IsLadder 128000 (requested thresholds crossed))
with_overrides_lem_example = with_overrides_lem thresholds crossed 128000 (omega arith)

with_overrides_kept_example :
    (with_overrides thresholds no_overrides 128000).0 ≡ requested thresholds no_overrides
unfolding requested
with_overrides_kept_example =
    with_overrides_kept thresholds no_overrides 128000 (omega arith) ladder

waits_for_boundary : state.at_safe_boundary ≡ true
unfolding evaluate_with requires_safe_boundary
waits_for_boundary = evaluate_boundary thresholds state ladder l1_ordinary refl refl

evaluate-compact_example :
    (l1_ordinary ≡ l1_ordinary)
    × (state.at_safe_boundary ≡ true)
    × (64000 ≤ effective_tokens state)
    × (thresholds.recent_target_tokens ≡ thresholds.recent_target_tokens)
    × (16000 < effective_tokens state)
    × ((state.overflow_observed ≡ true) ⊎ (30000 ≤ state.since_last_compaction_ms))
unfolding evaluate_with
evaluate-compact_example =
    evaluate-compact thresholds state ladder l1_ordinary (exceeds_compact 65000 64000) 16000 refl

keeps_when_idle : (evaluate_with thresholds idle).action ≡ keep ↔ (
    (idle.overflow_observed ≡ false)
    × (effective_tokens idle < 48000)
    × (idle.recent_tokens ≤ 16000))
keeps_when_idle = evaluate-keep thresholds idle ladder

compact_settles_example : l0_payload ≡ l0_payload
unfolding evaluate_with effective_tokens
compact_settles_example =
    compact_settles thresholds state ladder (record idle { recent_tokens = 20000 }) l1_ordinary
      (exceeds_compact 65000 64000) 16000 refl refl refl (omega arith) l0_payload refl

checkpoint_pressure_waits_example :
    ((effective_tokens crowded < 70400)
      × ((evaluate_with thresholds crowded).action
          ≡ compact l1_ordinary (exceeds_compact (effective_tokens crowded) 64000) 16000))
    ⊎ ((70400 ≤ effective_tokens crowded)
        × ((evaluate_with thresholds crowded).action ≡ warn (effective_tokens crowded) 70400))
unfolding effective_tokens
checkpoint_pressure_waits_example =
    checkpoint_pressure_waits thresholds crowded ladder refl refl (omega arith) (omega arith)
      (omega arith)

abbrev evidence : ExternalContextItem
evidence = record {
  source = record { provider = 1 ∷ []; resource_id = 2 ∷ []; provenance = [] };
  citation = none;
  text = 3 ∷ [];
  inline = true;
  metadata = [];
}

rehydrated_evidence :
    rehydrate (external_ref (compact_to_reference evidence)) evidence.text ≡ evidence
rehydrated_evidence = rehydrate-compact evidence refl
