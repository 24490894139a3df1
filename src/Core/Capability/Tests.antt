-- ===== src/Core/Capability/Tests.antt =====
-- Capabilities and references at concrete values.
use pi_rs.Prelude.{◌≡◌, ◌≤◌, ◌<◌, ◌↔◌, refl, true, false, none, some, [], ◌∷◌, arith}
use pi_rs.Prelude.Text.{codes, trim, split_once}
use pi_rs.Core.Capability.{
  ModelRef, ModelCapabilities, native, text_only, parse, as_key, gaps, has_hard_gap, window_gap,
}
use pi_rs.Core.Capability.Gaps.{Serves, has_hard_gap_iff, gaps-nil_iff, soft_gaps}
use pi_rs.Core.Capability.Reference.{IsNormal, parse-as_key}

abbrev full : ModelCapabilities
full = record {
  text = true;
  images = true;
  tools = true;
  exposed_reasoning = native;
  context_window = 128000;
  max_output_tokens = none;
}

abbrev small : ModelCapabilities
small = record full { context_window = 8000 }

-- A model whose own name holds a slash.
abbrev nested : ModelRef
nested = record { provider = codes "local"; model = codes "org/qwen" }

nested-IsNormal : IsNormal nested
unfolding trim
nested-IsNormal = record {
  provider_slash = omega arith;
  provider_trim = refl;
  provider_ne = λ e. cc;
  model_trim = refl;
  model_ne = λ e. cc;
}

parse_blank : parse (codes " /m") ≡ none
unfolding parse trim split_once
parse_blank = refl

hard_gap_between :
    (has_hard_gap (gaps (text_only 8000) full) ≡ false) ↔ Serves (text_only 8000) full
hard_gap_between = has_hard_gap_iff (text_only 8000) full

gaps_between :
    (gaps small full ≡ []) ↔ (Serves small full × (full.context_window ≤ small.context_window))
gaps_between = gaps-nil_iff small full

window_only : (gaps small full ≡ window_gap 128000 8000 ∷ []) × (8000 < 128000)
unfolding gaps has_hard_gap
window_only = soft_gaps small full refl (λ e. cc)

parse-as_key_example : parse (as_key nested) ≡ some nested
parse-as_key_example = parse-as_key nested nested-IsNormal
