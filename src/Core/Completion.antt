-- ===== src/Core/Completion.antt =====
-- crates/rupi-core/src/provider.rs: what a provider's response may hold, the events that it is decoded
-- into, and the account of a completed response.
use pi_rs.Prelude.{ℕ, ◌*◌, Bool, true, false, ◌||◌, Option, none, some}
use pi_rs.Prelude.Text.{Text, codes, text_eq}
use pi_rs.Core.Capability.{ReasoningExposure, hidden}
use pi_rs.Core.Message.{ReasoningProvenance, ToolCallBlock}
use pi_rs.Core.Capability
use pi_rs.Core.Message

abbrev pub max_response_text_bytes : ℕ
max_response_text_bytes = 16 * 1024 * 1024

abbrev pub max_response_reasoning_bytes : ℕ
max_response_reasoning_bytes = 8 * 1024 * 1024

abbrev pub max_response_events : ℕ
max_response_events = 65536

abbrev pub max_response_tool_calls : ℕ
max_response_tool_calls = 128

abbrev pub max_tool_name_bytes : ℕ
max_tool_name_bytes = 256

abbrev pub max_tool_id_bytes : ℕ
max_tool_id_bytes = 256

abbrev pub max_tool_argument_bytes_per_call : ℕ
max_tool_argument_bytes_per_call = 1024 * 1024

abbrev pub max_tool_argument_bytes_total : ℕ
max_tool_argument_bytes_total = 8 * 1024 * 1024

pub data CompletionCertainty : Type 0 where
  certain unknown : CompletionCertainty

pub record CompletionUsage : Type 0 where
  pub input_tokens : Option ℕ
  pub uncached_input_tokens : Option ℕ
  pub logical_prompt_tokens : Option ℕ
  pub cache_read_tokens : Option ℕ
  pub cache_write_tokens : Option ℕ
  pub output_tokens : Option ℕ
  pub provider_total_tokens : Option ℕ
  pub finish_reason : Option Text
  pub certainty : CompletionCertainty

unfoldable pub is_certain : CompletionCertainty → Bool
is_certain certain = true
is_certain unknown = false

unfoldable pub stopped_at_output_limit : Option Text → Bool
unfolding text_eq
stopped_at_output_limit none = false
stopped_at_output_limit (some reason) =
    text_eq reason (codes "length") || text_eq reason (codes "max_tokens")

-- `ReasoningExposure::implied_provenance`
unfoldable pub implied_provenance : ReasoningExposure → Option ReasoningProvenance
implied_provenance hidden = none
implied_provenance Capability.native = some Message.native
implied_provenance Capability.provider_summary = some Message.provider_summary
implied_provenance Capability.declared = some Message.declared

pub data ProviderEvent : Type 0 where
  reasoning_delta : Text → ReasoningProvenance → ProviderEvent
  text_delta : Text → ProviderEvent
  tool_call : ToolCallBlock → ProviderEvent
  tool_call_rejected : (id name reason : Text) → ProviderEvent
