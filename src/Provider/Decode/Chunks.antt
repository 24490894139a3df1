-- ===== src/Provider/Decode/Chunks.antt =====
-- crates/rupi-provider/src/decode.rs: `chunk`, which takes one piece of a response. A chunk is what the
-- code reads of its JSON value; what goes to the sink is a list.
pub mod Accounts
use pi_rs.Prelude.{
  ℕ, suc, ◌+◌, Bool, true, false, not, ◌&&◌, Option, none, some, List, [], ◌∷◌, ◌++◌, is_empty, ltb,
  if◌then◌else◌,
}
use pi_rs.Prelude.Text.{Text}
use pi_rs.Core.Completion.{
  max_response_text_bytes, max_response_reasoning_bytes, implied_provenance, ProviderEvent,
  reasoning_delta, text_delta,
}
use pi_rs.Core.Failure.{ModelFailure}
use pi_rs.Core.Message.{ReasoningProvenance}
use pi_rs.Provider.Decode.{
  byte_len, saturating_add, Decoder, Fragment, response_limit_failure, account_response_event,
  is_some,
}
use pi_rs.Provider.Decode.Accumulate.{
  provider_tool_id, Accumulated, accumulated, limited, panicked, accumulate_tool,
}

-- A field of a JSON object: absent, or a value, which may be a number.
abbrev pub Field : Type 0
Field = Option (Option ℕ)

pub record Details : Type 0 where
  pub cached_tokens : Field
  pub cache_read_tokens : Field
  pub cache_write_tokens : Field

pub record Usage : Type 0 where
  pub prompt_tokens : Field
  pub input_tokens : Field
  pub prompt_tokens_details : Option Details
  pub input_tokens_details : Option Details
  pub prompt_cache_hit_tokens : Field
  pub cached_tokens : Field
  pub cache_read_tokens : Field
  pub cache_write_tokens : Field
  pub total_tokens : Field
  pub completion_tokens : Field
  pub output_tokens : Field

-- `reasoning` and `content` are what `reasoning_text` and `content_text` find in the delta.
pub record Choice : Type 0 where
  pub finish_reason : Option Text
  pub reasoning : Option Text
  pub content : Option Text
  pub tool_calls : List Fragment

pub record Chunk : Type 0 where
  pub usage : Option Usage
  pub choices : List Choice

abbrev pub or_else {ℓ} : {A : Type ℓ} → Option A → Option A → Option A
or_else none other = other
or_else (some x) other = some x

abbrev pub as_u64 : Field → Option ℕ
as_u64 none = none
as_u64 (some value) = value

unfoldable pub cached_in : Option Details → Option ℕ
cached_in none = none
cached_in (some details) = or_else (as_u64 details.cached_tokens) (as_u64 details.cache_read_tokens)

unfoldable pub written_in : Option Details → Field
written_in none = none
written_in (some details) = details.cache_write_tokens

unfoldable pub account_usage : Option Usage → Decoder → Decoder
unfolding cached_in written_in
account_usage none d = d
account_usage (some usage) d =
    let details = or_else usage.prompt_tokens_details usage.input_tokens_details in
    record d {
      logical_prompt_tokens =
          or_else (as_u64 (or_else usage.prompt_tokens usage.input_tokens)) d.logical_prompt_tokens;
      cache_read_tokens =
          or_else
            (or_else (cached_in details) (
              or_else (as_u64 usage.prompt_cache_hit_tokens)
                (or_else (as_u64 usage.cached_tokens) (as_u64 usage.cache_read_tokens))))
            d.cache_read_tokens;
      cache_write_tokens =
          or_else (as_u64 (or_else (written_in details) usage.cache_write_tokens))
            d.cache_write_tokens;
      provider_total_tokens = or_else (as_u64 usage.total_tokens) d.provider_total_tokens;
      output_tokens =
          or_else (as_u64 (or_else usage.completion_tokens usage.output_tokens)) d.output_tokens;
    }

-- How a step ends, with the decoder after it and what it emitted.
pub data Outcome : Type 0 where
  done : Outcome
  failed : ModelFailure → Outcome
  panic : Outcome

pub record Handled : Type 0 where
  pub outcome : Outcome
  pub decoder : Decoder
  pub emitted : List ProviderEvent

abbrev pub handled : Decoder → List ProviderEvent → Handled
handled d events = record { outcome = done; decoder = d; emitted = events }

abbrev pub refusal : ModelFailure → Decoder → Handled
refusal e d = record { outcome = failed e; decoder = d; emitted = [] }

abbrev pub after : List ProviderEvent → Handled → Handled
after events h = record h { emitted = events ++ h.emitted }

-- `?`: the next step, unless this one has failed.
unfoldable pub continue : Outcome → Decoder → List ProviderEvent → (Decoder → Handled) → Handled
continue done d events next = after events (next d)
continue (failed e) d events next = record { outcome = failed e; decoder = d; emitted = events }
continue panic d events next = record { outcome = panic; decoder = d; emitted = events }

abbrev pub then_step : Handled → (Decoder → Handled) → Handled
then_step h next = continue h.outcome h.decoder h.emitted next

abbrev pub finish_with : Option Text → Decoder → Decoder
finish_with none d = d
finish_with (some reason) d = record d { finish_reason = some reason }

unfoldable pub add_reasoning : Text → ReasoningProvenance → Decoder → Option Decoder → Handled
unfolding byte_len response_limit_failure
add_reasoning text provenance d none = refusal (response_limit_failure d) d
add_reasoning text provenance d (some counted) =
    if ltb max_response_reasoning_bytes (saturating_add counted.reasoning_bytes (byte_len text))
    then refusal (response_limit_failure counted) counted
    else handled
        (record counted {
          reasoning_bytes = counted.reasoning_bytes + byte_len text;
          emitted_output = true;
        })
        (reasoning_delta text provenance ∷ [])

unfoldable pub reasoning_of : Option Text → Option ReasoningProvenance → Decoder → Handled
unfolding add_reasoning account_response_event
reasoning_of (some text) (some provenance) d =
    if is_empty text
    then handled d []
    else add_reasoning text provenance d (account_response_event d)
reasoning_of none provenance d = handled d []
reasoning_of (some text) none d = handled d []

unfoldable pub add_text : Text → Decoder → Option Decoder → Handled
unfolding byte_len response_limit_failure
add_text text d none = refusal (response_limit_failure d) d
add_text text d (some counted) =
    if ltb max_response_text_bytes (saturating_add counted.text_bytes (byte_len text))
    then refusal (response_limit_failure counted) counted
    else handled
        (record counted { text_bytes = counted.text_bytes + byte_len text; emitted_output = true })
        (text_delta text ∷ [])

unfoldable pub text_of : Option Text → Decoder → Handled
unfolding add_text account_response_event
text_of none d = handled d []
text_of (some text) d =
    if is_empty text then handled d [] else add_text text d (account_response_event d)

-- How many fragments have neither an index nor an identifier.
unfoldable pub uncorrelated_count : List Fragment → ℕ
unfolding provider_tool_id
uncorrelated_count [] = 0
uncorrelated_count (call ∷ calls) =
    if not (is_some call.index) && not (is_some (provider_tool_id call))
    then suc (uncorrelated_count calls)
    else uncorrelated_count calls

unfoldable pub of_call : Accumulated → Decoder → Handled
of_call (accumulated d) before = handled d []
of_call (limited e d) before = refusal e d
of_call panicked before = record { outcome = panic; decoder = before; emitted = [] }

module _ (new_id : ℕ → Text) where
  unfoldable pub calls_of : List Fragment → Bool → Decoder → Handled
  unfolding of_call accumulate_tool continue
  calls_of [] batch d = handled d []
  calls_of (call ∷ calls) batch d =
      then_step (of_call (accumulate_tool new_id call batch d) d) (λ e. calls_of calls batch e)

  unfoldable pub choice_of : Choice → Decoder → Handled
  unfolding continue reasoning_of implied_provenance text_of calls_of uncorrelated_count
  choice_of choice d =
      then_step
        (reasoning_of choice.reasoning (implied_provenance d.exposure)
          (finish_with choice.finish_reason d))
        (λ e.
          then_step (text_of choice.content e)
            (λ f. calls_of choice.tool_calls (ltb 1 (uncorrelated_count choice.tool_calls)) f))

  unfoldable pub choices_of : List Choice → Decoder → Handled
  unfolding continue choice_of
  choices_of [] d = handled d []
  choices_of (choice ∷ choices) d = then_step (choice_of choice d) (λ e. choices_of choices e)

  -- `chunk`
  unfoldable pub chunk_of : Chunk → Decoder → Handled
  unfolding account_usage choices_of
  chunk_of chunk d = choices_of chunk.choices (account_usage chunk.usage d)
