-- ===== src/Provider/Decode/Finish.antt =====
-- crates/rupi-provider/src/decode.rs: `finish`, which gives the calls of a response and says how certain
-- its end is. `serde_json::from_str` is an argument, with the object as text; so is
-- `restore_omitted_optional_arguments` by the name of the tool, where its schema is known.
pub mod Settled
use pi_rs.Prelude.{
  ℕ, ◌+◌, ◌-◌, ◌^◌, Bool, true, false, not, ◌&&◌, ◌||◌, Option, none, some, List, [], ◌∷◌, ◌++◌,
  is_empty, min, if◌then◌else◌,
}
use pi_rs.Prelude.Text.{Text, codes, text_eq, trim}
use pi_rs.Core.Completion.{
  CompletionCertainty, certain, unknown, CompletionUsage, ProviderEvent, tool_call,
  tool_call_rejected,
}
use pi_rs.Core.Failure.{ModelFailure, transport, streaming, new}
use pi_rs.Provider.Decode.{saturating_add, ToolBuilder, Decoder, decode_failure, is_some}

pub data StreamEnd : Type 0 where
  done_sentinel ended_without_sentinel complete_body : StreamEnd

-- What `from_str` makes of the arguments of a call.
pub data Parsed : Type 0 where
  object : Text → Parsed
  no_object : Parsed
  invalid : Text → Parsed

abbrev pub has_text : Text → List Text → Bool
has_text id [] = false
has_text id (x ∷ xs) = text_eq x id || has_text id xs

unfoldable pub call_id : ToolBuilder → Text
unfolding trim
call_id b = elim b.id [
  | none ↦ b.internal_id
  | some id ↦ if is_empty (trim id) then b.internal_id else id
]

unfoldable pub join_errors : Option Text → Option Text → Option Text
join_errors (some correlation) (some arguments) = some (correlation ++ codes "; " ++ arguments)
join_errors (some reason) none = some reason
join_errors none (some reason) = some reason
join_errors none none = none

unfoldable pub call_event : Text → Text → Text → Option Text → ProviderEvent
call_event id name arguments none =
    tool_call (record { id = id; name = name; arguments = arguments })
call_event id name arguments (some reason) = tool_call_rejected id name reason

module _ (from_str : Text → Parsed) (restore : Text → Text → Text) where
  unfoldable pub parsed_arguments : Text → Parsed → Text × Option Text
  parsed_arguments name (object arguments) = (restore name arguments, none)
  parsed_arguments name no_object =
      (codes "{}", some (codes "tool arguments must be a JSON object"))
  parsed_arguments name (invalid error) =
      (codes "{}", some (codes "tool arguments are not valid JSON: " ++ error))

  unfoldable pub read_arguments : ToolBuilder → Text × Option Text
  unfolding trim parsed_arguments
  read_arguments b =
      if is_empty (trim b.arguments)
      then (restore b.name (codes "{}"), none)
      else parsed_arguments b.name (from_str b.arguments)

  unfoldable pub decoded_call : ToolBuilder → ProviderEvent
  unfolding call_id read_arguments join_errors call_event
  decoded_call b =
      let (arguments, error) = read_arguments b in
      call_event (call_id b) b.name arguments (join_errors b.correlation_error error)

  -- The whole batch, unless an identifier comes twice.
  unfoldable pub decode_calls : List Text → List (ℕ × ToolBuilder) → Option (List ProviderEvent)
  unfolding call_id decoded_call
  decode_calls ids [] = some []
  decode_calls ids ((slot, b) ∷ tools) =
      let rest = decode_calls (call_id b ∷ ids) tools in
      if has_text (call_id b) ids
      then none
      else elim rest [ none ↦ none | some events ↦ some (decoded_call b ∷ events) ]

-- How the response ended.
pub data Ended : Type 0 where
  completed : CompletionCertainty → Ended
  broken : ModelFailure → Ended

unfoldable pub certainty : StreamEnd → (reported output : Bool) → Ended
unfolding decode_failure new
certainty complete_body reported output = completed certain
certainty done_sentinel reported output =
    if reported || output then completed certain else broken decode_failure
certainty ended_without_sentinel reported output =
    if reported
    then completed certain
    else if output
    then completed unknown
    else broken (new transport streaming [])

abbrev pub or_zero : Option ℕ → ℕ
or_zero none = 0
or_zero (some n) = n

unfoldable pub uncached : Option ℕ → Option ℕ → Option ℕ → Option ℕ
uncached none reads writes = none
uncached (some logical) reads writes = some (logical - or_zero reads - or_zero writes)

unfoldable pub total_tokens : Option ℕ → Option ℕ → Option ℕ → Option ℕ
total_tokens (some total) logical output = some total
total_tokens none (some logical) (some output) = some (saturating_add logical output)
total_tokens none (some logical) none = none
total_tokens none none output = none

unfoldable pub usage_of : Decoder → CompletionCertainty → CompletionUsage
unfolding uncached total_tokens
usage_of d sure = record {
  input_tokens = d.logical_prompt_tokens;
  uncached_input_tokens = uncached d.logical_prompt_tokens d.cache_read_tokens d.cache_write_tokens;
  logical_prompt_tokens = d.logical_prompt_tokens;
  cache_read_tokens = d.cache_read_tokens;
  cache_write_tokens = d.cache_write_tokens;
  output_tokens = d.output_tokens;
  provider_total_tokens =
      total_tokens d.provider_total_tokens d.logical_prompt_tokens d.output_tokens;
  finish_reason = d.finish_reason;
  certainty = sure;
}

pub data Result : Type 0 where
  ok : CompletionUsage → Result
  err : ModelFailure → Result

unfoldable pub result_of : Decoder → Ended → Result
unfolding usage_of
result_of d (completed sure) = ok (usage_of d sure)
result_of d (broken e) = err e

unfoldable pub after_calls :
    StreamEnd → Decoder → Option (List ProviderEvent) → Result × List ProviderEvent
unfolding decode_failure result_of certainty
after_calls end d none = (err decode_failure, [])
after_calls end d (some events) = (
  result_of d
      (certainty end (is_some d.finish_reason) (d.emitted_output || not (is_empty d.tools))),
  events,
)

-- `finish`: its result, and what goes to the sink.
unfoldable pub finish :
    (Text → Parsed) → (Text → Text → Text) → StreamEnd → Decoder → Result × List ProviderEvent
unfolding decode_calls after_calls
finish from_str restore end d = after_calls end d (decode_calls from_str restore [] d.tools)
