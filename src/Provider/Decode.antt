-- ===== src/Provider/Decode.antt =====
-- crates/rupi-provider/src/decode.rs: `Decoder`, and `accumulate_tool`, which finds the call that a
-- fragment belongs to. A fragment is what the code reads of its JSON value. `ToolCallId::new` is an
-- argument: the identifier that it gives for the builder of a slot.
pub mod Accumulate
pub mod Slots
pub mod Keys
pub mod Sound
pub mod Selection
pub mod Filling
pub mod Pushing
pub mod Limits
pub mod Chunks
pub mod Finish
mod Tests
use pi_rs.Prelude.{
  ℕ, zero, suc, ◌+◌, ◌-◌, ◌^◌, Bool, true, false, not, ◌&&◌, ◌||◌, Option, none, some, List, [],
  ◌∷◌, ◌++◌, length, is_empty, min, ltb, leb, ◌==◌, if◌then◌else◌,
}
use pi_rs.Prelude.Text.{Text, codes, text_eq, contains, trim}
use pi_rs.Core.Capability.{ReasoningExposure}
use pi_rs.Core.Completion.{
  max_response_events, max_response_tool_calls, max_tool_name_bytes, max_tool_id_bytes,
  max_tool_argument_bytes_per_call, max_tool_argument_bytes_total,
}
use pi_rs.Core.Failure.{ModelFailure, protocol, normalizing, new, build, with_partial_output}

-- `str::len`: bytes of UTF-8.
unfoldable pub char_len : ℕ → ℕ
char_len c = if ltb c 0x80 then 1 else if ltb c 0x800 then 2 else if ltb c 0x10000 then 3 else 4

unfoldable pub byte_len : Text → ℕ
unfolding char_len
byte_len [] = 0
byte_len (c ∷ s) = char_len c + byte_len s

-- `saturating_add` of `usize` and `u64`.
abbrev pub saturating_add : ℕ → ℕ → ℕ
saturating_add a b = min (a + b) (2 ^ 64 - 1)

pub record ToolBuilder : Type 0 where
  pub id : Option Text
  pub internal_id : Text
  pub name : Text
  pub arguments : Text
  pub correlation_error : Option Text

-- The maps are lists of their entries, `tools` in the order of its keys.
pub record Decoder : Type 0 where
  pub exposure : ReasoningExposure
  pub tools : List (ℕ × ToolBuilder)
  pub tool_indices : List (ℕ × ℕ)
  pub tool_ids : List (Text × ℕ)
  pub next_tool_slot : ℕ
  pub finish_reason : Option Text
  pub logical_prompt_tokens : Option ℕ
  pub cache_read_tokens : Option ℕ
  pub cache_write_tokens : Option ℕ
  pub provider_total_tokens : Option ℕ
  pub output_tokens : Option ℕ
  pub emitted_output : Bool
  pub response_events : ℕ
  pub text_bytes : ℕ
  pub reasoning_bytes : ℕ
  pub tool_argument_bytes : ℕ

abbrev pub empty : ReasoningExposure → Decoder
empty exposure = record {
  exposure = exposure;
  tools = [];
  tool_indices = [];
  tool_ids = [];
  next_tool_slot = 0;
  finish_reason = none;
  logical_prompt_tokens = none;
  cache_read_tokens = none;
  cache_write_tokens = none;
  provider_total_tokens = none;
  output_tokens = none;
  emitted_output = false;
  response_events = 0;
  text_bytes = 0;
  reasoning_bytes = 0;
  tool_argument_bytes = 0;
}

-- `get("index")` as a number, `get("id")` as a string, and the strings of `get("function")`.
pub record Fragment : Type 0 where
  pub index : Option ℕ
  pub raw_id : Option Text
  pub name : Option Text
  pub arguments : Option Text

-- The reasons that a correlation error can have.
pub data Reason : Type 0 where
  two_fragments many_indexes late_key not_correlated no_keys long_id many_ids no_key long_name
        long_arguments many_arguments :
      Reason

unfoldable pub reason_text : Reason → Text
reason_text two_fragments = codes "tool-call index and id point to different fragments"
reason_text many_indexes = codes "one provider tool-call id was associated with multiple indexes"
reason_text late_key = codes "provider index or id arrived after uncorrelated fragments"
reason_text not_correlated =
    codes "tool-call fragments could not be safely correlated by index or id"
reason_text no_keys = codes "multiple tool fragments in one chunk had neither an index nor an id"
reason_text long_id = codes "provider tool-call id exceeded the response limit"
reason_text many_ids = codes "one provider index carried multiple tool-call ids"
reason_text no_key = codes "tool-call fragment had neither a provider index nor a provider id"
reason_text long_name = codes "tool name exceeded the response limit"
reason_text long_arguments = codes "tool arguments exceeded the per-call byte limit"
reason_text many_arguments = codes "tool arguments exceeded the aggregate byte limit"

-- The messages of the failures are for a person, and are left out.
unfoldable pub decode_failure : ModelFailure
unfolding new
decode_failure = new protocol normalizing []

unfoldable pub response_limit_failure : Decoder → ModelFailure
unfolding decode_failure build
response_limit_failure d = build decode_failure (with_partial_output d.emitted_output)

unfoldable pub account_response_event : Decoder → Option Decoder
account_response_event d =
    if leb max_response_events d.response_events
    then none
    else some (record d { response_events = d.response_events + 1 })

abbrev pub is_some {ℓ} : {A : Type ℓ} → Option A → Bool
is_some none = false
is_some (some x) = true

unfoldable pub find_slot : List (ℕ × ℕ) → ℕ → Option ℕ
find_slot [] index = none
find_slot ((i, slot) ∷ rest) index = if i == index then some slot else find_slot rest index

unfoldable pub find_id : List (Text × ℕ) → Text → Option ℕ
unfolding text_eq
find_id [] id = none
find_id ((t, slot) ∷ rest) id = if text_eq t id then some slot else find_id rest id

unfoldable pub find_tool : List (ℕ × ToolBuilder) → ℕ → Option ToolBuilder
find_tool [] slot = none
find_tool ((k, b) ∷ rest) slot = if k == slot then some b else find_tool rest slot

-- `BTreeMap::insert`
unfoldable pub insert_tool : ℕ → ToolBuilder → List (ℕ × ToolBuilder) → List (ℕ × ToolBuilder)
insert_tool slot b [] = (slot, b) ∷ []
insert_tool slot b ((k, c) ∷ rest) =
    if ltb slot k
    then (slot, b) ∷ (k, c) ∷ rest
    else if k == slot
    then (slot, b) ∷ rest
    else (k, c) ∷ insert_tool slot b rest

-- A change through `get_mut`.
unfoldable pub update_tool :
    ℕ → (ToolBuilder → ToolBuilder) → List (ℕ × ToolBuilder) → List (ℕ × ToolBuilder)
update_tool slot f [] = []
update_tool slot f ((k, b) ∷ rest) =
    if k == slot then (k, f b) ∷ rest else (k, b) ∷ update_tool slot f rest

-- `values().any(|slot| …)` of the indices.
unfoldable pub is_indexed : List (ℕ × ℕ) → ℕ → Bool
is_indexed [] slot = false
is_indexed ((i, s) ∷ rest) slot = s == slot || is_indexed rest slot

unfoldable pub has_other_index : List (ℕ × ℕ) → ℕ → ℕ → Bool
has_other_index [] slot index = false
has_other_index ((i, s) ∷ rest) slot index =
    (s == slot && not (i == index)) || has_other_index rest slot index

unfoldable pub join_reason : Option Text → Text → Text
unfolding contains
join_reason none reason = reason
join_reason (some existing) reason =
    if contains existing reason then existing else existing ++ codes "; " ++ reason

abbrev pub mark : Text → ToolBuilder → ToolBuilder
mark reason b = record b { correlation_error = some (join_reason b.correlation_error reason) }

unfoldable pub mark_correlation_error : ℕ → Text → Decoder → Decoder
unfolding update_tool join_reason
mark_correlation_error slot reason d = record d { tools = update_tool slot (mark reason) d.tools }

unfoldable pub mark_all : List ℕ → Text → Decoder → Decoder
unfolding mark_correlation_error
mark_all [] reason d = d
mark_all (slot ∷ slots) reason d = mark_all slots reason (mark_correlation_error slot reason d)

unfoldable pub uncorrelated_slots : List (ℕ × ℕ) → List (ℕ × ToolBuilder) → List ℕ
unfolding is_indexed
uncorrelated_slots indices [] = []
uncorrelated_slots indices ((k, b) ∷ rest) =
    if not (is_some b.id) && not (is_indexed indices k)
    then k ∷ uncorrelated_slots indices rest
    else uncorrelated_slots indices rest

unfoldable pub open_keyed_slots : List (ℕ × ℕ) → List (ℕ × ToolBuilder) → List ℕ
unfolding is_indexed
open_keyed_slots indices [] = []
open_keyed_slots indices ((k, b) ∷ rest) =
    if (is_some b.id || is_indexed indices k) && not (is_some b.correlation_error)
    then k ∷ open_keyed_slots indices rest
    else open_keyed_slots indices rest

abbrev pub open_keyed_tool_slots : Decoder → List ℕ
open_keyed_tool_slots d = open_keyed_slots d.tool_indices d.tools

abbrev pub only : List ℕ → Option ℕ
only (slot ∷ []) = some slot
only _ = none

abbrev pub unique_keyed_open_slot : Decoder → Option ℕ
unique_keyed_open_slot d = only (open_keyed_tool_slots d)
