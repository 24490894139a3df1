-- ===== src/Provider/Decode/Accumulate.antt =====
-- crates/rupi-provider/src/decode.rs: `accumulate_tool`.
use pi_rs.Prelude.{
  ℕ, ◌+◌, ◌-◌, ◌^◌, Bool, true, false, not, ◌&&◌, ◌||◌, Option, none, some, List, [], ◌∷◌, ◌++◌,
  length, is_empty, ltb, leb, ◌==◌, if◌then◌else◌,
}
use pi_rs.Prelude.Text.{Text, text_eq, trim}
use pi_rs.Core.Completion.{
  max_response_tool_calls, max_tool_name_bytes, max_tool_id_bytes, max_tool_argument_bytes_per_call,
  max_tool_argument_bytes_total,
}
use pi_rs.Core.Failure.{ModelFailure}
use pi_rs.Provider.Decode.{
  byte_len, saturating_add, ToolBuilder, Decoder, Fragment, Reason, two_fragments, many_indexes,
  late_key, not_correlated, no_keys, long_id, many_ids, no_key, long_name, long_arguments,
  many_arguments, reason_text, decode_failure, response_limit_failure, account_response_event,
  is_some, find_slot, find_id, find_tool, insert_tool, update_tool, has_other_index,
  mark_correlation_error, mark_all, uncorrelated_slots, open_keyed_tool_slots,
  unique_keyed_open_slot,
}

pub data Slotted : Type 0 where
  slotted : ℕ → Decoder → Slotted
  refused : ModelFailure → Slotted

abbrev pub OnSlot : Type 0
OnSlot = ℕ → Decoder → Slotted

unfoldable pub then_slot : Slotted → OnSlot → Slotted
then_slot (slotted slot d) f = f slot d
then_slot (refused e) f = refused e

-- `provider_tool_id`, and the part of it that is short enough.
unfoldable pub provider_tool_id : Fragment → Option Text
unfolding trim
provider_tool_id call = elim call.raw_id [
  | none ↦ none
  | some id ↦ if is_empty (trim id) then none else some id
]

unfoldable pub short_id : Option Text → Option Text
unfolding byte_len
short_id none = none
short_id (some id) = if leb (byte_len id) max_tool_id_bytes then some id else none

abbrev pub provider_id : Fragment → Option Text
provider_id call = short_id (provider_tool_id call)

unfoldable pub oversized_id : Fragment → Bool
unfolding byte_len provider_tool_id
oversized_id call = elim (provider_tool_id call) [
  | none ↦ false
  | some id ↦ ltb max_tool_id_bytes (byte_len id)
]

unfoldable pub index_slot : Decoder → Option ℕ → Option ℕ
unfolding find_slot
index_slot d none = none
index_slot d (some index) = find_slot d.tool_indices index

unfoldable pub id_slot : Decoder → Option Text → Option ℕ
unfolding find_id
id_slot d none = none
id_slot d (some id) = find_id d.tool_ids id

unfoldable pub index_or_insert : Option ℕ → ℕ → Decoder → Decoder
unfolding find_slot
index_or_insert none slot d = d
index_or_insert (some index) slot d =
    if is_some (find_slot d.tool_indices index)
    then d
    else record d { tool_indices = d.tool_indices ++ (index, slot) ∷ [] }

unfoldable pub id_or_insert : Text → ℕ → Decoder → Decoder
unfolding find_id
id_or_insert id slot d =
    if is_some (find_id d.tool_ids id)
    then d
    else record d { tool_ids = d.tool_ids ++ (id, slot) ∷ [] }

unfoldable pub change : ℕ → (ToolBuilder → ToolBuilder) → Decoder → Decoder
unfolding update_tool
change slot f d = record d { tools = update_tool slot f d.tools }

-- Whether the builder has an identifier, and another one.
unfoldable pub has_other_id : Option Text → Text → Bool
unfolding text_eq
has_other_id none id = false
has_other_id (some existing) id = not (text_eq existing id)

-- `get(&slot).expect("allocated tool slot")`: `none` is a panic.
unfoldable pub at_slot : Option ToolBuilder → (ToolBuilder → Decoder) → Option Decoder
at_slot none f = none
at_slot (some b) f = some (f b)

unfoldable pub set_id : Option Text → ℕ → Decoder → Option Decoder
unfolding at_slot find_tool has_other_id mark_correlation_error reason_text id_or_insert change
set_id none slot d = some d
set_id (some id) slot d = at_slot (find_tool d.tools slot) (λ b.
    let marked =
      if has_other_id b.id id then mark_correlation_error slot (reason_text many_ids) d else d in
    change slot (λ (c : ToolBuilder). record c { id = some id }) (id_or_insert id slot marked))

unfoldable pub push_name : Option Text → ℕ → Decoder → Option Decoder
unfolding at_slot find_tool byte_len mark_correlation_error reason_text change
push_name none slot d = some d
push_name (some name) slot d = at_slot (find_tool d.tools slot) (λ b.
    if ltb max_tool_name_bytes (saturating_add (byte_len b.name) (byte_len name))
    then mark_correlation_error slot (reason_text long_name) d
    else change slot (λ (c : ToolBuilder). record c { name = c.name ++ name }) d)

unfoldable pub push_arguments : Option Text → ℕ → Decoder → Option Decoder
unfolding at_slot find_tool byte_len mark_correlation_error reason_text change
push_arguments none slot d = some d
push_arguments (some arguments) slot d = at_slot (find_tool d.tools slot) (λ b.
    let total = saturating_add d.tool_argument_bytes (byte_len arguments) in
    if ltb max_tool_argument_bytes_per_call
      (saturating_add (byte_len b.arguments) (byte_len arguments))
    then mark_correlation_error slot (reason_text long_arguments) d
    else if ltb max_tool_argument_bytes_total total
    then mark_correlation_error slot (reason_text many_arguments) d
    else record (change slot
        (λ (c : ToolBuilder). record c { arguments = c.arguments ++ arguments }) d) {
          tool_argument_bytes = total;
        })

abbrev pub mark_if : Bool → Reason → ℕ → Decoder → Decoder
mark_if b reason slot d = if b then mark_correlation_error slot (reason_text reason) d else d

abbrev pub and_then : Option Decoder → (Decoder → Option Decoder) → Option Decoder
and_then none f = none
and_then (some d) f = f d

-- What is done once the slot is known.
unfoldable pub fill_slot : Fragment → Bool → ℕ → Decoder → Option Decoder
unfolding oversized_id short_id provider_tool_id index_or_insert set_id push_name push_arguments
    mark_correlation_error
fill_slot call fallback slot d =
    let keyed = index_or_insert call.index slot (mark_if (oversized_id call) long_id slot d) in
    and_then (set_id (provider_id call) slot keyed) (λ named.
      let without_key =
        not (is_some call.index)
        && (not (is_some (provider_id call)) && (not fallback && not (oversized_id call))) in
      and_then (push_name call.name slot (mark_if without_key no_key slot named))
        (λ e. push_arguments call.arguments slot e))

pub data Accumulated : Type 0 where
  accumulated : Decoder → Accumulated
  limited : ModelFailure → Decoder → Accumulated
  panicked : Accumulated

unfoldable pub filled : Option Decoder → Accumulated
filled none = panicked
filled (some d) = accumulated d

unfoldable pub singleton_fallback : Fragment → Bool → Decoder → Option ℕ
unfolding short_id provider_tool_id
singleton_fallback call batch d =
    if not (is_some call.index) && (not (is_some (provider_id call)) && not batch)
    then unique_keyed_open_slot d
    else none

-- The failure of a step leaves the decoder with the event counted.
unfoldable pub fill_selected : Fragment → Bool → Decoder → Slotted → Accumulated
unfolding filled fill_slot
fill_selected call fallback d (refused e) = limited e d
fill_selected call fallback d (slotted slot e) = filled (fill_slot call fallback slot e)

module _ (new_id : ℕ → Text) where
  unfoldable pub new_builder : ℕ → ToolBuilder
  new_builder slot = record {
    id = none;
    internal_id = new_id slot;
    name = [];
    arguments = [];
    correlation_error = none;
  }

  unfoldable pub new_tool_slot : Decoder → Slotted
  unfolding new_builder insert_tool response_limit_failure decode_failure
  new_tool_slot d =
      if leb max_response_tool_calls (length d.tools)
      then refused (response_limit_failure d)
      else if leb (2 ^ 64 - 1) d.next_tool_slot
      then refused decode_failure
      else slotted d.next_tool_slot (record d {
        tools = insert_tool d.next_tool_slot (new_builder d.next_tool_slot) d.tools;
        next_tool_slot = d.next_tool_slot + 1;
      })

  -- A new slot for a fragment that may belong to one of `existing`.
  unfoldable pub ambiguous_slot : List ℕ → Decoder → Slotted
  unfolding new_tool_slot then_slot mark_all mark_correlation_error reason_text
  ambiguous_slot existing d = then_slot (new_tool_slot d) (λ slot e. slotted slot (
      if is_empty existing
      then e
      else mark_correlation_error slot (reason_text not_correlated)
          (mark_all existing (reason_text not_correlated) e)))

  -- A key that no slot has yet.
  unfoldable pub first_key : List ℕ → Decoder → Slotted
  unfolding ambiguous_slot mark_correlation_error reason_text
  first_key (slot ∷ []) d =
      if length d.tools == 1
      then slotted slot (mark_correlation_error slot (reason_text late_key) d)
      else ambiguous_slot (slot ∷ []) d
  first_key slots d = ambiguous_slot slots d

  -- No key at all: `fallback` is the only open call, if there is one.
  unfoldable pub keyless_slot : Bool → Option ℕ → Decoder → Slotted
  unfolding new_tool_slot then_slot ambiguous_slot mark_all mark_correlation_error reason_text
  keyless_slot true fallback d = then_slot (new_tool_slot d) (λ slot e. slotted slot (
      mark_correlation_error slot (reason_text no_keys)
        (mark_all (open_keyed_tool_slots e) (reason_text no_keys) e)))
  keyless_slot false (some slot) d = slotted slot d
  keyless_slot false none d = ambiguous_slot (open_keyed_tool_slots d) d

  unfoldable pub id_only : Option ℕ → ℕ → Decoder → Slotted
  unfolding has_other_index new_tool_slot then_slot mark_correlation_error reason_text
  id_only none slot d = slotted slot d
  id_only (some index) slot d =
      if has_other_index d.tool_indices slot index
      then then_slot (new_tool_slot d) (λ other e. slotted other (
          mark_correlation_error other (reason_text many_indexes)
            (mark_correlation_error slot (reason_text many_indexes) e)))
      else slotted slot d

  -- `match (index_slot, id_slot)`
  unfoldable pub select_slot :
      Option ℕ → Option ℕ → Option ℕ → Bool → Bool → Option ℕ → Decoder → Slotted
  unfolding mark_correlation_error reason_text id_only first_key uncorrelated_slots keyless_slot
  select_slot (some slot) (some other) index has_id batch fallback d = slotted slot (
      if slot == other
      then d
      else mark_correlation_error other (reason_text two_fragments)
          (mark_correlation_error slot (reason_text two_fragments) d))
  select_slot (some slot) none index has_id batch fallback d = slotted slot d
  select_slot none (some slot) index has_id batch fallback d = id_only index slot d
  select_slot none none index has_id batch fallback d =
      if is_some index || has_id
      then first_key (uncorrelated_slots d.tool_indices d.tools) d
      else keyless_slot batch fallback d

  unfoldable pub accumulate_counted : Fragment → Bool → Decoder → Accumulated
  unfolding fill_selected select_slot index_slot id_slot singleton_fallback short_id
      provider_tool_id
  accumulate_counted call batch d =
      let fallback = singleton_fallback call batch d in
      fill_selected call (is_some fallback) d (
        select_slot (index_slot d call.index) (id_slot d (provider_id call)) call.index
          (is_some (provider_id call)) batch fallback d)

  -- `accumulate_tool`; the event is counted first, or refused.
  unfoldable pub accumulate_if_counted : Fragment → Bool → Decoder → Option Decoder → Accumulated
  unfolding accumulate_counted response_limit_failure
  accumulate_if_counted call batch d none = limited (response_limit_failure d) d
  accumulate_if_counted call batch d (some counted) = accumulate_counted call batch counted

  unfoldable pub accumulate_tool : Fragment → Bool → Decoder → Accumulated
  unfolding account_response_event accumulate_if_counted
  accumulate_tool call batch d = accumulate_if_counted call batch d (account_response_event d)
