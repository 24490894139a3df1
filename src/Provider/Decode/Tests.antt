-- ===== src/Provider/Decode/Tests.antt =====
-- crates/rupi-provider/src/decode.rs: two calls whose fragments arrive in turns.
use pi_rs.Prelude.{
  ℕ, ◌+◌, ◌≡◌, ◌⊎◌, refl, true, false, not, ◌||◌, none, some, [], ◌∷◌, ◌++◌, is_empty,
}
use pi_rs.Prelude.Text.{Text, codes}
use pi_rs.Core.Capability.{hidden}
use pi_rs.Core.Completion.{certain, unknown, CompletionUsage}
use pi_rs.Provider.Decode.{Decoder, empty, Fragment, is_some, decode_failure}
use pi_rs.Provider.Decode.Accumulate.{accumulated, accumulate_tool}
use pi_rs.Provider.Decode.Sound.{empty-IsSound}
use pi_rs.Provider.Decode.Limits.{LeavesSound, accumulate_tool-LeavesSound}
use pi_rs.Provider.Decode.Chunks.{Chunk, chunk_of}
use pi_rs.Provider.Decode.Chunks.Accounts.{Keeps, chunk_of-Keeps}
use pi_rs.Provider.Decode.Finish.{
  done_sentinel, ended_without_sentinel, Parsed, object, err, finish, usage_of,
}
use pi_rs.Provider.Decode.Finish.Settled.{
  Distinct, Repeated, ids_of, events_of, SaidComplete, finish-batch, finish-certainty,
}

abbrev new_id : ℕ → Text
new_id slot = codes "call-" ++ (b'0' + slot) ∷ []

abbrev from_str : Text → Parsed
from_str words = object words

abbrev restore : Text → Text → Text
restore name arguments = arguments

abbrev first_part : Fragment
first_part = record {
  index = some 0;
  raw_id = some (codes "a");
  name = some (codes "ls");
  arguments = some (codes "{");
}

abbrev second_part : Fragment
second_part = record { index = some 0; raw_id = none; name = none; arguments = some (codes "}") }

abbrev one_call : Decoder
one_call = record (empty hidden) {
  tools =
      (
        0,
        record {
          id = some (codes "a");
          internal_id = new_id 0;
          name = codes "ls";
          arguments = codes "{";
          correlation_error = none;
        },
      )
      ∷ [];
  tool_indices = (0, 0) ∷ [];
  tool_ids = (codes "a", 0) ∷ [];
  next_tool_slot = 1;
  response_events = 1;
  tool_argument_bytes = 1;
}

first_taken : accumulate_tool new_id first_part false (empty hidden) ≡ accumulated one_call
unfolding accumulate_tool
first_taken = refl

accumulate_tool-LeavesSound_example :
    LeavesSound (accumulate_tool new_id first_part false (empty hidden))
accumulate_tool-LeavesSound_example =
    accumulate_tool-LeavesSound new_id first_part false (empty hidden) (empty-IsSound hidden)

finish-batch_example :
    (Distinct (ids_of one_call.tools)
      × ((finish from_str restore done_sentinel one_call).1
          ≡ events_of from_str restore one_call.tools))
    ⊎ (Repeated (ids_of one_call.tools)
        × (finish from_str restore done_sentinel one_call ≡ (err decode_failure, [])))
finish-batch_example = finish-batch from_str restore done_sentinel one_call

abbrev cut_off : CompletionUsage
unfolding usage_of
cut_off = usage_of one_call unknown

finish-certainty_example :
    ((unknown ≡ certain) × SaidComplete ended_without_sentinel one_call)
    ⊎ ((unknown ≡ unknown)
        × (ended_without_sentinel ≡ ended_without_sentinel)
        × (is_some one_call.finish_reason ≡ false)
        × ((one_call.emitted_output || not (is_empty one_call.tools)) ≡ true))
unfolding finish
finish-certainty_example =
    finish-certainty from_str restore ended_without_sentinel one_call cut_off refl

abbrev piece : Chunk
piece = record {
  usage = none;
  choices =
      record {
        finish_reason = some (codes "stop");
        reasoning = none;
        content = some (codes "ok");
        tool_calls = first_part ∷ [];
      }
      ∷ [];
}

chunk_of-Keeps_example : Keeps (chunk_of new_id piece (empty hidden))
chunk_of-Keeps_example = chunk_of-Keeps new_id piece (empty hidden) (empty-IsSound hidden)
