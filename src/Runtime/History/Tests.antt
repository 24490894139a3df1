-- ===== src/Runtime/History/Tests.antt =====
-- crates/rupi-runtime/src/turn.rs: a history of two turns, the first with a call and its result.
use pi_rs.Prelude.{
  ℕ, ◌*◌, ◌≡◌, ◌⊎◌, refl, arith, Bool, true, false, none, some, List, [], ◌∷◌, length, take,
}
use pi_rs.Prelude.Text.{Text, codes}
use pi_rs.Core.Message.{
  Role, user, assistant, tool, succeeded, Message, text_block, tool_call, tool_result, tool_calls,
  tool_results,
}
use pi_rs.Runtime.History.{
  History, evict_oldest, safe_eviction_boundary, safe_completed_cycle_boundary, choose_drop, drain,
  has_id, without_id,
}
use pi_rs.Runtime.History.Boundary.{
  IsPaired, IsClosed, scan, take_results, safe_eviction_boundary-IsPaired,
}
use pi_rs.Runtime.History.Choice.{NeededDrop, FittingDrop, choose_drop-best}
use pi_rs.Runtime.History.Best.{IsLeast, IsGreatest}
use pi_rs.Runtime.History.Eviction.{Leaves, evict_oldest-Leaves}

abbrev says : Role → Text → Message
says role words = record { role = role; content = text_block words ∷ [] }

abbrev call : Message
call = record {
  role = assistant;
  content = tool_call (record { id = codes "c1"; name = codes "ls"; arguments = [] }) ∷ [];
}

abbrev answer : Message
answer = record {
  role = tool;
  content =
      tool_result (record {
        id = codes "c1";
        name = codes "ls";
        state = succeeded;
        text = [];
        is_error = false;
        reduced = false;
      })
      ∷ [];
}

abbrev messages : List Message
messages =
    says user (codes "a") ∷ call ∷ answer ∷ says assistant (codes "b") ∷ says user (codes "c") ∷ []

abbrev history : History
history = record {
  messages = messages;
  message_seqs = some 1 ∷ some 2 ∷ [];
  checkpoint_floor = 0;
  turn_history_start = 4;
}

abbrev size : Bool → List Message → ℕ
size prompt ms = 10 * length ms

-- Two messages would be enough, but the third answers a call of the second.
held : choose_drop size messages 0 4 30 false ≡ 0
unfolding choose_drop
held = refl

best : choose_drop size messages 0 4 30 true ≡ 4
unfolding choose_drop
best = refl

IsClosed-before : IsClosed (take 0 messages)
unfolding IsClosed scan
IsClosed-before = refl

accepted : IsPaired messages
unfolding IsPaired scan take_results tool_results tool_calls has_id without_id
accepted = ([], refl)

completed : safe_completed_cycle_boundary messages 0 3 ≡ true
unfolding safe_completed_cycle_boundary
completed = refl

safe_eviction_boundary-IsPaired_example : IsPaired (drain 0 4 messages)
unfolding safe_eviction_boundary
safe_eviction_boundary-IsPaired_example =
    safe_eviction_boundary-IsPaired messages 0 4 4 accepted IsClosed-before refl

evict_oldest-Leaves_example : Leaves 0 history ((evict_oldest size history 30 true none).1)
evict_oldest-Leaves_example = evict_oldest-Leaves size history 30 true none

choose_drop-best_example :
    IsGreatest (NeededDrop size messages 0 4 30 false) (choose_drop size messages 0 4 30 false)
    × (IsLeast (FittingDrop size messages 0 4 30) (choose_drop size messages 0 4 30 true)
        ⊎ (((n : ℕ) → ¬ FittingDrop size messages 0 4 30 n)
            × IsGreatest
                (NeededDrop size messages 0 4 30 true)
                (choose_drop size messages 0 4 30 true)))
choose_drop-best_example = choose_drop-best size messages 0 4 30 (omega arith) (omega arith)
