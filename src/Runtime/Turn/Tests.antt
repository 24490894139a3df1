-- ===== src/Runtime/Turn/Tests.antt =====
-- crates/rupi-runtime/src/turn.rs: two attempts at a model that does not answer, and a takeover.
use pi_rs.Prelude.{ℕ, ◌*◌, Bool, length, ◌≡◌, refl, true, false, none, some, List, [], ◌∷◌}
use pi_rs.Prelude.Text.{codes}
use pi_rs.Core.Message.{Message, Role, user, assistant}
use pi_rs.Runtime.History.{History}
use pi_rs.Core.Capability.{text_only, has_hard_gap, gaps}
use pi_rs.Core.Failure.{
  ModelFailure, timeout, pre_request, new, safe_to_retry, is_failover_candidate,
}
use pi_rs.Runtime.Failover.{default, with_backup, requiring}
use pi_rs.Core.Completion.{CompletionUsage, certain}
use pi_rs.Runtime.Turn.{
  Provider, TurnLoop, initial, written, request, finished, broke, Round, recover,
}
use pi_rs.Runtime.Turn.Attempt.{attempt, responded}
use pi_rs.Runtime.Turn.Rounds.{IsEnd}
use pi_rs.Runtime.Turn.Committed.{attempt_after_output}
use pi_rs.Runtime.Turn.Recovering.{Recovers, recover-Recovers}

-- A request takes 1,000 tokens for each message.
abbrev sizes : Bool → List Message → ℕ
sizes prompt ms = 1000 * length ms

abbrev says : Role → Message
says role = record { role = role; content = [] }

-- Three turns, of which the last has begun.
abbrev history : History
history = record {
  messages = says user ∷ says assistant ∷ says user ∷ says assistant ∷ says user ∷ [];
  message_seqs = [];
  checkpoint_floor = 0;
  turn_history_start = 4;
}

abbrev first : Provider
unfolding text_only
first = record {
  model = record { provider = codes "local"; model = codes "first" };
  capabilities = text_only 8192;
  request_size = sizes;
}

abbrev spare : Provider
unfolding text_only
spare = record {
  model = record { provider = codes "local"; model = codes "spare" };
  capabilities = text_only 4096;
  request_size = sizes;
}

abbrev turn : TurnLoop
unfolding default with_backup requiring text_only
turn = record {
  primary = first;
  backup = some spare;
  failover = requiring (with_backup default spare.model spare.capabilities) first.capabilities;
  past = [];
  epoch = record {
    index = 0;
    model = first.model;
    capabilities = first.capabilities;
    reason = initial;
  };
  history = history;
  max_requests = 10;
  requests = 0;
  envelopes = [];
}

abbrev unreached : ModelFailure
unfolding new
unreached = new timeout pre_request []

-- The same failure after as many attempts as the policy allows.
abbrev spent : ModelFailure
unfolding unreached
spent = record unreached { attempts = 2 }

abbrev usage : CompletionUsage
usage = record {
  input_tokens = none;
  uncached_input_tokens = none;
  logical_prompt_tokens = none;
  cache_read_tokens = none;
  cache_write_tokens = none;
  output_tokens = some 3;
  provider_total_tokens = none;
  finish_reason = some (codes "stop");
  certainty = certain;
}

-- The connection fails before anything is sent.
abbrev down : Round
unfolding new
down = record {
  built = request none;
  built_history = history;
  started = written;
  collected = written;
  streamed = broke unreached;
  produced = false;
  calls = 0;
  committed = false;
  surface_output_emitted = false;
  closed = written;
  is_cancelled = false;
  cancelled_at_recovery = false;
  stored = none;
  recovery_written = written;
  slept = λ ms. true;
}

abbrev up : Round
up = record down { streamed = finished usage; produced = true; committed = true }

taken_over : (attempt turn (down ∷ down ∷ up ∷ [])).0 ≡ responded usage
unfolding attempt turn safe_to_retry is_failover_candidate has_hard_gap gaps
taken_over = refl

-- The first of the older turns leaves the history for the smaller window of the backup.
three_left : length (recover turn spent down).1.history.messages ≡ 3
unfolding recover turn spent down safe_to_retry is_failover_candidate has_hard_gap gaps
three_left = refl

three_requests : (attempt turn (down ∷ down ∷ up ∷ [])).1.requests ≡ 3
unfolding attempt turn safe_to_retry is_failover_candidate has_hard_gap gaps
three_requests = refl

abbrev rounds : List Round
rounds = down ∷ down ∷ up ∷ []

-- The stream breaks after a part of the answer was shown.
abbrev half : Round
half = record down { committed = true }

attempt_after_output_example :
    (attempt turn (down ∷ half ∷ up ∷ []) ≡ attempt turn (down ∷ half ∷ []))
    × IsEnd (attempt turn (down ∷ half ∷ up ∷ [])).0
attempt_after_output_example = attempt_after_output turn (down ∷ []) half (up ∷ []) refl

recover-Recovers_example : Recovers turn spent (recover turn spent down)
recover-Recovers_example = recover-Recovers turn spent down
