-- ===== src/Runtime/Turn.antt =====
-- crates/rupi-runtime/src/turn.rs: model requests. `attempt`, in the child of that name, asks until an
-- answer is complete or the turn has to stop; `recover` acts on the failover policy. What the world
-- answers in one round, the provider, the trace and the user's cancellation, is the record `Round`, and
-- so is the history that `build_request` leaves, which may reduce it by means that are not modelled.
pub mod Attempt
pub mod Rebudget
pub mod Recovering
pub mod Rounds
pub mod Counts
pub mod Committed
pub mod Attempts
mod Tests
use pi_rs.Prelude.{
  ℕ, suc, ◌+◌, ◌-◌, ◌*◌, ◌/◌, ◌^◌, Bool, true, false, not, ◌&&◌, ◌||◌, Option, none, some, List, [],
  ◌∷◌, ◌++◌, ltb, leb, ◌==◌, min, max, if◌then◌else◌,
}
use pi_rs.Prelude.Text.{Text, codes, text_eq}
use pi_rs.Core.Capability.{
  ModelRef, ModelCapabilities, CapabilityGap, text_gap, images_gap, tools_gap, window_gap, gaps,
  has_hard_gap,
}
use pi_rs.Core.Failure.{
  ModelFailureKind, semantic, protocol, context_overflow, streaming, normalizing, ModelFailure, new,
  build, with_partial_output,
}
use pi_rs.Core.Completion.{CompletionUsage, is_certain, stopped_at_output_limit}
use pi_rs.Core.Message.{Message}
use pi_rs.Runtime.History.{History, Evicted, kept, reduced, evict_oldest}
use pi_rs.Runtime.Failover.{
  Recovery, failover, refused, abort, FailoverPolicy, decide, is_cancelled,
}

-- The messages of the failures are for a person, and are left out.
unfoldable pub completion_failure : CompletionUsage → Bool → Bool → Option ModelFailure
unfolding stopped_at_output_limit is_certain new build
completion_failure usage produced committed =
    if stopped_at_output_limit usage.finish_reason
    then some (record (build (new semantic normalizing []) (with_partial_output committed)) {
      detail = usage.finish_reason;
    })
    else if is_certain usage.certainty
    then none
    else some (
        build (new (if produced then semantic else protocol) streaming [])
          (with_partial_output committed))

pub data EpochReason : Type 0 where
  initial manual_switch automatic_failover manual_switch_back : EpochReason

pub record Epoch : Type 0 where
  pub index : ℕ
  pub model : ModelRef
  pub capabilities : ModelCapabilities
  pub reason : EpochReason

-- `request_size` is the estimate of a request to the provider that carries the messages, of its prompt
-- alone or with the room for its answer.
pub record Provider : Type 0 where
  pub model : ModelRef
  pub capabilities : ModelCapabilities
  pub request_size : Bool → List Message → ℕ

pub record ModelRequestStarted : Type 0 where
  pub epoch : ℕ
  pub model : ModelRef

-- The list of epochs is never empty: `epoch` is its last, and `past` the ones before. The messages
-- with their numbers are the `history`. Of the envelopes only the starts of requests are kept.
pub record TurnLoop : Type 0 where
  pub primary : Provider
  pub backup : Option Provider
  pub failover : FailoverPolicy
  pub past : List Epoch
  pub epoch : Epoch
  pub history : History
  pub max_requests : ℕ
  pub requests : ℕ
  pub envelopes : List ModelRequestStarted

-- An error of the trace is a code.
pub data TurnFailure : Type 0 where
  cancelled : TurnFailure
  provider_overflow : ModelFailure → TurnFailure
  output_truncated : ModelFailure → ℕ → ℕ → Bool → TurnFailure
  fatal : ModelFailure → TurnFailure
  sink : ℕ → TurnFailure

pub data Written : Type 0 where
  written : Written
  lost : TurnFailure → Written

-- `build_request`: the output ceiling of the request, or why there is none.
pub data Built : Type 0 where
  request : Option ℕ → Built
  not_built : TurnFailure → Built

pub data Streamed : Type 0 where
  finished : CompletionUsage → Streamed
  broke : ModelFailure → Streamed

pub record Round : Type 0 where
  pub built : Built
  pub built_history : History
  pub started : Written
  pub collected : Written
  pub streamed : Streamed
  pub produced : Bool
  pub calls : ℕ
  pub committed : Bool
  pub surface_output_emitted : Bool
  pub closed : Written
  pub is_cancelled : Bool
  pub cancelled_at_recovery : Bool
  pub stored : Option ℕ
  pub recovery_written : Written
  pub slept : ℕ → Bool

pub data Action : Type 0 where
  retry takeover stop : Action
  failed : TurnFailure → Action

abbrev pub model_eq : ModelRef → ModelRef → Bool
model_eq a b = text_eq a.provider b.provider && text_eq a.model b.model

abbrev pub is_window_gap : CapabilityGap → Bool
is_window_gap (window_gap required have) = true
is_window_gap _ = false

unfoldable pub any_window_gap : List CapabilityGap → Bool
any_window_gap [] = false
any_window_gap (gap ∷ gaps) = is_window_gap gap || any_window_gap gaps

-- `self.epochs.push`, behind the `checked_add` of the index, a `u32`.
abbrev pub u32_max : ℕ
u32_max = 2 ^ 32 - 1

abbrev pub next_epoch : TurnLoop → Provider → EpochReason → TurnLoop
next_epoch t p reason = record t {
  past = t.past ++ t.epoch ∷ [];
  epoch = record {
    index = t.epoch.index + 1;
    model = p.model;
    capabilities = p.capabilities;
    reason = reason;
  };
}

unfoldable pub on_written : Written → Action → TurnLoop → TurnLoop → Action × TurnLoop
on_written written action t t' = (action, t')
on_written (lost e) action t t' = (failed e, t)

-- The takeover itself; `p` is the backup, under the name that the policy has for it.
unfoldable pub push_epoch : TurnLoop → Round → Provider → Action × TurnLoop
unfolding on_written
push_epoch t w p =
    if t.epoch.index == u32_max
    then (failed (sink 0), t)
    else on_written w.recovery_written takeover t (next_epoch t p automatic_failover)

abbrev pub with_history : TurnLoop → History → TurnLoop
with_history t h = record t { history = h }

abbrev pub overflow_recovery_target : ℕ → ℕ
overflow_recovery_target window = window - window / 10

-- `rebudget` behind its eviction: the request to the backup must fit, whatever was dropped.
unfoldable pub check_backup : Provider → Evicted × History → Written × History
check_backup b (Evicted.failed e, h) = (lost (sink e), h)
check_backup b (kept, h) =
    if ltb (overflow_recovery_target b.capabilities.context_window)
      (b.request_size false h.messages)
    then (lost (sink 3), h)
    else (written, h)
check_backup b (reduced event, h) =
    if ltb (overflow_recovery_target b.capabilities.context_window)
      (b.request_size false h.messages)
    then (lost (sink 3), h)
    else (written, h)

unfoldable pub rebudget : Provider → History → Option ℕ → Written × History
unfolding check_backup evict_oldest
rebudget b h stored = check_backup b (
    evict_oldest b.request_size h (overflow_recovery_target b.capabilities.context_window) false
      stored)

unfoldable pub after_rebudget : TurnLoop → Round → Provider → Written × History → Action × TurnLoop
unfolding push_epoch
after_rebudget t w p (written, h) = push_epoch (with_history t h) w p
after_rebudget t w p (lost e, h) = (failed e, with_history t h)

unfoldable pub to_backup :
    TurnLoop → Round → ModelRef → List CapabilityGap → Option Provider → Action × TurnLoop
unfolding after_rebudget rebudget any_window_gap text_eq
to_backup t w to gaps none = (stop, t)
to_backup t w to gaps (some b) =
    if not (model_eq b.model to)
    then on_written w.recovery_written stop t t
    else if model_eq t.epoch.model to
    then on_written w.recovery_written stop t t
    else after_rebudget t w (record b { model = to })
        (if any_window_gap gaps then rebudget b t.history w.stored else (written, t.history))

unfoldable pub follow : TurnLoop → Round → Recovery → Action × TurnLoop
unfolding to_backup on_written
follow t w (Recovery.retry attempt limit) = on_written w.recovery_written Action.retry t t
follow t w (failover to gaps) = to_backup t w to gaps t.backup
follow t w (refused to gaps) = on_written w.recovery_written stop t t
follow t w abort = (stop, t)

unfoldable pub recover : TurnLoop → ModelFailure → Round → Action × TurnLoop
unfolding follow is_cancelled decide
recover t f w =
    if w.cancelled_at_recovery || is_cancelled f.kind
    then (stop, t)
    else follow t w (decide t.failover f)
