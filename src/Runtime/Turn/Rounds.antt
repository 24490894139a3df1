-- ===== src/Runtime/Turn/Rounds.antt =====
-- crates/rupi-runtime/src/turn.rs: how one round of the loop of `attempt` goes on.
use pi_rs.Prelude.{
  ℕ, ◌+◌, ◌<◌, ◌≡◌, inl, inr, refl, Bool, true, false, ◌||◌, Option, none, some, ltb, leb, ◌==◌,
  leb→lt, Bool-cases, if◌then◌else◌,
}
use pi_rs.Core.Failure.{ModelFailure, build, with_partial_output}
use pi_rs.Core.Completion.{CompletionUsage}
use pi_rs.Runtime.Turn.{
  Provider, TurnLoop, TurnFailure, Written, written, lost, request, not_built, Built, Streamed,
  finished, broke, Round, Action, takeover, stop, failed, next_epoch, automatic_failover, recover,
  completion_failure, u32_max, with_history,
}
use pi_rs.Runtime.History.{History}
use pi_rs.Runtime.Turn.Attempt.{
  Next, End, ended, waiting, act, truncation, after_truncation, is_overflow, after_close,
  complete_or_fail, settle, after_collect, after_start, with_request, round, on_model, usize_max,
  start_recorded, retry_delay_ms,
}
use pi_rs.Runtime.Turn.Recovering.{
  Recovers, under, stays, retries, switches, gives_up, recover-Recovers, at_backup,
}

abbrev pub IsEnd : End → Type 0
IsEnd waiting = ⊥
IsEnd _ = Unit

-- What one round does with the turn `t`, whose request is counted and its start recorded. Recovery may
-- reduce the history.
pub data Settles (t : TurnLoop) (attempts : ℕ) (next : Next) (r : End × TurnLoop) : Type 0 where
  ends : (e : End) (h : History) → IsEnd e → r ≡ (e, with_history t h) → Settles t attempts next r
  again :
      attempts < t.failover.max_attempts
      → t.requests < t.max_requests
      → r ≡ next t
      → Settles t attempts next r
  takes_over :
      (p : Provider) (h : History)
      → at_backup t ≡ false
      → t.failover.backup ≡ some p.model
      → t.requests < t.max_requests
      → r ≡ next (next_epoch (with_history t h) p automatic_failover)
      → Settles t attempts next r

if-Settles :
    (t : TurnLoop) (n : ℕ) (next : Next) (b : Bool) (x y : End × TurnLoop)
    → (b ≡ true → Settles t n next x)
    → (b ≡ false → Settles t n next y)
    → Settles t n next (if b then x else y)
if-Settles t n next true x y h k = h refl
if-Settles t n next false x y h k = k refl

module _ (t : TurnLoop) (w : Round) (next : Next) where
  act-Settles :
      (f : ModelFailure) (r : Action × TurnLoop)
      → t.requests < t.max_requests
      → Recovers t f r
      → Settles t f.attempts next (act w f f.attempts next t r)
  unfolding act
  act-Settles f r room (stays stop h p) =
      rw p (ends (ended (TurnFailure.fatal f)) t.history tt refl)
  act-Settles f r room (stays (failed e) h p) = rw p (ends (ended e) t.history tt refl)
  act-Settles f r room (stays takeover h p) = absurd h
  act-Settles f r room (stays Action.retry h p) = absurd h
  act-Settles f r room (retries left whole p) = rw p (
      if-Settles t f.attempts next (w.slept (retry_delay_ms f.retry_after_ms f.attempts)) _ _
        (λ _. again left room refl) (λ _. ends (ended TurnFailure.cancelled) t.history tt refl))
  act-Settles f r room (switches b to lacks h attached away named decided whole o p) =
      rw p (takes_over (under to b) h away named room refl)
  act-Settles f r room (gives_up e to lacks h away decided narrow shed p) =
      rw p (ends (ended e) h tt refl)

  after_truncation-Settles :
      (f : ModelFailure) (cut : Option (ℕ × ℕ))
      → Settles t f.attempts next (after_truncation t f.attempts w next f cut)
  unfolding after_truncation
  after_truncation-Settles f (some (actual, requested)) = ends _ t.history tt refl
  after_truncation-Settles f none =
      if-Settles t f.attempts next (is_overflow f.kind) _ _ (λ _. ends _ t.history tt refl)
        λ _.
          if-Settles t f.attempts next (leb t.max_requests t.requests) _ _
            (λ _. ends _ t.history tt refl)
            λ left. act-Settles f (recover t f w) (leb→lt _ _ left) (recover-Recovers t f w)

  after_close-Settles :
      (max_output : Option ℕ) (f : ModelFailure) (usage : Option CompletionUsage) (v : Written)
      → Settles t f.attempts next (after_close t f.attempts w next max_output f usage v)
  unfolding after_close
  after_close-Settles max_output f usage (lost e) = ends _ t.history tt refl
  after_close-Settles max_output f usage written =
      if-Settles t f.attempts next w.is_cancelled _ _ (λ _. ends _ t.history tt refl)
        λ _. after_truncation-Settles f (truncation usage max_output)

  complete_or_fail-Settles :
      (n : ℕ) (max_output : Option ℕ) (usage : CompletionUsage) (f : Option ModelFailure)
      → Settles t n next (complete_or_fail t n w next max_output usage f)
  unfolding complete_or_fail
  complete_or_fail-Settles n max_output usage none =
      if-Settles t n next (ltb u32_max w.calls) _ _ (λ _. ends _ t.history tt refl)
        λ _. ends _ t.history tt refl
  complete_or_fail-Settles n max_output usage (some f) =
      after_close-Settles max_output (on_model f n t.epoch.model) (some usage) w.closed

  streamed-Settles :
      (n : ℕ) (max_output : Option ℕ) (a : Streamed)
      → Settles t n next (settle t n w next max_output a)
  unfolding settle
  streamed-Settles n max_output (finished usage) =
      complete_or_fail-Settles n max_output usage (completion_failure usage w.produced w.committed)
  streamed-Settles n max_output (broke f) =
      after_close-Settles max_output
        (on_model (build f (with_partial_output (f.partial_output_emitted || w.committed))) n
          t.epoch.model)
        none w.closed

  collected-Settles :
      (n : ℕ) (max_output : Option ℕ) (v : Written)
      → Settles t n next (after_collect t n w next max_output v)
  unfolding after_collect
  collected-Settles n max_output (lost e) = ends _ t.history tt refl
  collected-Settles n max_output written = streamed-Settles n max_output w.streamed

-- A request more; and one whose start is recorded.
abbrev pub counted_one : TurnLoop → TurnLoop
counted_one t = record t { requests = t.requests + 1 }

abbrev pub asked : TurnLoop → TurnLoop
asked t = start_recorded (counted_one t)

-- A round of the turn `t`, which may end before its request is counted, or before it is sent; the
-- history is what `build_request` leaves.
pub data RoundGives (t : TurnLoop) (attempts : ℕ) (next : Next) (r : End × TurnLoop) : Type 0 where
  ends_early :
      (e : End) (h : History) → IsEnd e → r ≡ (e, with_history t h) → RoundGives t attempts next r
  ends_unsent :
      (e : End) (h : History)
      → IsEnd e
      → r ≡ (e, counted_one (with_history t h))
      → RoundGives t attempts next r
  goes_on :
      (h : History)
      → Settles (asked (with_history t h)) attempts next r
      → RoundGives t attempts next r

after_start-RoundGives :
    (t : TurnLoop) (h : History) (n : ℕ) (w : Round) (next : Next) (max_output : Option ℕ)
    (v : Written)
    → RoundGives t n next (after_start (counted_one (with_history t h)) n w next max_output v)
unfolding after_start
after_start-RoundGives t h n w next max_output (lost e) = ends_unsent (ended e) h tt refl
after_start-RoundGives t h n w next max_output written =
    goes_on h (collected-Settles (asked (with_history t h)) w next n max_output w.collected)

with_request-RoundGives :
    (t : TurnLoop) (h : History) (n : ℕ) (w : Round) (next : Next) (b : Built)
    → RoundGives t n next (with_request (with_history t h) n w next b)
unfolding with_request
with_request-RoundGives t h n w next (not_built e) = ends_early (ended e) h tt refl
with_request-RoundGives t h n w next (request max_output) =
    elim (Bool-cases (t.requests == usize_max)) [
      | inl e ↦ rw e (ends_early (ended (TurnFailure.sink 1)) h tt refl)
      | inr e ↦ rw e (after_start-RoundGives t h n w next max_output w.started)
    ]

pub round-RoundGives :
    (t : TurnLoop) (n : ℕ) (w : Round) (next : Next) → RoundGives t (n + 1) next (round t n w next)
unfolding round
round-RoundGives t n w next = elim (Bool-cases (n == u32_max)) [
  | inl e ↦ rw e (ends_early (ended (TurnFailure.sink 2)) t.history tt refl)
  | inr e ↦ rw e (with_request-RoundGives t w.built_history (n + 1) w next w.built)
]
