-- ===== src/Runtime/Turn/Recovering.antt =====
-- crates/rupi-runtime/src/turn.rs: what `recover` may do.
use pi_rs.Prelude.{
  ◌≤◌, ◌<◌, ◌≡◌, inl, inr, refl, ap, subst, ◌∙◌, Bool, Bool-cases, true, false, not, ◌||◌, Option,
  none, some, List, ◌==◌, if◌then◌else◌, arith,
}
use pi_rs.Core.Capability.{ModelRef, CapabilityGap}
use pi_rs.Core.Failure.{ModelFailure, safe_to_retry}
use pi_rs.Runtime.Failover.{Recovery, failover, refused, abort, decide, is_cancelled}
use pi_rs.Runtime.Failover.Decisions.{decide-retry, decide-failover}
use pi_rs.Runtime.Turn.{
  Provider, TurnLoop, TurnFailure, Written, written, lost, Round, Action, takeover, stop, failed,
  model_eq, next_epoch, automatic_failover, on_written, push_epoch, after_rebudget, to_backup,
  follow, recover, u32_max, with_history, any_window_gap, overflow_recovery_target, rebudget,
}
use pi_rs.Runtime.History.{History}
use pi_rs.Runtime.Turn.Rebudget.{Sheds, Rebudgets, rebudget-Rebudgets, rebudget-model}

abbrev pub is_named : Option ModelRef → ModelRef → Bool
is_named none model = false
is_named (some to) model = model_eq model to

-- The active model is the policy's backup.
abbrev pub at_backup : TurnLoop → Bool
at_backup t = is_named t.failover.backup t.epoch.model

abbrev pub IsStop : Action → Type 0
IsStop stop = Unit
IsStop (failed e) = Unit
IsStop _ = ⊥

-- The history goes to the backup as it is, or, where the backup's window is too narrow, reduced so that
-- a request fits.
pub record Handover (t : TurnLoop) (p : Provider) (lacks : List CapabilityGap) (h : History)
    : Type 0 where
  pub narrow : any_window_gap lacks ≡ true → Sheds t h
  pub fits :
      any_window_gap lacks ≡ true
      → p.request_size false h.messages ≤ overflow_recovery_target p.capabilities.context_window
  pub same : any_window_gap lacks ≡ false → h ≡ t.history

-- The attached backup, under the name that the policy has for it.
abbrev pub under : ModelRef → Provider → Provider
under to b = record b { model = to }

-- What recovery may do.
pub data Recovers (t : TurnLoop) (f : ModelFailure) (r : Action × TurnLoop) : Type 0 where
  stays : (a : Action) → IsStop a → r ≡ (a, t) → Recovers t f r
  retries :
      f.attempts < t.failover.max_attempts
      → f.partial_output_emitted ≡ false
      → r ≡ (Action.retry, t)
      → Recovers t f r
  switches :
      (b : Provider) (to : ModelRef) (lacks : List CapabilityGap) (h : History)
      → t.backup ≡ some b
      → at_backup t ≡ false
      → t.failover.backup ≡ some to
      → decide t.failover f ≡ failover to lacks
      → f.partial_output_emitted ≡ false
      → Handover t (under to b) lacks h
      → r ≡ (takeover, next_epoch (with_history t h) (under to b) automatic_failover)
      → Recovers t f r
  gives_up :
      (e : TurnFailure) (to : ModelRef) (lacks : List CapabilityGap) (h : History)
      → at_backup t ≡ false
      → decide t.failover f ≡ failover to lacks
      → any_window_gap lacks ≡ true
      → Sheds t h
      → r ≡ (failed e, with_history t h)
      → Recovers t f r

if-Recovers :
    (t : TurnLoop) (f : ModelFailure) (b : Bool) (x y : Action × TurnLoop)
    → (b ≡ true → Recovers t f x)
    → (b ≡ false → Recovers t f y)
    → Recovers t f (if b then x else y)
if-Recovers t f true x y h k = h refl
if-Recovers t f false x y h k = k refl

stop-Recovers :
    (t : TurnLoop) (f : ModelFailure) (w : Written) → Recovers t f (on_written w stop t t)
unfolding on_written
stop-Recovers t f written = stays stop tt refl
stop-Recovers t f (lost e) = stays (failed e) tt refl

safe_whole : (f : ModelFailure) → safe_to_retry f ≡ true → f.partial_output_emitted ≡ false
unfolding safe_to_retry
safe_whole f h = ground arith

module _ (t : TurnLoop) (f : ModelFailure) (w : Round) where
  -- The takeover by the backup, which the policy has decided on.
  module _ (b : Provider) (to : ModelRef) (lacks : List CapabilityGap)
      (attached : t.backup ≡ some b) (away : at_backup t ≡ false)
      (named : t.failover.backup ≡ some to) (decided : decide t.failover f ≡ failover to lacks)
      (whole : f.partial_output_emitted ≡ false) where
    narrow_push :
        (h : History)
        → any_window_gap lacks ≡ true
        → Handover t (under to b) lacks h
        → Recovers t f (push_epoch (with_history t h) w (under to b))
    unfolding push_epoch on_written
    narrow_push h narrow o =
        if-Recovers t f (t.epoch.index == u32_max) _ _ (λ _. give_up _)
          λ _. on_recovery w.recovery_written
      where
        give_up : (e : TurnFailure) → Recovers t f (failed e, with_history t h)
        give_up e = gives_up e to lacks h away decided narrow (o.narrow narrow) refl

        on_recovery :
            (v : Written)
            → Recovers t f (
                on_written v takeover
                  (with_history t h)
                  (next_epoch (with_history t h) (under to b) automatic_failover))
        on_recovery written = switches b to lacks h attached away named decided whole o refl
        on_recovery (lost e) = give_up e

    wide_push : any_window_gap lacks ≡ false → Recovers t f (push_epoch t w (under to b))
    unfolding push_epoch on_written
    wide_push wide =
        if-Recovers t f (t.epoch.index == u32_max) _ _
          (λ _. stays (failed (TurnFailure.sink 0)) tt refl) λ _. on_recovery w.recovery_written
      where
        as_it_is : Handover t (under to b) lacks t.history
        as_it_is = record {
          narrow = λ e. absurd (ground arith);
          fits = λ e. absurd (ground arith);
          same = λ _. refl;
        }

        on_recovery :
            (v : Written)
            → Recovers t f (on_written v takeover t (next_epoch t (under to b) automatic_failover))
        on_recovery written =
            switches b to lacks t.history attached away named decided whole as_it_is refl
        on_recovery (lost e) = stays (failed e) tt refl

    narrow-Recovers :
        (v : Written × History)
        → any_window_gap lacks ≡ true
        → Rebudgets (under to b) t v
        → Recovers t f (after_rebudget t w (under to b) v)
    unfolding after_rebudget
    narrow-Recovers (written, h) narrow kept = narrow_push h narrow (record {
      narrow = λ _. kept.shed;
      fits = λ _. kept.fit refl;
      same = λ e. absurd (ground arith);
    })
    narrow-Recovers (lost e, h) narrow kept =
        gives_up e to lacks h away decided narrow kept.shed refl

    takeover-Recovers : Recovers t f (
        after_rebudget t w (under to b) (
          if any_window_gap lacks
          then rebudget (under to b) t.history w.stored
          else (written, t.history)))
    unfolding after_rebudget
    takeover-Recovers = elim (Bool-cases (any_window_gap lacks)) [
      | inl narrow ↦
          rw narrow (narrow-Recovers _ narrow (rebudget-Rebudgets (under to b) t w.stored))
      | inr wide ↦ rw wide (wide_push wide)
    ]

  to_backup-Recovers :
      (to : ModelRef) (lacks : List CapabilityGap) (b : Option Provider)
      → t.backup ≡ b
      → t.failover.backup ≡ some to
      → decide t.failover f ≡ failover to lacks
      → f.partial_output_emitted ≡ false
      → Recovers t f (to_backup t w to lacks b)
  unfolding to_backup
  to_backup-Recovers to lacks none attached named decided whole = stays stop tt refl
  to_backup-Recovers to lacks (some b) attached named decided whole =
      if-Recovers t f (not (model_eq b.model to)) _ _ (λ _. stop-Recovers t f w.recovery_written)
        λ _.
          if-Recovers t f (model_eq t.epoch.model to) _ _
            (λ _. stop-Recovers t f w.recovery_written)
            λ away.
              subst
                (λ (v : Written × History). Recovers t f (
                  after_rebudget t w (record b { model = to })
                    (if any_window_gap lacks then v else (written, t.history))))
                (rebudget-model b to t.history w.stored)
                (takeover-Recovers b to lacks attached
                  (ap (λ (o : Option ModelRef). is_named o t.epoch.model) named ∙ away) named
                  decided whole)

  follow-Recovers : (d : Recovery) → decide t.failover f ≡ d → Recovers t f (follow t w d)
  unfolding follow on_written
  follow-Recovers (Recovery.retry attempt limit) h =
      let (safe, left, _, _) = (decide-retry t.failover f attempt limit).0 h in
      retry_written w.recovery_written left (safe_whole f safe)
    where
      retry_written :
          (v : Written)
          → f.attempts < t.failover.max_attempts
          → f.partial_output_emitted ≡ false
          → Recovers t f (on_written v Action.retry t t)
      retry_written written left whole = retries left whole refl
      retry_written (lost e) left whole = stays (failed e) tt refl
  follow-Recovers (failover to lacks) h =
      let (c, whole, kind, spent, named, known, serves, found) =
        (decide-failover t.failover f to lacks).0 h in
      to_backup-Recovers to lacks t.backup refl named h whole
  follow-Recovers (refused to lacks) h = stop-Recovers t f w.recovery_written
  follow-Recovers abort h = stays stop tt refl

  -- Recovery asks the same model again only while the policy has attempts left, and moves only to
  -- the attached backup under the policy's name for it, where that is not the active model; it does
  -- either only where no output was emitted. Else it stops. It touches the history only where the
  -- policy moves to a backup that has too small a window: then, also where the turn fails after it,
  -- the messages before the checkpoint and the current turn are as they were, there is a number
  -- slot for each message, and a history that a provider accepts, with every call before the
  -- checkpoint answered, stays accepted; and where the backup takes over, a request to it with the
  -- history that is left is within its window less a tenth.
  pub recover-Recovers : Recovers t f (recover t f w)
  unfolding recover
  recover-Recovers =
      if-Recovers t f (w.cancelled_at_recovery || is_cancelled f.kind) _ _ (λ _. stays stop tt refl)
        λ _. follow-Recovers (decide t.failover f) refl
