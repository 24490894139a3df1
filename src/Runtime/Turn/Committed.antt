-- ===== src/Runtime/Turn/Committed.antt =====
-- crates/rupi-runtime/src/turn.rs: `attempt` once output was committed in a round.
use pi_rs.Prelude.{
  ℕ, ◌+◌, ◌≡◌, refl, sym, ap, subst, ◌∙◌, Bool, true, false, ◌||◌, Option, none, some, List, [],
  ◌∷◌, ◌++◌, leb, if◌then◌else◌, arith, ◌==◌,
}
use mathlib.Core.Path.{fun_ext}
use pi_rs.Core.Failure.{ModelFailure, build, new, with_partial_output}
use pi_rs.Core.Completion.{CompletionUsage}
use pi_rs.Runtime.Turn.{
  TurnLoop, Written, written, lost, request, not_built, Built, Streamed, finished, broke, Round,
  Action, takeover, stop, failed, recover, completion_failure, u32_max, cancelled,
}
use pi_rs.Runtime.Turn.Attempt.{
  Next, End, ended, act, truncation, after_truncation, is_overflow, after_close, complete_or_fail,
  settle, after_collect, after_start, with_request, round, on_model, usize_max, start_recorded,
  attempt_loop, attempt, counted,
}
use pi_rs.Runtime.Turn.Recovering.{Recovers, stays, retries, switches, gives_up, recover-Recovers}
use pi_rs.Runtime.Turn.Rounds.{
  IsEnd, RoundGives, ends_early, ends_unsent, goes_on, ends, again, takes_over, round-RoundGives,
}

if_both :
    {A : Type 0} (b : Bool) {x x' y y' : A}
    → x ≡ x'
    → y ≡ y'
    → (if b then x else y) ≡ (if b then x' else y')
if_both true p q = p
if_both false p q = q

or_true : (a b : Bool) → b ≡ true → (a || b) ≡ true
or_true a b h = ground arith

clash : (b : Bool) → b ≡ true → b ≡ false → ⊥
clash b h k = ground arith

-- The failure of a completed request says whether output was committed.
completion_failure-partial :
    (usage : CompletionUsage) (produced : Bool) (f : ModelFailure)
    → completion_failure usage produced true ≡ some f
    → f.partial_output_emitted ≡ true
unfolding completion_failure build new
completion_failure-partial usage produced f h = ground arith

-- After output the code does not go on, so that what comes next does not matter.
module _ (t : TurnLoop) (w : Round) (n : ℕ) (next next' : Next) where
  act-same :
      (f : ModelFailure) (r : Action × TurnLoop)
      → f.partial_output_emitted ≡ true
      → Recovers t f r
      → act w f n next t r ≡ act w f n next' t r
  unfolding act
  act-same f r out (stays stop h p) = rw p refl
  act-same f r out (stays (failed e) h p) = rw p refl
  act-same f r out (stays takeover h p) = absurd h
  act-same f r out (stays Action.retry h p) = absurd h
  act-same f r out (retries left whole p) = absurd (clash _ out whole)
  act-same f r out (switches b to lacks h attached away named decided whole o p) =
      absurd (clash _ out whole)
  act-same f r out (gives_up e to lacks h away decided narrow shed p) = rw p refl

  after_truncation-same :
      (f : ModelFailure) (cut : Option (ℕ × ℕ))
      → f.partial_output_emitted ≡ true
      → after_truncation t n w next f cut ≡ after_truncation t n w next' f cut
  unfolding after_truncation
  after_truncation-same f (some (actual, requested)) out = refl
  after_truncation-same f none out = if_both (is_overflow f.kind) refl (
      if_both (leb t.max_requests t.requests) refl
        (act-same f (recover t f w) out (recover-Recovers t f w)))

  after_close-same :
      (max_output : Option ℕ) (f : ModelFailure) (usage : Option CompletionUsage) (v : Written)
      → f.partial_output_emitted ≡ true
      → after_close t n w next max_output f usage v ≡ after_close t n w next' max_output f usage v
  unfolding after_close
  after_close-same max_output f usage (lost e) out = refl
  after_close-same max_output f usage written out =
      if_both w.is_cancelled refl (after_truncation-same f (truncation usage max_output) out)

  complete_or_fail-same :
      (max_output : Option ℕ) (usage : CompletionUsage) (o : Option ModelFailure)
      → ((f : ModelFailure) → o ≡ some f → f.partial_output_emitted ≡ true)
      → complete_or_fail t n w next max_output usage o
        ≡ complete_or_fail t n w next' max_output usage o
  unfolding complete_or_fail
  complete_or_fail-same max_output usage none out = refl
  complete_or_fail-same max_output usage (some f) out =
      after_close-same max_output (on_model f n t.epoch.model) (some usage) w.closed (out f refl)

  settle-same :
      (max_output : Option ℕ) (s : Streamed)
      → w.committed ≡ true
      → settle t n w next max_output s ≡ settle t n w next' max_output s
  unfolding settle build
  settle-same max_output (finished usage) out =
      complete_or_fail-same max_output usage (completion_failure usage w.produced w.committed)
        λ f e.
          completion_failure-partial usage w.produced f
            (ap (completion_failure usage w.produced) (sym out) ∙ e)
  settle-same max_output (broke f) out =
      after_close-same max_output
        (on_model (build f (with_partial_output (f.partial_output_emitted || w.committed))) n
          t.epoch.model)
        none w.closed (or_true f.partial_output_emitted w.committed out)

  after_collect-same :
      (max_output : Option ℕ) (v : Written)
      → w.committed ≡ true
      → after_collect t n w next max_output v ≡ after_collect t n w next' max_output v
  unfolding after_collect
  after_collect-same max_output (lost e) out = refl
  after_collect-same max_output written out = settle-same max_output w.streamed out

module _ (w : Round) (n : ℕ) (next next' : Next) (out : w.committed ≡ true) where
  after_start-same :
      (t : TurnLoop) (max_output : Option ℕ) (v : Written)
      → after_start t n w next max_output v ≡ after_start t n w next' max_output v
  unfolding after_start
  after_start-same t max_output (lost e) = refl
  after_start-same t max_output written =
      after_collect-same (start_recorded t) w n next next' max_output w.collected out

  with_request-same :
      (t : TurnLoop) (b : Built) → with_request t n w next b ≡ with_request t n w next' b
  unfolding with_request
  with_request-same t (not_built e) = refl
  with_request-same t (request max_output) =
      if_both (t.requests == usize_max) refl (after_start-same _ max_output w.started)

round-same :
    (t : TurnLoop) (n : ℕ) (w : Round) (next next' : Next)
    → w.committed ≡ true
    → round t n w next ≡ round t n w next'
unfolding round
round-same t n w next next' out =
    if_both (n == u32_max) refl (with_request-same w (n + 1) next next' out _ w.built)

-- A round ends if what comes after it does.
round-IsEnd :
    (t : TurnLoop) (n : ℕ) (w : Round) (next : Next)
    → ((t' : TurnLoop) → IsEnd (next t').0)
    → IsEnd (round t n w next).0
round-IsEnd t n w next later = by_case (round t n w next) (round-RoundGives t n w next)
  where
    by_case : (r : End × TurnLoop) → RoundGives t (n + 1) next r → IsEnd (r.0)
    by_case r (ends_early e h k p) = rw p k
    by_case r (ends_unsent e h k p) = rw p k
    by_case r (goes_on h (ends e g k p)) = rw p k
    by_case r (goes_on h (again left more p)) = rw p (later _)
    by_case r (goes_on h (takes_over q g away named more p)) = rw p (later _)

attempt_loop_after_output :
    (pre : List Round) (t : TurnLoop) (n e : ℕ) (w : Round) (ws : List Round)
    → w.committed ≡ true
    → (attempt_loop t n e (pre ++ w ∷ ws) ≡ attempt_loop t n e (pre ++ w ∷ []))
      × IsEnd (attempt_loop t n e (pre ++ w ∷ ws)).0
unfolding attempt_loop
attempt_loop_after_output [] t n e w ws out =
    let here = counted t n e in
    let given_up : Next = λ t'. (ended cancelled, t') in
    let same = λ (next : Next). round-same t here w next given_up out in
    (
      round-same t here w _ _ out,
      subst (λ (r : End × TurnLoop). IsEnd (r.0)) (sym (same _))
          (round-IsEnd t here w given_up (λ _. tt)),
    )
attempt_loop_after_output (p ∷ pre) t n e w ws out =
    let here = counted t n e in
    let later =
      λ (t' : TurnLoop). attempt_loop_after_output pre t' (here + 1) t.epoch.index w ws out in
    (
      ap (round t here p) (fun_ext (λ t'. (later t').0)),
      round-IsEnd t here p _ (λ t'. (later t').1),
    )

-- A round in which output was committed is the last one: whatever rounds went before it, what the
-- world would answer after it makes no difference to the end of `attempt` or to the turn that it
-- leaves, and `attempt` does end.
pub attempt_after_output :
    (t : TurnLoop) (pre : List Round) (w : Round) (ws : List Round)
    → w.committed ≡ true
    → (attempt t (pre ++ w ∷ ws) ≡ attempt t (pre ++ w ∷ [])) × IsEnd (attempt t (pre ++ w ∷ ws)).0
unfolding attempt
attempt_after_output t pre w ws out = attempt_loop_after_output pre t 0 t.epoch.index w ws out
