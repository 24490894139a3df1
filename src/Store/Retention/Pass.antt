-- ===== src/Store/Retention/Pass.antt =====
-- crates/rupi-store/src/retention.rs: `apply`. What the leases and the removals of sessions answer
-- while the pass runs is the record `Answers`; the sessions that are gone stand beside the result, also
-- where the pass ends with an error.
use pi_rs.Prelude.{ℕ, ◌+◌, ◌-◌, ◌≤◌, ◌≡◌, refl, subst, not, List, [], ◌∷◌, arith, if◌then◌else◌}
use pi_rs.Prelude.Text.{Text, text_eq}
use pi_rs.Store.Retention.{
  StoreResult, ok, failed, Layout, TraceRetention, RetentionReport, Plan, plan,
}

-- `SessionLease::acquire`: the lease, `StoreError::Invalid`, or another error.
pub data Acquired : Type 0 where
  granted invalid : Acquired
  refused : ℕ → Acquired

pub record Answers : Type 0 where
  pub acquire_pass : StoreResult (Unit {0})
  pub acquire : Text → Acquired
  pub remove_session : Text → StoreResult (Unit {0})

pub record Pass : Type 0 where
  pub deleted : List Text
  pub outcome : StoreResult RetentionReport

-- `removed.retain(|candidate| candidate.0 != *id)`
unfoldable pub retain : List (Text × ℕ) → Text → List (Text × ℕ)
unfolding text_eq
retain [] id = []
retain ((other, bytes) ∷ rest) id =
    if not (text_eq other id) then (other, bytes) ∷ retain rest id else retain rest id

-- The report once a victim turns out to be held.
unfoldable pub keep_leased : RetentionReport → Text → ℕ → RetentionReport
unfolding retain
keep_leased report id bytes = record report {
  leased = report.leased + 1;
  removed = retain report.removed id;
  freed_bytes = report.freed_bytes - bytes;
  remaining_bytes = report.remaining_bytes + bytes;
}

abbrev pub ended : ℕ → Pass
ended e = record { deleted = []; outcome = failed e }

unfoldable pub removed_one : Text → StoreResult (Unit {0}) → Pass → Pass
removed_one id (failed e) rest = ended e
removed_one id (ok done) rest = record rest { deleted = id ∷ rest.deleted }

-- One round, by the lease of its victim; `onward` and `skipped` are the rounds behind it.
unfoldable pub leased_round : Text → Acquired → StoreResult (Unit {0}) → Pass → Pass → Pass
unfolding removed_one
leased_round id granted removal onward skipped = removed_one id removal onward
leased_round id invalid removal onward skipped = skipped
leased_round id (refused e) removal onward skipped = ended e

unfoldable pub apply_loop : Answers → RetentionReport → List (Text × ℕ) → Pass
unfolding leased_round keep_leased
apply_loop a report [] = record { deleted = []; outcome = ok report }
apply_loop a report ((id, bytes) ∷ victims) =
    leased_round id (a.acquire id) (a.remove_session id) (apply_loop a report victims)
      (apply_loop a (keep_leased report id bytes) victims)

unfoldable pub apply_plan : Answers → StoreResult Plan → Pass
unfolding apply_loop
apply_plan a (failed e) = ended e
apply_plan a (ok p) = apply_loop a p.report p.victims

unfoldable pub apply_locked : Answers → StoreResult (Unit {0}) → StoreResult Plan → Pass
unfolding apply_plan
apply_locked a (failed e) planned = ended e
apply_locked a (ok held) planned = apply_plan a planned

unfoldable pub apply_retention : Layout → TraceRetention → ℕ → ℕ → Answers → Pass
unfolding apply_locked
apply_retention l r now_ms keep_newest a =
    apply_locked a a.acquire_pass (plan l r now_ms keep_newest)

-- Each deleted session is a victim whose lease was granted, in the order of the plan.
pub data Deletes (a : Answers) : List (Text × ℕ) → List Text → Type 0 where
  stops : (victims : List (Text × ℕ)) → Deletes a victims []
  skips :
      (id : Text) (bytes : ℕ) (victims : List (Text × ℕ)) (ids : List Text)
      → Deletes a victims ids
      → Deletes a ((id, bytes) ∷ victims) ids
  deletes :
      (id : Text) (bytes : ℕ) (victims : List (Text × ℕ)) (ids : List Text)
      → a.acquire id ≡ granted
      → a.remove_session id ≡ ok tt
      → Deletes a victims ids
      → Deletes a ((id, bytes) ∷ victims) (id ∷ ids)

round-Deletes :
    (a : Answers) (id : Text) (bytes : ℕ) (victims : List (Text × ℕ)) (lease : Acquired)
    (removal : StoreResult (Unit {0})) (onward skipped : Pass)
    → a.acquire id ≡ lease
    → a.remove_session id ≡ removal
    → Deletes a victims onward.deleted
    → Deletes a victims skipped.deleted
    → Deletes a ((id, bytes) ∷ victims) (leased_round id lease removal onward skipped).deleted
unfolding leased_round removed_one
round-Deletes a id bytes victims granted (ok tt) onward skipped h k x y =
    deletes id bytes victims onward.deleted h k x
round-Deletes a id bytes victims granted (failed e) onward skipped h k x y =
    stops ((id, bytes) ∷ victims)
round-Deletes a id bytes victims invalid removal onward skipped h k x y =
    skips id bytes victims skipped.deleted y
round-Deletes a id bytes victims (refused e) removal onward skipped h k x y =
    stops ((id, bytes) ∷ victims)

-- However a pass over a plan ends, each session that it has deleted is a victim of the plan whose
-- lease it was granted, in the order of the plan.
pub apply_loop-Deletes :
    (a : Answers) (report : RetentionReport) (victims : List (Text × ℕ))
    → Deletes a victims (apply_loop a report victims).deleted
unfolding apply_loop
apply_loop-Deletes a report [] = stops []
apply_loop-Deletes a report ((id, bytes) ∷ victims) =
    round-Deletes a id bytes victims (a.acquire id) (a.remove_session id) _ _ refl refl
      (apply_loop-Deletes a report victims)
      (apply_loop-Deletes a (keep_leased report id bytes) victims)

unfoldable pub total_of : List (Text × ℕ) → ℕ
total_of [] = 0
total_of ((id, bytes) ∷ victims) = bytes + total_of victims

abbrev pub Balances : ℕ → StoreResult RetentionReport → Type 0
Balances total (failed e) = Unit
Balances total (ok report) = report.freed_bytes + report.remaining_bytes ≡ total

round-Balances :
    (total : ℕ) (id : Text) (lease : Acquired) (removal : StoreResult (Unit {0}))
    (onward skipped : Pass)
    → Balances total onward.outcome
    → Balances total skipped.outcome
    → Balances total (leased_round id lease removal onward skipped).outcome
unfolding leased_round removed_one
round-Balances total id granted (ok done) onward skipped h k = h
round-Balances total id granted (failed e) onward skipped h k = tt
round-Balances total id invalid removal onward skipped h k = k
round-Balances total id (refused e) removal onward skipped h k = tt

-- Where the report has freed the victims' bytes at least, a pass that ends without an error reports
-- freed and remaining bytes with the same sum as before, however many victims turn out to be held.
pub apply_loop-Balances :
    (a : Answers) (report : RetentionReport) (victims : List (Text × ℕ))
    → total_of victims ≤ report.freed_bytes
    → Balances (report.freed_bytes + report.remaining_bytes) (apply_loop a report victims).outcome
unfolding apply_loop keep_leased total_of
apply_loop-Balances a report [] h = refl
apply_loop-Balances a report ((id, bytes) ∷ victims) h =
    round-Balances (report.freed_bytes + report.remaining_bytes) id (a.acquire id)
      (a.remove_session id) _ _ (apply_loop-Balances a report victims (omega (arith, h)))
      (subst (λ (n : ℕ). Balances n (apply_loop a (keep_leased report id bytes) victims).outcome)
        (omega (arith, h))
        (apply_loop-Balances a (keep_leased report id bytes) victims (omega (arith, h))))
