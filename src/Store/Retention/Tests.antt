-- ===== src/Store/Retention/Tests.antt =====
-- crates/rupi-store/src/retention.rs: a pass over three sessions.
use pi_rs.Prelude.{◌≡◌, refl, false, none, some, List, [], ◌∷◌}
use pi_rs.Prelude.Text.{Text, codes}
use pi_rs.Store.Retention.{ok, Layout, TraceRetention, Plan, Candidate, plan, sweep, sort}
use pi_rs.Prelude.{arith, ◌≤◌}
use pi_rs.Store.Retention.Pass.{
  Answers, granted, invalid, apply_loop, apply_retention, total_of, Deletes, Balances,
  apply_loop-Deletes, apply_loop-Balances,
}
use pi_rs.Store.Retention.Spared.{AllVictims, MayGo, plan-MayGo}
use pi_rs.Store.Retention.Sweep.{Sweeps, IsSorted, sweep-sort}

abbrev second : Text
second = codes "018bcfe56800-7000-8000-000000000000"

-- The second of the sessions is dated, the third has a name that tells nothing.
abbrev three : Layout
three = record {
  list_session_ids = ok (codes "018bcfe56801-7000" ∷ second ∷ codes "legacy" ∷ []);
  state_bytes = ok 30;
  is_active = λ id. false;
  session_bytes = λ id. ok 10;
}

abbrev at_most_20 : TraceRetention
at_most_20 = record { max_age_days = none; max_bytes = some 20 }

abbrev planned : Plan
planned = record {
  report = record {
    removed = (second, 10) ∷ [];
    freed_bytes = 10;
    remaining_bytes = 20;
    protected = 1;
    undated = 1;
    leased = 0;
  };
  victims = (second, 10) ∷ [];
}

three-planned : plan three at_most_20 0 1 ≡ ok planned
unfolding plan
three-planned = refl

plan-MayGo_example :
    AllVictims
      (MayGo three 1 0 (codes "018bcfe56801-7000" ∷ second ∷ codes "legacy" ∷ []))
      ((second, 10) ∷ [])
plan-MayGo_example =
    plan-MayGo three at_most_20 0 1 (codes "018bcfe56801-7000" ∷ second ∷ codes "legacy" ∷ [])
      planned refl three-planned

abbrev two : List Candidate
two =
    record { started = 9; id = codes "b"; bytes = 1 }
    ∷ record { started = 4; id = codes "a"; bytes = 2 }
    ∷ []

sweep-sort_example :
    Sweeps (some 5) none 7 (sort two) (sweep (some 5) none 7 (sort two)) × IsSorted (sort two)
sweep-sort_example = sweep-sort (some 5) none 7 two

-- The one victim is held by another process.
abbrev held : Answers
held = record { acquire_pass = ok tt; acquire = λ id. invalid; remove_session = λ id. ok tt }

abbrev free : Answers
free = record held { acquire = λ id. granted }

held_kept : (apply_retention three at_most_20 0 1 held).deleted ≡ []
unfolding apply_retention plan
held_kept = refl

free_deleted : (apply_retention three at_most_20 0 1 free).deleted ≡ second ∷ []
unfolding apply_retention plan
free_deleted = refl

apply_loop-Deletes_example :
    Deletes free ((second, 10) ∷ []) (apply_loop free planned.report ((second, 10) ∷ [])).deleted
apply_loop-Deletes_example = apply_loop-Deletes free planned.report ((second, 10) ∷ [])

apply_loop-Balances_example :
    Balances 30 (apply_loop held planned.report ((second, 10) ∷ [])).outcome
apply_loop-Balances_example = apply_loop-Balances held planned.report ((second, 10) ∷ []) ten_le
  where
    ten_le : total_of ((second, 10) ∷ []) ≤ 10
    ten_le = unfold total_of in omega arith
