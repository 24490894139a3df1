-- ===== src/Runtime/Turn/Rebudget.antt =====
-- crates/rupi-runtime/src/turn.rs: what `rebudget` leaves of the history for the backup.
use pi_rs.Prelude.{
  ℕ, min, length, ltb, ◌≤◌, ◌≡◌, inl, inr, refl, Bool-cases, false, Option, if◌then◌else◌, arith,
}
use pi_rs.Core.Capability.{ModelRef}
use pi_rs.Runtime.Turn.{
  Provider, TurnLoop, TurnFailure, Written, written, lost, overflow_recovery_target, check_backup,
  rebudget,
}
use pi_rs.Runtime.History.{History, Evicted, kept, reduced}
use pi_rs.Runtime.History.Eviction.{Leaves, evict_oldest-Leaves}

-- What an eviction for the backup leaves of the history of the turn.
abbrev pub Sheds : TurnLoop → History → Type 0
Sheds t h = Leaves (min t.history.checkpoint_floor (length t.history.messages)) t.history h

-- What `rebudget` answers for the backup `b`, and the history that it leaves.
pub record Rebudgets (b : Provider) (t : TurnLoop) (v : Written × History) : Type 0 where
  pub shed : Sheds t (v.1)
  pub fit :
      v.0 ≡ written
      → b.request_size false v.1.messages ≤ overflow_recovery_target b.capabilities.context_window

if_fits :
    (b : Provider) (t : TurnLoop) (h : History)
    → Sheds t h
    → Rebudgets b t (
        if ltb
          (overflow_recovery_target b.capabilities.context_window)
          (b.request_size false h.messages)
        then (lost (TurnFailure.sink 3), h)
        else (written, h))
if_fits b t h s =
    elim (Bool-cases (
      ltb (overflow_recovery_target b.capabilities.context_window)
        (b.request_size false h.messages))) [
          | inl over ↦ rw over (record { shed = s; fit = λ e. absurd (ground arith) })
          | inr fits ↦ rw fits (record { shed = s; fit = λ _. ground arith })
        ]

check_backup-Rebudgets :
    (b : Provider) (t : TurnLoop) (r : Evicted × History)
    → Sheds t (r.1)
    → Rebudgets b t (check_backup b r)
unfolding check_backup
check_backup-Rebudgets b t (Evicted.failed e, h) s = record {
  shed = s;
  fit = λ e. absurd (ground arith);
}
check_backup-Rebudgets b t (kept, h) s = if_fits b t h s
check_backup-Rebudgets b t (reduced event, h) s = if_fits b t h s

pub rebudget-Rebudgets :
    (b : Provider) (t : TurnLoop) (stored : Option ℕ) → Rebudgets b t (rebudget b t.history stored)
unfolding rebudget
rebudget-Rebudgets b t stored = check_backup-Rebudgets b t _ (
    evict_oldest-Leaves b.request_size t.history
      (overflow_recovery_target b.capabilities.context_window) false stored)

-- The name of the backup does not matter to it.
check_backup-model :
    (b : Provider) (to : ModelRef) (r : Evicted × History)
    → check_backup (record b { model = to }) r ≡ check_backup b r
unfolding check_backup
check_backup-model b to (Evicted.failed e, h) = refl
check_backup-model b to (kept, h) = refl
check_backup-model b to (reduced event, h) = refl

pub rebudget-model :
    (b : Provider) (to : ModelRef) (h : History) (stored : Option ℕ)
    → rebudget (record b { model = to }) h stored ≡ rebudget b h stored
unfolding rebudget
rebudget-model b to h stored = check_backup-model b to _
