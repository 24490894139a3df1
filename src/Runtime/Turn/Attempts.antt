-- ===== src/Runtime/Turn/Attempts.antt =====
-- crates/rupi-runtime/src/turn.rs: how often `attempt` asks, whom, and when it gives up.
use pi_rs.Prelude.{ℕ, ◌+◌, ◌≤◌, ◌<◌, ◌≡◌, ◌⊎◌, false, some}
use pi_rs.Core.Capability.{ModelRef}
use pi_rs.Runtime.History.{History}
use pi_rs.Runtime.Turn.{Provider, TurnLoop, next_epoch, automatic_failover}
use pi_rs.Runtime.Turn.Attempt.{End}
use pi_rs.Runtime.Turn.Recovering.{at_backup}
use pi_rs.Runtime.Turn.Rounds.{IsEnd}
use pi_rs.Runtime.Turn.Counts.{room, room_of, times_asked}

pub record Bounded (t : TurnLoop) (attempts rounds : ℕ) (r : End × TurnLoop) : Type 0 where
  pub few : r.1.requests ≤ t.requests + room t attempts
  pub few_each :
      (m : ModelRef)
      → times_asked m r.1.envelopes ≤ times_asked m t.envelopes + room_of m t attempts
  pub done : room t attempts ≤ rounds → IsEnd r.0
  pub within : t.requests < t.max_requests → r.1.requests ≤ t.max_requests
  pub one_switch :
      (r.1.epoch ≡ t.epoch)
      ⊎ ((at_backup t ≡ false)
          × (p : Provider) × (t.failover.backup ≡ some p.model)
          × (r.1.epoch ≡ (next_epoch t p automatic_failover).epoch))
