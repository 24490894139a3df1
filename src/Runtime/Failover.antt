-- ===== src/Runtime/Failover.antt =====
-- crates/rupi-runtime/src/failover.rs: what the runtime does about a failed model request.
pub mod Decisions
mod Tests
use pi_rs.Prelude.{ℕ, Bool, true, false, ◌&&◌, Option, none, some, List, ltb, max, if◌then◌else◌}
use pi_rs.Core.Capability.{
  ModelRef, ModelCapabilities, CapabilityGap, text_only, gaps, has_hard_gap,
}
use pi_rs.Core.Failure.{ModelFailureKind, ModelFailure, is_failover_candidate, safe_to_retry}

pub data Recovery : Type 0 where
  retry : ℕ → ℕ → Recovery
  failover refused : ModelRef → List CapabilityGap → Recovery
  abort : Recovery

pub record FailoverPolicy : Type 0 where
  pub backup : Option ModelRef
  pub backup_capabilities : Option ModelCapabilities
  pub max_attempts : ℕ
  pub required : ModelCapabilities

-- `FailoverPolicy::default`
unfoldable pub default : FailoverPolicy
default = record {
  backup = none;
  backup_capabilities = none;
  max_attempts = 2;
  required = text_only 8192;
}

unfoldable pub with_backup : FailoverPolicy → ModelRef → ModelCapabilities → FailoverPolicy
with_backup p model capabilities = record p {
  backup = some model;
  backup_capabilities = some capabilities;
}

unfoldable pub requiring : FailoverPolicy → ModelCapabilities → FailoverPolicy
requiring p required = record p { required = required }

unfoldable pub with_max_attempts : FailoverPolicy → ℕ → FailoverPolicy
with_max_attempts p attempts = record p { max_attempts = max attempts 1 }

-- `matches!(kind, ModelFailureKind::Cancelled)`
unfoldable pub is_cancelled : ModelFailureKind → Bool
is_cancelled ModelFailureKind.cancelled = true
is_cancelled _ = false

-- The `let … else` on the backup and its snapshot.
unfoldable pub ask_backup :
    Option ModelRef → Option ModelCapabilities → ModelCapabilities → Recovery
ask_backup (some backup) (some capabilities) required =
    let found = gaps capabilities required in
    if has_hard_gap found then refused backup found else failover backup found
ask_backup _ _ required = abort

unfoldable pub failover_or_abort : FailoverPolicy → Recovery
unfolding ask_backup
failover_or_abort p = ask_backup p.backup p.backup_capabilities p.required

unfoldable pub decide : FailoverPolicy → ModelFailure → Recovery
unfolding is_cancelled failover_or_abort
decide p f =
    if is_cancelled f.kind
    then abort
    else if f.partial_output_emitted
    then abort
    else if safe_to_retry f && ltb f.attempts p.max_attempts
    then retry f.attempts p.max_attempts
    else if is_failover_candidate f.kind
    then failover_or_abort p
    else abort
