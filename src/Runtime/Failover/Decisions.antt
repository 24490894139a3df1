-- ===== src/Runtime/Failover/Decisions.antt =====
-- The decision, stated without the order of the code's tests.
use pi_rs.Prelude.{
  ℕ, ◌≤◌, ◌<◌, ◌≡◌, ◌⊎◌, ◌↔◌, refl, true, false, Option, none, some, List, arith, inl, sym, ◌∙◌,
}
use pi_rs.Core.Capability.{ModelRef, ModelCapabilities, CapabilityGap, gaps, has_hard_gap}
use pi_rs.Core.Capability.Gaps.{Serves, has_hard_gap_iff}
use pi_rs.Core.Failure.{ModelFailure, is_failover_candidate, safe_to_retry}
use pi_rs.Runtime.Failover.{
  retry, failover, refused, FailoverPolicy, decide, ask_backup, failover_or_abort, is_cancelled,
}

-- A request is asked again of the same model exactly when the failure is safe to retry and the
-- budget has an attempt left; the answer carries the attempts made and the budget.
pub decide-retry :
    (p : FailoverPolicy) (f : ModelFailure) (attempt limit : ℕ)
    → (decide p f ≡ retry attempt limit) ↔ (
        (safe_to_retry f ≡ true)
        × (f.attempts < p.max_attempts)
        × (attempt ≡ f.attempts)
        × (limit ≡ p.max_attempts))
unfolding decide safe_to_retry
decide-retry p f attempt limit =
    (λ h. (ground arith, ground arith, ground arith, ground arith), λ h. ground arith)

-- No attempt is left for the same model, or it may not be asked again.
abbrev pub IsSpent : FailoverPolicy → ModelFailure → Type 0
IsSpent p f = (safe_to_retry f ≡ false) ⊎ (p.max_attempts ≤ f.attempts)

ask_backup-failover :
    (b : Option ModelRef) (cs : Option ModelCapabilities) (required : ModelCapabilities)
    {to : ModelRef} {lacks : List CapabilityGap}
    → ask_backup b cs required ≡ failover to lacks
    → (c : ModelCapabilities) × (b ≡ some to)
      × (cs ≡ some c)
      × (has_hard_gap (gaps c required) ≡ false)
      × (lacks ≡ gaps c required)
unfolding ask_backup
ask_backup-failover (some to) (some c) required h =
    (c, ground arith, refl, ground arith, ground arith)
ask_backup-failover none cs required h = cc
ask_backup-failover (some to) none required h = cc

-- What a takeover rests on, apart from the backup.
abbrev Qualifies : FailoverPolicy → ModelFailure → Type 0
Qualifies p f =
    (f.partial_output_emitted ≡ false) × (is_failover_candidate f.kind ≡ true) × IsSpent p f

decide-ask :
    (p : FailoverPolicy) (f : ModelFailure)
    → Qualifies p f
    → decide p f ≡ ask_backup p.backup p.backup_capabilities p.required
unfolding decide failover_or_abort is_failover_candidate is_cancelled
decide-ask p f q = ground arith

decide-Qualifies :
    (p : FailoverPolicy) (f : ModelFailure) {to : ModelRef} {lacks : List CapabilityGap}
    → (decide p f ≡ failover to lacks) ⊎ (decide p f ≡ refused to lacks)
    → Qualifies p f
unfolding decide is_failover_candidate is_cancelled
decide-Qualifies p f h = (ground arith, ground arith, ground arith)

-- The backup model takes over exactly when no output was emitted, the kind of the failure is one
-- of availability, the model that failed may not be asked again, and a backup is attached whose
-- snapshot has every modality that the session requires. What it lacks besides is reported.
pub decide-failover :
    (p : FailoverPolicy) (f : ModelFailure) (to : ModelRef) (lacks : List CapabilityGap)
    → (decide p f ≡ failover to lacks) ↔ (
        (c : ModelCapabilities) × (f.partial_output_emitted ≡ false)
        × (is_failover_candidate f.kind ≡ true)
        × IsSpent p f
        × (p.backup ≡ some to)
        × (p.backup_capabilities ≡ some c)
        × Serves c p.required
        × (lacks ≡ gaps c p.required))
decide-failover p f to lacks = (
  λ h.
      let q = decide-Qualifies p f (inl h) in
      let (c, b, cs, soft, found) =
        ask_backup-failover p.backup p.backup_capabilities p.required
          (sym (decide-ask p f q) ∙ h) in
      (c, q.0, q.1, q.2, b, cs, (has_hard_gap_iff c p.required).0 soft, found),
  λ (c, whole, kind, spent, b, cs, serves, found).
      decide-ask p f (whole, kind, spent)
      ∙ rw (b, cs) (unfold ask_backup in rw (found, (has_hard_gap_iff c p.required).1 serves)),
)
