-- ===== src/Runtime/Turn/Counts.antt =====
-- crates/rupi-runtime/src/turn.rs: the requests that `attempt` may still make.
use pi_rs.Prelude.{
  Bool, ap, ℕ, ◌+◌, ◌-◌, ◌≤◌, ◌<◌, ◌≡◌, inl, inr, refl, sym, ◌∙◌, true, false, some, Bool-cases,
  ◌++◌, Option, List, [], ◌∷◌, if◌then◌else◌, arith,
}
use pi_rs.Prelude.Text.{Text, text_eq, text_eq_iff}
use pi_rs.Core.Capability.{ModelRef}
use pi_rs.Runtime.Turn.{
  Provider, ModelRequestStarted, TurnLoop, model_eq, next_epoch, automatic_failover,
}
use pi_rs.Runtime.Turn.Recovering.{at_backup, is_named}
use pi_rs.Runtime.Turn.Rounds.{asked}

-- The requests that may follow: those left of the budget for the active model, and a whole budget
-- for the backup where it is not active yet.
abbrev pub room : TurnLoop → ℕ → ℕ
room t attempts =
    t.failover.max_attempts - attempts + (if at_backup t then 0 else t.failover.max_attempts)

-- How often a model was asked, by the starts of requests among the envelopes.
pub times_asked : ModelRef → List ModelRequestStarted → ℕ
times_asked m [] = 0
times_asked m (s ∷ ss) = (if model_eq m s.model then 1 else 0) + times_asked m ss

-- The same room for one model: no other than the active model and the backup has any.
abbrev pub room_of : ModelRef → TurnLoop → ℕ → ℕ
room_of m t attempts =
    if model_eq m t.epoch.model
    then t.failover.max_attempts - attempts
    else if is_named t.failover.backup m
    then t.failover.max_attempts
    else 0

text_eq_self : (a : Text) → text_eq a a ≡ true
text_eq_self a = (text_eq_iff a a).1 refl

model_eq_self : (m : ModelRef) → model_eq m m ≡ true
model_eq_self m = rw (text_eq_self m.provider, text_eq_self m.model)

-- A model that equals another has what the other has.
model_eq_carries :
    (a b c : ModelRef) → model_eq a b ≡ true → model_eq b c ≡ false → model_eq a c ≡ false
model_eq_carries a b c h k =
    let e : a.provider ≡ b.provider = (text_eq_iff _ _).0 (ground arith) in
    let e' : a.model ≡ b.model = (text_eq_iff _ _).0 (ground arith) in rw (e, e') k

pub at_backup-next_epoch :
    (t : TurnLoop) (p : Provider)
    → t.failover.backup ≡ some p.model
    → at_backup (next_epoch t p automatic_failover) ≡ true
at_backup-next_epoch t p h = rw (h, model_eq_self p.model)

times_asked-append :
    (m : ModelRef) (ss : List ModelRequestStarted) (s : ModelRequestStarted)
    → times_asked m (ss ++ s ∷ []) ≡ times_asked m ss + (if model_eq m s.model then 1 else 0)
unfolding times_asked
times_asked-append m [] s = omega arith
times_asked-append m (x ∷ ss) s = omega (arith, times_asked-append m ss s)

-- A request takes one from the room of the active model, and nothing from that of another.
pub asked-room_of :
    (t : TurnLoop) (n : ℕ) (m : ModelRef)
    → n < t.failover.max_attempts
    → times_asked m (asked t).envelopes + room_of m t (n + 1)
      ≡ times_asked m t.envelopes + room_of m t n
asked-room_of t n m h =
    let more =
      times_asked-append m t.envelopes (record { epoch = t.epoch.index; model = t.epoch.model }) in
    ground (arith, more, h)

room_either : (b : Bool) (k : ℕ) → (if b then k - 0 else if b then k else 0) ≤ (if b then k else 0)
room_either b k = ground arith

-- Behind the switch the backup has the room that it had before.
pub next_epoch-room_of :
    (t : TurnLoop) (p : Provider) (n : ℕ) (m : ModelRef)
    → at_backup t ≡ false
    → t.failover.backup ≡ some p.model
    → room_of m (next_epoch t p automatic_failover) 0 ≤ room_of m t n
next_epoch-room_of t p n m away named =
    let apart : model_eq t.epoch.model p.model ≡ false =
      sym (ap (λ (o : Option ModelRef). is_named o t.epoch.model) named) ∙ away in
    let here : is_named t.failover.backup m ≡ model_eq m p.model =
      ap (λ (o : Option ModelRef). is_named o m) named in
    elim (Bool-cases (model_eq m t.epoch.model)) [
      | inl e ↦
          let other = model_eq_carries m t.epoch.model p.model e apart in
          rw (here, other) (omega arith)
      | inr e ↦ rw (here, e) (room_either (model_eq m p.model) t.failover.max_attempts)
    ]
