-- ===== src/Store/Retention.antt =====
-- crates/rupi-store/src/retention.rs: which sessions a retention pass deletes. What the pass reads from
-- the directory of sessions, layout.rs and lease.rs, is the record `Layout`; an I/O error is a code.
pub mod Sweep
pub mod Spared
pub mod Pass
mod Tests
use pi_rs.Prelude.{
  ℕ, zero, suc, ◌+◌, ◌-◌, ◌*◌, ◌^◌, Bool, true, false, not, ◌&&◌, ◌||◌, Option, none, some, List,
  [], ◌∷◌, map, length, take, min, ltb, leb, ◌==◌, if◌then◌else◌,
}
use pi_rs.Prelude.Text.{Text, within}

pub data StoreResult {ℓ} (A : Type ℓ) : Type ℓ where
  ok : A → StoreResult A
  failed : ℕ → StoreResult A

-- `list_session_ids` gives the newest first.
pub record Layout : Type 0 where
  pub list_session_ids : StoreResult (List Text)
  pub state_bytes : StoreResult ℕ
  pub is_active : Text → Bool
  pub session_bytes : Text → StoreResult ℕ

pub record TraceRetention : Type 0 where
  pub max_age_days : Option ℕ
  pub max_bytes : Option ℕ

pub record RetentionReport : Type 0 where
  pub removed : List (Text × ℕ)
  pub freed_bytes : ℕ
  pub remaining_bytes : ℕ
  pub protected : ℕ
  pub undated : ℕ
  pub leased : ℕ

pub record Plan : Type 0 where
  pub report : RetentionReport
  pub victims : List (Text × ℕ)

pub record Candidate : Type 0 where
  pub started : ℕ
  pub id : Text
  pub bytes : ℕ

-- `is_ascii_hexdigit`, and the digit's value.
unfoldable pub is_hex : ℕ → Bool
is_hex c = within b'0' b'9' c || within b'a' b'f' c || within b'A' b'F' c

unfoldable pub digit : ℕ → ℕ
digit c = if leb c b'9' then c - b'0' else if leb c b'F' then c - b'A' + 10 else c - b'a' + 10

unfoldable pub all_hex : Text → Bool
unfolding is_hex
all_hex [] = true
all_hex (c ∷ s) = is_hex c && all_hex s

-- `u64::from_str_radix` with base 16, of digits: twelve of them do not overflow.
unfoldable pub from_hex : ℕ → Text → ℕ
unfolding digit
from_hex value [] = value
from_hex value (c ∷ s) = from_hex (value * 16 + digit c) s

unfoldable pub without_dashes : Text → Text
without_dashes [] = []
without_dashes (c ∷ s) = if c == b'-' then without_dashes s else c ∷ without_dashes s

unfoldable pub session_started_ms : Text → Option ℕ
unfolding all_hex from_hex without_dashes
session_started_ms id =
    let hex = take 12 (without_dashes id) in
    if not (length hex == 12) || not (all_hex hex)
    then none
    else if ltb (from_hex 0 hex) 1000000000000
    then none
    else some (from_hex 0 hex)

-- What the loop over the identifiers has counted and gathered.
pub record Gathered : Type 0 where
  pub g_leased : ℕ
  pub g_undated : ℕ
  pub candidates : List Candidate

unfoldable pub count_leased : StoreResult Gathered → StoreResult Gathered
count_leased (failed e) = failed e
count_leased (ok g) = ok (record g { g_leased = g.g_leased + 1 })

unfoldable pub count_undated : StoreResult Gathered → StoreResult Gathered
count_undated (failed e) = failed e
count_undated (ok g) = ok (record g { g_undated = g.g_undated + 1 })

unfoldable pub add_candidate : Candidate → StoreResult Gathered → StoreResult Gathered
add_candidate c (failed e) = failed e
add_candidate c (ok g) = ok (record g { candidates = c ∷ g.candidates })

-- The `match` on when the session started, behind the read of its size.
unfoldable pub with_bytes :
    Text → StoreResult ℕ → Option ℕ → StoreResult Gathered → StoreResult Gathered
unfolding count_undated add_candidate
with_bytes id (failed e) started rest = failed e
with_bytes id (ok bytes) none rest = count_undated rest
with_bytes id (ok bytes) (some started) rest =
    add_candidate (record { started = started; id = id; bytes = bytes }) rest

-- The loop over the identifiers, of which the first here has the number `index`.
unfoldable pub gather : Layout → ℕ → ℕ → List Text → StoreResult Gathered
unfolding count_leased with_bytes session_started_ms
gather l keep_newest index [] = ok (record { g_leased = 0; g_undated = 0; candidates = [] })
gather l keep_newest index (id ∷ ids) =
    let rest = gather l keep_newest (index + 1) ids in
    if ltb index keep_newest
    then rest
    else if l.is_active id
    then count_leased rest
    else with_bytes id (l.session_bytes id) (session_started_ms id) rest

-- `sort_by_key` by the start, which is stable.
unfoldable pub insert_sorted : Candidate → List Candidate → List Candidate
insert_sorted c [] = c ∷ []
insert_sorted c (d ∷ ds) = if leb c.started d.started then c ∷ d ∷ ds else d ∷ insert_sorted c ds

unfoldable pub sort : List Candidate → List Candidate
unfolding insert_sorted
sort [] = []
sort (c ∷ cs) = insert_sorted c (sort cs)

abbrev pub expired : Option ℕ → ℕ → Bool
expired none started = false
expired (some limit) started = ltb started limit

abbrev pub oversized : Option ℕ → ℕ → Bool
oversized none remaining = false
oversized (some limit) remaining = ltb limit remaining

-- The loop over the candidates: the victims, and the bytes that remain.
unfoldable pub sweep : Option ℕ → Option ℕ → ℕ → List Candidate → List Candidate × ℕ
sweep age_limit cap remaining [] = ([], remaining)
sweep age_limit cap remaining (c ∷ cs) =
    let rest = sweep age_limit cap (remaining - c.bytes) cs in
    if expired age_limit c.started || oversized cap remaining
    then (c ∷ rest.0, rest.1)
    else ([], remaining)

abbrev pub day_ms : ℕ
day_ms = 86400000

unfoldable pub age_limit_of : Option ℕ → ℕ → Option ℕ
age_limit_of none now_ms = none
age_limit_of (some days) now_ms = some (now_ms - min (days * day_ms) (2 ^ 64 - 1))

unfoldable pub sum_bytes : List Candidate → ℕ
sum_bytes [] = 0
sum_bytes (c ∷ cs) = c.bytes + sum_bytes cs

abbrev pub victim : Candidate → Text × ℕ
victim c = (c.id, c.bytes)

-- From the gathered candidates to the plan.
unfoldable pub plan_swept : ℕ → Gathered → List Candidate × ℕ → Plan
unfolding sum_bytes
plan_swept protected g (victims, remaining) = record {
  report = record {
    removed = map victim victims;
    freed_bytes = sum_bytes victims;
    remaining_bytes = remaining;
    protected = protected;
    undated = g.g_undated;
    leased = g.g_leased;
  };
  victims = map victim victims;
}

unfoldable pub plan_gathered : TraceRetention → ℕ → ℕ → ℕ → StoreResult Gathered → StoreResult Plan
unfolding plan_swept sweep sort age_limit_of
plan_gathered r now_ms total protected (failed e) = failed e
plan_gathered r now_ms total protected (ok g) = ok (
    plan_swept protected g
      (sweep (age_limit_of r.max_age_days now_ms) r.max_bytes total (sort g.candidates)))

abbrev pub is_none : Option ℕ → Bool
is_none none = true
is_none (some n) = false

unfoldable pub plan_ids :
    Layout → TraceRetention → ℕ → ℕ → StoreResult (List Text) → StoreResult ℕ → StoreResult Plan
unfolding plan_gathered gather
plan_ids l r now_ms keep_newest (failed e) total = failed e
plan_ids l r now_ms keep_newest (ok ids) (failed e) = failed e
plan_ids l r now_ms keep_newest (ok ids) (ok total) =
    let protected = min (length ids) keep_newest in
    if is_none r.max_age_days && is_none r.max_bytes
    then ok (record {
      report = record {
        removed = [];
        freed_bytes = 0;
        remaining_bytes = total;
        protected = protected;
        undated = 0;
        leased = 0;
      };
      victims = [];
    })
    else plan_gathered r now_ms total protected (gather l keep_newest 0 ids)

unfoldable pub plan : Layout → TraceRetention → ℕ → ℕ → StoreResult Plan
unfolding plan_ids
plan l r now_ms keep_newest = plan_ids l r now_ms keep_newest l.list_session_ids l.state_bytes
