-- ===== src/Store/Retention/Spared.antt =====
-- crates/rupi-store/src/retention.rs: which sessions no pass deletes.
use pi_rs.Prelude.{
  ℕ, suc, ◌+◌, ◌≤◌, ◌≡◌, refl, sym, ap, ◌∙◌, subst, Bool, true, false, ◌&&◌, Option, none, some,
  List, [], ◌∷◌, ◌++◌, map, arith, get_elem?, length, min, ltb, if◌then◌else◌,
}
use pi_rs.Prelude.Text.{Text}
use pi_rs.Store.Retention.{
  StoreResult, ok, failed, Layout, TraceRetention, Plan, Candidate, Gathered, session_started_ms,
  count_leased, count_undated, add_candidate, with_bytes, gather, insert_sorted, sort, sweep,
  plan_swept, plan_gathered, plan_ids, plan, age_limit_of, victim, is_none,
}
use pi_rs.Store.Retention.Sweep.{sweep-sort}

-- The session `id` of `bytes` is one of `ids`, of which the first has the number `off`; it is not one
-- of the newest, nobody holds it, its size is the one given, and its identifier tells when it began.
pub record MayGo (l : Layout) (keep_newest off : ℕ) (ids : List Text) (id : Text) (bytes : ℕ)
    : Type 0 where
  pub number : ℕ
  pub old : keep_newest ≤ off + number
  pub listed : get_elem? ids number ≡ some id
  pub free : l.is_active id ≡ false
  pub sized : l.session_bytes id ≡ ok bytes
  pub began : ℕ
  pub dated : session_started_ms id ≡ some began

module _ (l : Layout) (keep_newest : ℕ) where
  abbrev AllMayGo : ℕ → List Text → List Candidate → Type 0
  AllMayGo off ids [] = Unit
  AllMayGo off ids (c ∷ cs) = MayGo l keep_newest off ids c.id c.bytes × AllMayGo off ids cs

  abbrev Gathers : ℕ → List Text → StoreResult Gathered → Type 0
  Gathers off ids (failed e) = Unit
  Gathers off ids (ok g) = AllMayGo off ids g.candidates

  later :
      (off : ℕ) (id : Text) (ids : List Text) (cs : List Candidate)
      → AllMayGo (off + 1) ids cs
      → AllMayGo off (id ∷ ids) cs
  later off id ids [] h = tt
  later off id ids (c ∷ cs) h = (
    record {
      number = suc h.0.number;
      old = omega (arith, h.0.old);
      listed = h.0.listed;
      free = h.0.free;
      sized = h.0.sized;
      began = h.0.began;
      dated = h.0.dated;
    },
    later off id ids cs h.1,
  )

  later-Gathers :
      (off : ℕ) (id : Text) (ids : List Text) (r : StoreResult Gathered)
      → Gathers (off + 1) ids r
      → Gathers off (id ∷ ids) r
  later-Gathers off id ids (failed e) h = tt
  later-Gathers off id ids (ok g) h = later off id ids g.candidates h

  count_leased-Gathers :
      (off : ℕ) (ids : List Text) (r : StoreResult Gathered)
      → Gathers off ids r
      → Gathers off ids (count_leased r)
  unfolding count_leased
  count_leased-Gathers off ids (failed e) h = tt
  count_leased-Gathers off ids (ok g) h = h

  with_bytes-Gathers :
      (off : ℕ) (id : Text) (ids : List Text) (size : StoreResult ℕ) (started : Option ℕ)
      (r : StoreResult Gathered)
      → keep_newest ≤ off
      → l.is_active id ≡ false
      → l.session_bytes id ≡ size
      → session_started_ms id ≡ started
      → Gathers off (id ∷ ids) r
      → Gathers off (id ∷ ids) (with_bytes id size started r)
  unfolding with_bytes count_undated add_candidate
  with_bytes-Gathers off id ids (failed e) started r old free sized dated h = tt
  with_bytes-Gathers off id ids (ok bytes) none (failed e) old free sized dated h = tt
  with_bytes-Gathers off id ids (ok bytes) none (ok g) old free sized dated h = h
  with_bytes-Gathers off id ids (ok bytes) (some began) (failed e) old free sized dated h = tt
  with_bytes-Gathers off id ids (ok bytes) (some began) (ok g) old free sized dated h = (
    record {
      number = 0;
      old = omega (arith, old);
      listed = refl;
      free = free;
      sized = sized;
      began = began;
      dated = dated;
    },
    h,
  )

  if-Gathers :
      (off : ℕ) (ids : List Text) (b : Bool) (x y : StoreResult Gathered)
      → (b ≡ true → Gathers off ids x)
      → (b ≡ false → Gathers off ids y)
      → Gathers off ids (if b then x else y)
  if-Gathers off ids true x y h k = h refl
  if-Gathers off ids false x y h k = k refl

  gather-Gathers : (off : ℕ) (ids : List Text) → Gathers off ids (gather l keep_newest off ids)
  unfolding gather
  gather-Gathers off [] = tt
  gather-Gathers off (id ∷ ids) =
      let rest =
        later-Gathers off id ids (gather l keep_newest (off + 1) ids)
          (gather-Gathers (off + 1) ids) in
      if-Gathers off (id ∷ ids) (ltb off keep_newest) _ _ (λ _. rest)
        λ old.
          if-Gathers off (id ∷ ids) (l.is_active id) _ _
            (λ _. count_leased-Gathers off (id ∷ ids) (gather l keep_newest (off + 1) ids) rest)
            λ free.
              with_bytes-Gathers off id ids (l.session_bytes id) (session_started_ms id)
                (gather l keep_newest (off + 1) ids) (ground (arith, old)) free refl refl rest

  insert-AllMayGo :
      (off : ℕ) (ids : List Text) (c : Candidate) (cs : List Candidate)
      → MayGo l keep_newest off ids c.id c.bytes
      → AllMayGo off ids cs
      → AllMayGo off ids (insert_sorted c cs)
  unfolding insert_sorted
  insert-AllMayGo off ids c [] h k = (h, tt)
  insert-AllMayGo off ids c (d ∷ ds) h k = ground (arith, insert-AllMayGo off ids c ds h k.1)

  sort-AllMayGo :
      (off : ℕ) (ids : List Text) (cs : List Candidate)
      → AllMayGo off ids cs
      → AllMayGo off ids (sort cs)
  unfolding sort
  sort-AllMayGo off ids [] h = tt
  sort-AllMayGo off ids (c ∷ cs) h =
      insert-AllMayGo off ids c (sort cs) h.0 (sort-AllMayGo off ids cs h.1)

  front :
      (off : ℕ) (ids : List Text) (xs ys : List Candidate)
      → AllMayGo off ids (xs ++ ys)
      → AllMayGo off ids xs
  front off ids [] ys h = tt
  front off ids (x ∷ xs) ys h = (h.0, front off ids xs ys h.1)

abbrev pub AllVictims : (Text → ℕ → Type 0) → List (Text × ℕ) → Type 0
AllVictims P [] = Unit
AllVictims P ((id, bytes) ∷ vs) = P id bytes × AllVictims P vs

victims-AllVictims :
    (l : Layout) (keep_newest : ℕ) (ids : List Text) (cs : List Candidate)
    → AllMayGo l keep_newest 0 ids cs
    → AllVictims (MayGo l keep_newest 0 ids) (map victim cs)
victims-AllVictims l keep_newest ids [] h = tt
victims-AllVictims l keep_newest ids (c ∷ cs) h = (h.0, victims-AllVictims l keep_newest ids cs h.1)

abbrev Plans : (Text → ℕ → Type 0) → StoreResult Plan → Type 0
Plans P (failed e) = Unit
Plans P (ok p) = AllVictims P p.victims

plan_gathered-Plans :
    (l : Layout) (r : TraceRetention) (now_ms total protected keep_newest : ℕ) (ids : List Text)
    (g : StoreResult Gathered)
    → Gathers l keep_newest 0 ids g
    → Plans (MayGo l keep_newest 0 ids) (plan_gathered r now_ms total protected g)
unfolding plan_gathered plan_swept
plan_gathered-Plans l r now_ms total protected keep_newest ids (failed e) h = tt
plan_gathered-Plans l r now_ms total protected keep_newest ids (ok g) h =
    let limit = age_limit_of r.max_age_days now_ms in
    let (swept, _) = sweep-sort limit r.max_bytes total g.candidates in
    victims-AllVictims l keep_newest ids _ (
      front l keep_newest 0 ids (sweep limit r.max_bytes total (sort g.candidates)).0 swept.kept (
        subst (AllMayGo l keep_newest 0 ids) swept.parts
          (sort-AllMayGo l keep_newest 0 ids g.candidates h)))

if-Plans :
    (P : Text → ℕ → Type 0) (b : Bool) (x y : StoreResult Plan)
    → Plans P x
    → Plans P y
    → Plans P (if b then x else y)
if-Plans P true x y h k = h
if-Plans P false x y h k = k

plan_ids-Plans :
    (l : Layout) (r : TraceRetention) (now_ms keep_newest : ℕ) (ids : List Text)
    (total : StoreResult ℕ)
    → Plans (MayGo l keep_newest 0 ids) (plan_ids l r now_ms keep_newest (ok ids) total)
unfolding plan_ids
plan_ids-Plans l r now_ms keep_newest ids (failed e) = tt
plan_ids-Plans l r now_ms keep_newest ids (ok total) =
    if-Plans (MayGo l keep_newest 0 ids) (is_none r.max_age_days && is_none r.max_bytes) _ _ tt (
      plan_gathered-Plans l r now_ms total (min (length ids) keep_newest) keep_newest ids
        (gather l keep_newest 0 ids) (gather-Gathers l keep_newest 0 ids))

-- Whatever the bounds are, each victim of a plan is a listed session with its size, not one of the
-- `keep_newest` newest, not held by anybody, and one whose identifier tells when it began.
pub plan-MayGo :
    (l : Layout) (r : TraceRetention) (now_ms keep_newest : ℕ) (ids : List Text) (p : Plan)
    → l.list_session_ids ≡ ok ids
    → plan l r now_ms keep_newest ≡ ok p
    → AllVictims (MayGo l keep_newest 0 ids) p.victims
unfolding plan
plan-MayGo l r now_ms keep_newest ids p listed made =
    subst (Plans (MayGo l keep_newest 0 ids))
      (ap (λ (x : StoreResult (List Text)). plan_ids l r now_ms keep_newest x l.state_bytes)
          (sym listed)
        ∙ made)
      (plan_ids-Plans l r now_ms keep_newest ids l.state_bytes)
