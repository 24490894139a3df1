-- ===== src/Store/Retention/Sweep.antt =====
-- crates/rupi-store/src/retention.rs: the loop that picks the victims.
use pi_rs.Prelude.{
  ℕ, ◌-◌, ◌≤◌, ◌≡◌, refl, ap, ◌⊎◌, inl, inr, Bool, true, false, ◌||◌, Option, none, some, List, [],
  ◌∷◌, ◌++◌, arith, leb, leb→le, leb→lt, Bool-cases,
}
use pi_rs.Store.Retention.{Candidate, insert_sorted, sort, expired, oversized, sweep, sum_bytes}

abbrev pub FromOn : ℕ → List Candidate → Type 0
FromOn n [] = Unit
FromOn n (c ∷ cs) = (n ≤ c.started) × FromOn n cs

-- Oldest first.
abbrev pub IsSorted : List Candidate → Type 0
IsSorted [] = Unit
IsSorted (c ∷ cs) = FromOn c.started cs × IsSorted cs

-- Each victim is expired, or the bytes at its turn exceed the cap.
abbrev pub AreDue : Option ℕ → Option ℕ → ℕ → List Candidate → Type 0
AreDue age_limit cap remaining [] = Unit
AreDue age_limit cap remaining (c ∷ cs) =
    (expired age_limit c.started || oversized cap remaining ≡ true)
    × AreDue age_limit cap (remaining - c.bytes) cs

abbrev pub NoneExpired : Option ℕ → List Candidate → Type 0
NoneExpired age_limit [] = Unit
NoneExpired age_limit (c ∷ cs) = (expired age_limit c.started ≡ false) × NoneExpired age_limit cs

-- What a sweep of the candidates `cs` should give.
pub record Sweeps (age_limit cap : Option ℕ) (total : ℕ) (cs : List Candidate)
    (swept : List Candidate × ℕ) : Type 0 where
  pub kept : List Candidate
  pub parts : cs ≡ swept.0 ++ kept
  pub due : AreDue age_limit cap total swept.0
  pub left : swept.1 ≡ total - sum_bytes swept.0
  pub none_expired : NoneExpired age_limit kept
  pub within_cap : (kept ≡ []) ⊎ (oversized cap swept.1 ≡ false)

FromOn-weaken : (m n : ℕ) (cs : List Candidate) → m ≤ n → FromOn n cs → FromOn m cs
FromOn-weaken m n [] h k = tt
FromOn-weaken m n (c ∷ cs) h k = (omega (arith, h, k.0), FromOn-weaken m n cs h k.1)

insert-FromOn :
    (n : ℕ) (c : Candidate) (cs : List Candidate)
    → n ≤ c.started
    → FromOn n cs
    → FromOn n (insert_sorted c cs)
unfolding insert_sorted
insert-FromOn n c [] h k = (h, tt)
insert-FromOn n c (d ∷ ds) h k = ground (arith, insert-FromOn n c ds h k.1)

insert-IsSorted :
    (c : Candidate) (cs : List Candidate) → IsSorted cs → IsSorted (insert_sorted c cs)
unfolding insert_sorted
insert-IsSorted c [] h = (tt, tt)
insert-IsSorted c (d ∷ ds) h = elim (Bool-cases (leb c.started d.started)) [
  | inl e ↦
      let le = leb→le c.started d.started e in
      rw e ((le, FromOn-weaken c.started d.started ds le h.0), h)
  | inr e ↦ rw e (
    insert-FromOn d.started c ds (omega (arith, leb→lt c.started d.started e)) h.0,
    insert-IsSorted c ds h.1,
  )
]

pub sort-IsSorted : (cs : List Candidate) → IsSorted (sort cs)
unfolding sort
sort-IsSorted [] = tt
sort-IsSorted (c ∷ cs) = insert-IsSorted c (sort cs) (sort-IsSorted cs)

-- Behind a candidate that is not expired, none is.
fresh :
    (age_limit : Option ℕ) (n : ℕ) (cs : List Candidate)
    → expired age_limit n ≡ false
    → FromOn n cs
    → NoneExpired age_limit cs
fresh age_limit n [] h k = tt
fresh none n (c ∷ cs) h k = (refl, fresh none n cs h k.1)
fresh (some limit) n (c ∷ cs) h k = (ground (arith, k.0), fresh (some limit) n cs h k.1)

or_false : (a b : Bool) → a || b ≡ false → (a ≡ false) × (b ≡ false)
or_false true b h = ground arith
or_false false b h = (refl, h)

sweep-Sweeps :
    (age_limit cap : Option ℕ) (total : ℕ) (cs : List Candidate)
    → IsSorted cs
    → Sweeps age_limit cap total cs (sweep age_limit cap total cs)
unfolding sweep sum_bytes
sweep-Sweeps age_limit cap total [] h = record {
  kept = [];
  parts = refl;
  due = tt;
  left = omega arith;
  none_expired = tt;
  within_cap = inl refl;
}
sweep-Sweeps age_limit cap total (c ∷ cs) h =
    let rest = sweep-Sweeps age_limit cap (total - c.bytes) cs h.1 in
    elim (Bool-cases (expired age_limit c.started || oversized cap total)) [
      | inl e ↦ rw e (record {
        kept = rest.kept;
        parts = ap (λ (ds : List Candidate). c ∷ ds) rest.parts;
        due = (e, rest.due);
        left = omega (arith, rest.left);
        none_expired = rest.none_expired;
        within_cap = rest.within_cap;
      })
      | inr e ↦
          let (young, small) = or_false (expired age_limit c.started) (oversized cap total) e in
          rw e (record {
            kept = c ∷ cs;
            parts = refl;
            due = tt;
            left = omega arith;
            none_expired = (young, fresh age_limit c.started cs young h.0);
            within_cap = inr small;
          })
    ]

-- A sweep of the candidates, oldest first, takes them from the front: each victim is expired or
-- falls while the bytes exceed the cap; no candidate that is kept is expired, and if any is kept the
-- bytes are within the cap; the bytes that remain are the total without the victims'.
pub sweep-sort :
    (age_limit cap : Option ℕ) (total : ℕ) (cs : List Candidate)
    → Sweeps age_limit cap total (sort cs) (sweep age_limit cap total (sort cs))
      × IsSorted (sort cs)
sweep-sort age_limit cap total cs =
    (sweep-Sweeps age_limit cap total (sort cs) (sort-IsSorted cs), sort-IsSorted cs)
