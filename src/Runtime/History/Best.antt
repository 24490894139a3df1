-- ===== src/Runtime/History/Best.antt =====
-- crates/rupi-runtime/src/turn.rs: the numbers that the loop and the searches end at.
use pi_rs.Prelude.{
  ℕ, ◌-◌, ◌≤◌, ◌<◌, ◌≡◌, ◌⊎◌, inl, inr, refl, sym, subst, ◌∙◌, Bool, true, ◌&&◌, Option, none, some,
  ltb, leb, leb→le, le→leb, Bool-cases, arith,
}
use pi_rs.Runtime.History.{desired_drop, find_up, find_down, or_zero, or_else}
use pi_rs.Runtime.History.Searches.{
  find_down-found, find_up-found, find_down-finds, find_up-finds, find_down-greatest, find_up-least,
  desired_drop-stops, desired_drop-needed, desired_drop-le,
}

le_lt_absurd : (a b : ℕ) → a ≤ b → b < a → ⊥
le_lt_absurd a b h k = omega arith

none-ne-some : (n : ℕ) → ◌≡◌ {A = Option ℕ} none (some n) → ⊥
none-ne-some n h = cc

and-true : (a b : Bool) → a ≡ true → b ≡ true → (a && b) ≡ true
and-true a b h k = ground arith

and-left : (a b : Bool) → (a && b) ≡ true → a ≡ true
and-left a b h = ground arith

and-right : (a b : Bool) → (a && b) ≡ true → b ≡ true
and-right a b h = ground arith

pub record IsLeast (P : ℕ → Type 0) (n : ℕ) : Type 0 where
  pub holds : P n
  pub least : (m : ℕ) → P m → n ≤ m

pub record IsGreatest (P : ℕ → Type 0) (n : ℕ) : Type 0 where
  pub holds : P n
  pub greatest : (m : ℕ) → P m → m ≤ n

module _ (size : ℕ → ℕ) (target max_drop : ℕ) (safe : ℕ → Bool) where
  abbrev pub Needed : ℕ → Type 0
  Needed n = (n ≤ max_drop) × (safe n ≡ true) × ((m : ℕ) → m < n → target < size m)

  abbrev pub Fitting : ℕ → Type 0
  Fitting n = (n ≤ max_drop) × (safe n ≡ true) × (size n ≤ target)

  abbrev desired : ℕ
  desired = desired_drop size target max_drop 0

  abbrev fits : ℕ → Bool
  fits n = safe n && leb (size n) target

  desired-le : desired ≤ max_drop
  desired-le = omega (arith, (desired_drop-le size target max_drop 0).1)

  Needed-le : (n : ℕ) → Needed n → n ≤ desired
  Needed-le n (low, ok, over) = elim (Bool-cases (ltb desired n)) [
    | inl e ↦ absurd (
        le_lt_absurd _ _ (desired_drop-stops size target max_drop 0 (ground arith))
          (over desired (ground arith)))
    | inr e ↦ ground arith
  ]

  Fitting-ge : (n : ℕ) → Fitting n → desired ≤ n
  Fitting-ge n (low, ok, small) = elim (Bool-cases (ltb n desired)) [
    | inl e ↦ absurd (
        le_lt_absurd _ _ small
          (desired_drop-needed size target max_drop 0 n (omega arith) (ground arith)))
    | inr e ↦ ground arith
  ]

  pub down-IsGreatest : safe 0 ≡ true → IsGreatest Needed (or_zero (find_down safe desired))
  down-IsGreatest h =
      let (n, found) = find_down-finds safe desired h in
      let (low, ok) = find_down-found safe desired n found in
      subst (λ (o : Option ℕ). IsGreatest Needed (or_zero o)) (sym found)
        (record {
          holds = (
            omega (arith, desired-le),
            ok,
            λ m short. desired_drop-needed size target max_drop 0 m (omega arith) (omega arith),
          );
          greatest =
              λ m needed. find_down-greatest safe desired n m found (Needed-le m needed) (needed.1);
        })

  pub up_or_down :
      safe 0 ≡ true
      → IsLeast Fitting
          (or_zero (or_else (find_up fits (max_drop - desired) desired) (find_down safe desired)))
        ⊎ (((n : ℕ) → ¬ Fitting n)
            × IsGreatest Needed (
                or_zero
                  (or_else (find_up fits (max_drop - desired) desired) (find_down safe desired))))
  up_or_down h = by_search (find_up fits (max_drop - desired) desired) refl
    where
      by_search :
          (o : Option ℕ)
          → find_up fits (max_drop - desired) desired ≡ o
          → IsLeast Fitting (or_zero (or_else o (find_down safe desired)))
            ⊎ (((n : ℕ) → ¬ Fitting n)
                × IsGreatest Needed (or_zero (or_else o (find_down safe desired))))
      by_search none missing = inr (
        λ n f.
            let (m, found) =
              find_up-finds fits (max_drop - desired) desired n (Fitting-ge n f)
                (omega (arith, f.0, desired-le)) (and-true _ _ (f.1) (le→leb _ _ (f.2))) in
            absurd (none-ne-some m (sym missing ∙ found)),
        down-IsGreatest h,
      )
      by_search (some k) found =
          let (low, ok) = find_up-found fits (max_drop - desired) desired k found in
          inl (record {
            holds = (omega (arith, desired-le), and-left _ _ ok, leb→le _ _ (and-right _ _ ok));
            least = λ m f.
                find_up-least fits (max_drop - desired) desired k m found (Fitting-ge m f)
                  (and-true _ _ (f.1) (le→leb _ _ (f.2)));
          })
