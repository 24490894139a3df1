-- ===== src/Runtime/History/Choice.antt =====
-- crates/rupi-runtime/src/turn.rs: how many messages `evict_oldest_with_estimate` takes out.
use pi_rs.Prelude.{
  ℕ, ◌+◌, ◌-◌, ◌≤◌, ◌≡◌, ◌⊎◌, inl, inr, refl, Bool, true, false, ◌&&◌, Option, none, some, List,
  length, leb, arith,
}
use pi_rs.Core.Message.{Message}
use pi_rs.Runtime.History.{
  safe_eviction_boundary, desired_drop, find_up, find_down, or_zero, or_else, size_after,
  choose_drop,
}
use pi_rs.Runtime.History.Searches.{find_down-found, find_up-found, desired_drop-le}
use pi_rs.Runtime.History.Best.{IsLeast, IsGreatest, Needed, Fitting, down-IsGreatest, up_or_down}

-- A choice of how many messages go, by what holds of every number that a search can give.
or_zero-cases :
    (o : Option ℕ) (P : ℕ → Type 0) → ((n : ℕ) → o ≡ some n → P n) → (or_zero o ≡ 0) ⊎ P (or_zero o)
or_zero-cases none P h = inl refl
or_zero-cases (some n) P h = inr (h n refl)

or_else-cases :
    (o other : Option ℕ) (P : ℕ → Type 0)
    → ((n : ℕ) → o ≡ some n → P n)
    → ((n : ℕ) → other ≡ some n → P n)
    → (n : ℕ) → or_else o other ≡ some n
    → P n
or_else-cases none other P h k n e = k n e
or_else-cases (some m) other P h k n e = h n e

module _ (size : Bool → List Message → ℕ) (ms : List Message) (start end target : ℕ) where
  abbrev pub SafeDrop : ℕ → Type 0
  SafeDrop n = (n ≤ end - start) × (safe_eviction_boundary ms start (start + n) end ≡ true)

  abbrev desired : Bool → ℕ
  desired prompt_only = desired_drop (size_after size ms start prompt_only) target (end - start) 0

  abbrev fits : ℕ → Bool
  fits n =
      safe_eviction_boundary ms start (start + n) end
      && leb (size_after size ms start true n) target

  down-SafeDrop :
      (prompt_only : Bool) (n : ℕ)
      → find_down (λ (n : ℕ). safe_eviction_boundary ms start (start + n) end) (desired prompt_only)
        ≡ some n
      → SafeDrop n
  down-SafeDrop prompt_only n h =
      let (low, ok) = find_down-found _ (desired prompt_only) n h in
      let (_, high) =
        desired_drop-le (size_after size ms start prompt_only) target (end - start) 0 in
      (omega arith, ok)

  up-SafeDrop :
      (n : ℕ) → find_up fits (end - start - desired true) (desired true) ≡ some n → SafeDrop n
  up-SafeDrop n h =
      let (low, ok) = find_up-found fits (end - start - desired true) (desired true) n h in
      let (_, high) = desired_drop-le (size_after size ms start true) target (end - start) 0 in
      (omega arith, ground arith)

  -- How many messages go is none, or a number in range behind which the history may be cut.
  pub choose_drop-SafeDrop :
      (prompt_only : Bool)
      → (choose_drop size ms start end target prompt_only ≡ 0)
        ⊎ SafeDrop (choose_drop size ms start end target prompt_only)
  unfolding choose_drop
  choose_drop-SafeDrop true =
      or_zero-cases _ SafeDrop (or_else-cases _ _ SafeDrop up-SafeDrop (down-SafeDrop true))
  choose_drop-SafeDrop false = or_zero-cases _ SafeDrop (down-SafeDrop false)

  -- The numbers in range at which the history may be cut, and below which every request is too large;
  -- and those that leave a prompt that fits.
  abbrev pub NeededDrop : Bool → ℕ → Type 0
  NeededDrop prompt_only =
      Needed (size_after size ms start prompt_only) target (end - start)
        λ (n : ℕ). safe_eviction_boundary ms start (start + n) end

  abbrev pub FittingDrop : ℕ → Type 0
  FittingDrop =
      Fitting (size_after size ms start true) target (end - start)
        λ (n : ℕ). safe_eviction_boundary ms start (start + n) end

  zero_safe :
      start ≤ end → start ≤ length ms → safe_eviction_boundary ms start (start + 0) end ≡ true
  unfolding safe_eviction_boundary
  zero_safe h k = ground arith

  -- Where the part of the history that may go lies in it, the number of messages that go is the best
  -- one. With the answer's room counted, it is the greatest of the numbers at which the history may be
  -- cut and below which every request is above the target. For the prompt alone, it is the least of
  -- the numbers at which the history may be cut and the prompt is within the target; if there is none,
  -- it is the greatest of those below which every prompt is above the target.
  pub choose_drop-best :
      start ≤ end
      → start ≤ length ms
      → IsGreatest (NeededDrop false) (choose_drop size ms start end target false)
        × (IsLeast FittingDrop (choose_drop size ms start end target true)
            ⊎ (((n : ℕ) → ¬ FittingDrop n)
                × IsGreatest (NeededDrop true) (choose_drop size ms start end target true)))
  unfolding choose_drop
  choose_drop-best h k = (
    down-IsGreatest (size_after size ms start false) target (end - start) _ (zero_safe h k),
    up_or_down (size_after size ms start true) target (end - start) _ (zero_safe h k),
  )
