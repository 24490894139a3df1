-- ===== src/Runtime/History/Searches.antt =====
-- crates/rupi-runtime/src/turn.rs: the loop and the two searches of `evict_oldest_with_estimate`.
use pi_rs.Prelude.{
  ℕ, zero, suc, ◌+◌, ◌≤◌, ◌<◌, ◌≡◌, inl, inr, refl, sym, Bool, true, some, ltb, ◌==◌, Bool-cases,
  arith,
}
use pi_rs.Runtime.History.{desired_drop, find_up, find_down}

pub find_down-found :
    (test : ℕ → Bool) (bound n : ℕ) → find_down test bound ≡ some n → (n ≤ bound) × (test n ≡ true)
unfolding find_down
find_down-found test zero n h = elim (Bool-cases (test 0)) [
  | inl e ↦ ground arith
  | inr e ↦ absurd (ground arith)
]
find_down-found test (suc bound) n h = elim (Bool-cases (test (suc bound))) [
  | inl e ↦ ground arith
  | inr e ↦ let (low, ok) = find_down-found test bound n (ground arith) in (omega arith, ok)
]

pub find_up-found :
    (test : ℕ → Bool) (rounds from n : ℕ)
    → find_up test rounds from ≡ some n
    → (n ≤ from + rounds) × (test n ≡ true)
unfolding find_up
find_up-found test zero from n h = elim (Bool-cases (test from)) [
  | inl e ↦ ground arith
  | inr e ↦ absurd (ground arith)
]
find_up-found test (suc rounds) from n h = elim (Bool-cases (test from)) [
  | inl e ↦ ground arith
  | inr e ↦
      let (low, ok) = find_up-found test rounds (from + 1) n (ground arith) in (omega arith, ok)
]

-- The search upwards finds what there is to find.
pub find_up-finds :
    (test : ℕ → Bool) (rounds from n : ℕ)
    → from ≤ n
    → n ≤ from + rounds
    → test n ≡ true
    → (m : ℕ) × (find_up test rounds from ≡ some m)
unfolding find_up
find_up-finds test zero from n low high ok = (from, rw (sym e) (rw ok refl))
  where
    e : n ≡ from
    e = omega arith
find_up-finds test (suc rounds) from n low high ok = elim (Bool-cases (test from)) [
  | inl e ↦ (from, rw e refl)
  | inr e ↦ elim (Bool-cases (n == from)) [
    | inl same ↦ absurd (ground arith)
    | inr other ↦
        let (m, found) = find_up-finds test rounds (from + 1) n (ground arith) (omega arith) ok in
        (m, rw e found)
  ]
]

pub desired_drop-le :
    (size : ℕ → ℕ) (target rounds desired : ℕ)
    → (desired ≤ desired_drop size target rounds desired)
      × (desired_drop size target rounds desired ≤ desired + rounds)
unfolding desired_drop
desired_drop-le size target zero desired = (omega arith, omega arith)
desired_drop-le size target (suc rounds) desired =
    let (low, high) = desired_drop-le size target rounds (desired + 1) in
    (ground arith, ground arith)

-- Every smaller number of messages leaves too large a request.
pub desired_drop-needed :
    (size : ℕ → ℕ) (target rounds desired n : ℕ)
    → desired ≤ n
    → n < desired_drop size target rounds desired
    → target < size n
unfolding desired_drop
desired_drop-needed size target zero desired n low high = absurd (omega arith)
desired_drop-needed size target (suc rounds) desired n low high =
    elim (Bool-cases (ltb target (size desired))) [
      | inl e ↦ elim (Bool-cases (n == desired)) [
        | inl same ↦ ground arith
        | inr other ↦
            desired_drop-needed size target rounds (desired + 1) n (ground arith) (ground arith)
      ]
      | inr e ↦ absurd (ground arith)
    ]

pub find_down-finds :
    (test : ℕ → Bool) (bound : ℕ) → test 0 ≡ true → (n : ℕ) × (find_down test bound ≡ some n)
unfolding find_down
find_down-finds test zero h = (0, rw h refl)
find_down-finds test (suc bound) h = elim (Bool-cases (test (suc bound))) [
  | inl e ↦ (suc bound, rw e refl)
  | inr e ↦ let (n, found) = find_down-finds test bound h in (n, rw e found)
]

-- The search downwards finds the greatest number, the one upwards the least.
pub find_down-greatest :
    (test : ℕ → Bool) (bound n m : ℕ)
    → find_down test bound ≡ some n
    → m ≤ bound
    → test m ≡ true
    → m ≤ n
unfolding find_down
find_down-greatest test zero n m h low ok = omega arith
find_down-greatest test (suc bound) n m h low ok = elim (Bool-cases (test (suc bound))) [
  | inl e ↦ ground arith
  | inr e ↦ elim (Bool-cases (m == suc bound)) [
    | inl same ↦ absurd (ground arith)
    | inr other ↦ find_down-greatest test bound n m (ground arith) (ground arith) ok
  ]
]

pub find_up-least :
    (test : ℕ → Bool) (rounds from n m : ℕ)
    → find_up test rounds from ≡ some n
    → from ≤ m
    → test m ≡ true
    → n ≤ m
unfolding find_up
find_up-least test zero from n m h low ok = ground arith
find_up-least test (suc rounds) from n m h low ok = elim (Bool-cases (test from)) [
  | inl e ↦ ground arith
  | inr e ↦ elim (Bool-cases (m == from)) [
    | inl same ↦ absurd (ground arith)
    | inr other ↦ find_up-least test rounds (from + 1) n m (ground arith) (ground arith) ok
  ]
]

-- The loop ends at its bound or with a request that fits.
pub desired_drop-stops :
    (size : ℕ → ℕ) (target rounds desired : ℕ)
    → desired_drop size target rounds desired < desired + rounds
    → size (desired_drop size target rounds desired) ≤ target
unfolding desired_drop
desired_drop-stops size target zero desired h = absurd (omega arith)
desired_drop-stops size target (suc rounds) desired h =
    elim (Bool-cases (ltb target (size desired))) [
      | inl e ↦
          let rest = desired_drop-stops size target rounds (desired + 1) (ground arith) in rw e rest
      | inr e ↦ rw e (ground arith)
    ]
