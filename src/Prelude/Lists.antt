-- ===== src/Prelude/Lists.antt =====
-- Lists measured and indexed by native numbers, under the library's names.
use Prim.Native.Nat.{ℕ, zero, suc, ◌+◌, ◌-◌, ◌≤◌, ◌<◌, min}
use mathlib.Core.Path.{◌≡◌, refl, ap}
use mathlib.Core.Logic.{◌≢◌, ◌⊎◌, inl, inr}
use mathlib.Core.Bool.{Bool, true, false}
use mathlib.Core.List.{List, [], ◌∷◌, ◌++◌}
use mathlib.Core.Option.{Option, none, some}
use native.Mathlib.Omega.{arith}

module _ {ℓ} {A : Type ℓ} where
  abbrev pub length : List A → ℕ
  length [] = 0
  length (x ∷ xs) = suc (length xs)

  abbrev pub is_empty : List A → Bool
  is_empty [] = true
  is_empty (x ∷ xs) = false

  abbrev pub get_elem? : List A → ℕ → Option A
  get_elem? [] i = none
  get_elem? (x ∷ xs) zero = some x
  get_elem? (x ∷ xs) (suc i) = get_elem? xs i

  abbrev pub get_or : List A → ℕ → A → A
  get_or [] i d = d
  get_or (x ∷ xs) zero d = x
  get_or (x ∷ xs) (suc i) d = get_or xs i d

  abbrev pub take : ℕ → List A → List A
  take zero xs = []
  take (suc n) [] = []
  take (suc n) (x ∷ xs) = x ∷ take n xs

  abbrev pub drop : ℕ → List A → List A
  drop zero xs = xs
  drop (suc n) [] = []
  drop (suc n) (x ∷ xs) = drop n xs

  pub length-append : (xs ys : List A) → length (xs ++ ys) ≡ length xs + length ys
  length-append [] ys = omega arith
  length-append (x ∷ xs) ys = omega (arith, length-append xs ys)

  pub take-append-drop : (n : ℕ) (xs : List A) → take n xs ++ drop n xs ≡ xs
  take-append-drop zero xs = refl
  take-append-drop (suc n) [] = refl
  take-append-drop (suc n) (x ∷ xs) = rw (take-append-drop n xs)

  pub length-take : (n : ℕ) (xs : List A) → length (take n xs) ≡ min n (length xs)
  length-take zero xs = omega arith
  length-take (suc n) [] = omega arith
  length-take (suc n) (x ∷ xs) = omega (arith, length-take n xs)

  pub length-drop : (n : ℕ) (xs : List A) → length (drop n xs) ≡ length xs - n
  length-drop zero xs = omega arith
  length-drop (suc n) [] = omega arith
  length-drop (suc n) (x ∷ xs) = omega (arith, length-drop n xs)

  pub take-length_le : (n : ℕ) (xs : List A) → length xs ≤ n → take n xs ≡ xs
  take-length_le zero [] h = refl
  take-length_le zero (x ∷ xs) h = absurd (omega arith)
  take-length_le (suc n) [] h = refl
  take-length_le (suc n) (x ∷ xs) h = ap (◌∷◌ x) (take-length_le n xs (omega arith))

  pub take-append_le :
      (n : ℕ) (xs ys : List A) → length xs ≤ n → take n (xs ++ ys) ≡ xs ++ take (n - length xs) ys
  take-append_le n [] ys h = let e : n - 0 ≡ n = omega arith in rw e
  take-append_le zero (x ∷ xs) ys h = absurd (omega arith)
  take-append_le (suc n) (x ∷ xs) ys h =
      let e : suc n - suc (length xs) ≡ n - length xs = omega arith in
      rw (e, take-append_le n xs ys (omega arith))

  pub take-append_ge : (n : ℕ) (xs ys : List A) → n ≤ length xs → take n (xs ++ ys) ≡ take n xs
  take-append_ge zero xs ys h = refl
  take-append_ge (suc n) [] ys h = absurd (omega arith)
  take-append_ge (suc n) (x ∷ xs) ys h = ap (◌∷◌ x) (take-append_ge n xs ys (omega arith))

  pub ne_nil→is_empty : (xs : List A) → xs ≢ [] → is_empty xs ≡ false
  ne_nil→is_empty [] h = absurd (h refl)
  ne_nil→is_empty (x ∷ xs) h = refl

-- Places in a list, as `Vec` has them. An index out of range, which panics there, changes nothing.
module _ {ℓ} {A : Type ℓ} where
  abbrev pub set : List A → ℕ → A → List A
  set [] i v = []
  set (x ∷ xs) zero v = v ∷ xs
  set (x ∷ xs) (suc i) v = x ∷ set xs i v

  abbrev pub insert_at : List A → ℕ → A → List A
  insert_at xs zero v = v ∷ xs
  insert_at [] (suc i) v = []
  insert_at (x ∷ xs) (suc i) v = x ∷ insert_at xs i v

  abbrev pub remove_at : List A → ℕ → List A
  remove_at [] i = []
  remove_at (x ∷ xs) zero = xs
  remove_at (x ∷ xs) (suc i) = x ∷ remove_at xs i

  pub get_or-append :
      (pre : List A) (x : A) (post : List A) (d : A) → get_or (pre ++ x ∷ post) (length pre) d ≡ x
  get_or-append [] x post d = refl
  get_or-append (y ∷ pre) x post d = get_or-append pre x post d

  pub set-append :
      (pre : List A) (x : A) (post : List A) (v : A)
      → set (pre ++ x ∷ post) (length pre) v ≡ pre ++ v ∷ post
  set-append [] x post v = refl
  set-append (y ∷ pre) x post v = ap (◌∷◌ y) (set-append pre x post v)

  pub insert_at-append :
      (pre : List A) (x : A) (post : List A) (v : A)
      → insert_at (pre ++ x ∷ post) (suc (length pre)) v ≡ pre ++ x ∷ v ∷ post
  insert_at-append [] x post v = refl
  insert_at-append (y ∷ pre) x post v = ap (◌∷◌ y) (insert_at-append pre x post v)

  pub remove_at-append :
      (pre : List A) (x : A) (post : List A)
      → remove_at (pre ++ x ∷ post) (length pre) ≡ pre ++ post
  remove_at-append [] x post = refl
  remove_at-append (y ∷ pre) x post = ap (◌∷◌ y) (remove_at-append pre x post)

  pub take-append_length : (xs ys : List A) → take (length xs) (xs ++ ys) ≡ xs
  take-append_length [] ys = refl
  take-append_length (x ∷ xs) ys = ap (◌∷◌ x) (take-append_length xs ys)

  pub drop-append_length : (xs ys : List A) → drop (length xs) (xs ++ ys) ≡ ys
  drop-append_length [] ys = refl
  drop-append_length (x ∷ xs) ys = drop-append_length xs ys

  pub get_or-split :
      (i : ℕ) (xs : List A) (d : A)
      → i < length xs
      → (xs ≡ take i xs ++ get_or xs i d ∷ drop (suc i) xs) × (length (take i xs) ≡ i)
  get_or-split i [] d h = absurd (omega arith)
  get_or-split zero (x ∷ xs) d h = (refl, refl)
  get_or-split (suc i) (x ∷ xs) d h =
      let (p, q) = get_or-split i xs d (omega arith) in (ap (◌∷◌ x) p, ap suc q)

  pub last_cases : (xs : List A) → (xs ≡ []) ⊎ ((ys : List A) × (y : A) × (xs ≡ ys ++ y ∷ []))
  last_cases [] = inl refl
  last_cases (x ∷ xs) = elim (last_cases xs) [
    | inl e ↦ inr ([], x, ap (◌∷◌ x) e)
    | inr (ys, y, e) ↦ inr (x ∷ ys, y, ap (◌∷◌ x) e)
  ]

  pub ne_nil→pos : (xs : List A) → xs ≢ [] → 0 < length xs
  ne_nil→pos [] h = absurd (h refl)
  ne_nil→pos (x ∷ xs) h = omega arith

  pub drop-append_suc :
      (xs : List A) (y : A) (ys : List A) → drop (suc (length xs)) (xs ++ y ∷ ys) ≡ ys
  drop-append_suc [] y ys = refl
  drop-append_suc (x ∷ xs) y ys = drop-append_suc xs y ys

  pub get_or-append_suc :
      (pre : List A) (x y : A) (post : List A) (d : A)
      → get_or (pre ++ x ∷ y ∷ post) (suc (length pre)) d ≡ y
  get_or-append_suc [] x y post d = refl
  get_or-append_suc (z ∷ pre) x y post d = get_or-append_suc pre x y post d

  pub remove_at-append_suc :
      (pre : List A) (x y : A) (post : List A)
      → remove_at (pre ++ x ∷ y ∷ post) (suc (length pre)) ≡ pre ++ x ∷ post
  remove_at-append_suc [] x y post = refl
  remove_at-append_suc (z ∷ pre) x y post = ap (◌∷◌ z) (remove_at-append_suc pre x y post)

  pub length-set : (xs : List A) (i : ℕ) (v : A) → length (set xs i v) ≡ length xs
  length-set [] i v = refl
  length-set (x ∷ xs) zero v = refl
  length-set (x ∷ xs) (suc i) v = ap suc (length-set xs i v)

  pub get_or-set : (xs : List A) (i : ℕ) (v d : A) → i < length xs → get_or (set xs i v) i d ≡ v
  get_or-set [] i v d h = absurd (omega arith)
  get_or-set (x ∷ xs) zero v d h = refl
  get_or-set (x ∷ xs) (suc i) v d h = get_or-set xs i v d (omega arith)
