-- ===== src/Compat/Substitute/Fuel.antt =====
-- crates/rupi-compat/src/substitute.rs: a unit of fuel for each character is enough.
use pi_rs.Prelude.{
  ℕ, zero, suc, ◌≤◌, ◌≡◌, refl, ap, Bool, true, false, not, ◌&&◌, Option, none, some, List, [], ◌∷◌,
  ◌++◌, length, drop, length-drop, ◌==◌, if◌then◌else◌, inl, inr, Bool-cases, arith,
}
use pi_rs.Prelude.Text.{Text, codes, starts_with, split_once}
use pi_rs.Compat.Substitute.{
  is_ascii_digit, join, take_digits, drop_digits, starts_word, parse_usize, expand_braced,
  expand_digits, expand_at, expanded, step, substitute_loop,
}

-- What is left behind a placeholder.
abbrev pub Shorter : ℕ → Option (Text × Text) → Type 0
Shorter n none = Unit
Shorter n (some (replacement, rest)) = length rest ≤ n

if-Shorter :
    (n : ℕ) (b : Bool) (x y : Option (Text × Text))
    → Shorter n x
    → Shorter n y
    → Shorter n (if b then x else y)
if-Shorter n true x y h k = h
if-Shorter n false x y h k = k

longer :
    (c n : ℕ) (o : Option (Text × Text))
    → Shorter n o
    → Shorter (suc n) (elim o [ none ↦ none | some (a, b) ↦ some (c ∷ a, b) ])
longer c n none h = tt
longer c n (some (a, b)) h = omega arith

split_once-Shorter : (d : ℕ) (s : Text) → Shorter (length s) (split_once d s)
unfolding split_once
split_once-Shorter d [] = tt
split_once-Shorter d (c ∷ s) =
    if-Shorter _ (c == d) (some ([], s)) _ (omega arith)
      (longer c (length s) (split_once d s) (split_once-Shorter d s))

drop_digits-shorter : (s : Text) → length (drop_digits s) ≤ length s
unfolding drop_digits
drop_digits-shorter [] = omega arith
drop_digits-shorter (c ∷ s) = ground (arith, drop_digits-shorter s)

braced-Shorter :
    (args : List Text) (n : ℕ) (o : Option (Text × Text))
    → Shorter n o
    → Shorter n (expand_braced args o)
unfolding expand_braced
braced-Shorter args n none h = tt
braced-Shorter args n (some (inner, rest)) h = h

digits-Shorter :
    (args : List Text) (s : Text) (o : Option ℕ) → Shorter (length s) (expand_digits args s o)
unfolding expand_digits
digits-Shorter args s none = tt
digits-Shorter args s (some n) = drop_digits-shorter s

drop-shorter : (n : ℕ) (s : Text) → length (drop n s) ≤ length s
drop-shorter n s = omega (arith, length-drop n s)

Shorter-more : (n m : ℕ) (o : Option (Text × Text)) → n ≤ m → Shorter n o → Shorter m o
Shorter-more n m none h k = tt
Shorter-more n m (some (a, b)) h k = omega arith

expand_at-Shorter : (args : List Text) (s : Text) → Shorter (length s) (expand_at args s)
unfolding expand_at
expand_at-Shorter args [] = tt
expand_at-Shorter args (c ∷ s) =
    if-Shorter _ (c == b'{') _ _
      (Shorter-more (length s) _ _ (omega arith)
        (braced-Shorter args (length s) (split_once b'}' s) (split_once-Shorter b'}' s)))
      (if-Shorter _ (c == b'@') (some (join args, s)) _ (omega arith) (
        if-Shorter _ (is_ascii_digit c) _ _
          (digits-Shorter args (c ∷ s) (parse_usize (take_digits (c ∷ s))))
          (if-Shorter _
            (starts_with (c ∷ s) (codes "ARGUMENTS") && not (starts_word (drop 9 (c ∷ s))))
            (some (join args, drop 9 (c ∷ s))) none (drop-shorter 9 (c ∷ s)) tt)))

expanded-same :
    (f g : Text → Text) (s : Text) (o : Option (Text × Text))
    → ((t : Text) → length t ≤ length s → f t ≡ g t)
    → Shorter (length s) o
    → expanded f s o ≡ expanded g s o
unfolding expanded
expanded-same f g s none h k = ap (b'$' ∷◌) (h s (omega arith))
expanded-same f g s (some (replacement, rest)) h k = ap (λ (t : Text). replacement ++ t) (h rest k)

step-same :
    (args : List Text) (f g : Text → Text) (c : ℕ) (s : Text)
    → ((t : Text) → length t ≤ length s → f t ≡ g t)
    → step args f c s ≡ step args g c s
unfolding step
step-same args f g c s h = elim (Bool-cases (c == b'$')) [
  | inl e ↦ rw e (expanded-same f g s (expand_at args s) h (expand_at-Shorter args s))
  | inr e ↦ rw e (ap (c ∷◌) (h s (omega arith)))
]

-- Any two amounts of fuel that are enough give the same text.
pub substitute_loop_enough :
    (n m : ℕ) (args : List Text) (s : Text)
    → length s ≤ n
    → length s ≤ m
    → substitute_loop n args s ≡ substitute_loop m args s
unfolding substitute_loop
substitute_loop_enough zero zero args s h k = refl
substitute_loop_enough zero (suc m) args [] h k = refl
substitute_loop_enough zero (suc m) args (c ∷ s) h k = absurd (omega arith)
substitute_loop_enough (suc n) zero args [] h k = refl
substitute_loop_enough (suc n) zero args (c ∷ s) h k = absurd (omega arith)
substitute_loop_enough (suc n) (suc m) args [] h k = refl
substitute_loop_enough (suc n) (suc m) args (c ∷ s) h k =
    step-same args (substitute_loop n args) (substitute_loop m args) c s
      (λ t low. substitute_loop_enough n m args t (omega arith) (omega arith))
