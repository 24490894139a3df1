-- ===== src/Prelude/Text.antt =====
-- Text as the list of its characters (code points), and what the program calls of `str`.
use Prim.Native.Nat.{ℕ, zero, suc, ◌+◌}
use Prim.Native.Char.{code}
use Prim.Native.String.{String}
use mathlib.Core.Path.{◌≡◌}
use mathlib.Core.Logic.{◌↔◌, ◌≢◌}
use mathlib.Core.Bool.{Bool, true, false, ◌&&◌, ◌||◌}
use mathlib.Core.List.{List, [], ◌∷◌, ◌++◌, map, reverse}
use mathlib.Core.Option.{Option, none, some}
use native.Mathlib.Omega.{arith}
use pi_rs.Prelude.Lists.{get_or, set, take, drop}
use pi_rs.Prelude.Tests.{leb, ◌==◌, if◌then◌else◌}

abbrev pub Text : Type 0
Text = List ℕ

abbrev pub codes : String → Text
codes String.[] = []
codes (String.◌∷◌ c s) = code c ∷ codes s

abbrev pub within : ℕ → ℕ → ℕ → Bool
within lo hi c = leb lo c && leb c hi

unfoldable pub text_eq : Text → Text → Bool
text_eq [] [] = true
text_eq (x ∷ xs) (y ∷ ys) = x == y && text_eq xs ys
text_eq _ _ = false

pub text_eq_iff : (a b : Text) → (text_eq a b ≡ true) ↔ (a ≡ b)
unfolding text_eq
text_eq_iff (x ∷ a) (y ∷ b) = ground (arith, text_eq_iff a b)
text_eq_iff _ _ = ground arith

unfoldable pub starts_with : Text → Text → Bool
starts_with s [] = true
starts_with [] (p ∷ ps) = false
starts_with (c ∷ s) (p ∷ ps) = c == p && starts_with s ps

unfoldable pub contains : Text → Text → Bool
unfolding starts_with
contains [] needle = starts_with [] needle
contains (c ∷ s) needle = starts_with (c ∷ s) needle || contains s needle

-- `char::is_whitespace`: the property `White_Space`.
unfoldable pub is_whitespace : ℕ → Bool
is_whitespace c =
    within 9 13 c
    || c == 32
    || c == 0x85
    || c == 0xa0
    || c == 0x1680
    || within 0x2000 0x200a c
    || within 0x2028 0x2029 c
    || c == 0x202f
    || c == 0x205f
    || c == 0x3000

unfoldable pub trim_start : Text → Text
unfolding is_whitespace
trim_start [] = []
trim_start (c ∷ s) = if is_whitespace c then trim_start s else c ∷ s

unfoldable pub trim : Text → Text
unfolding trim_start
trim s = reverse (trim_start (reverse (trim_start s)))

unfoldable pub lowercase : ℕ → ℕ
lowercase c = if within b'A' b'Z' c then c + 32 else c

unfoldable pub to_ascii_lowercase : Text → Text
unfolding lowercase
to_ascii_lowercase s = map lowercase s

-- `split_once` at one character.
unfoldable pub split_once : ℕ → Text → Option (Text × Text)
split_once d [] = none
split_once d (c ∷ s) =
    if c == d
    then some ([], s)
    else elim (split_once d s) [ none ↦ none | some (a, b) ↦ some (c ∷ a, b) ]

abbrev pub Lacks : ℕ → Text → Type 0
Lacks d [] = Unit
Lacks d (c ∷ s) = (c ≢ d) × Lacks d s

abbrev pub AllLack : ℕ → List Text → Type 0
AllLack d [] = Unit
AllLack d (s ∷ ss) = Lacks d s × AllLack d ss

pub Lacks-append : (d : ℕ) (a b : Text) → Lacks d a → Lacks d b → Lacks d (a ++ b)
Lacks-append d [] b h k = k
Lacks-append d (c ∷ a) b h k = (h.0, Lacks-append d a b h.1 k)

pub Lacks-parts : (d : ℕ) (a b : Text) → Lacks d (a ++ b) → Lacks d a × Lacks d b
Lacks-parts d [] b h = (tt, h)
Lacks-parts d (c ∷ a) b h = let (x, y) = Lacks-parts d a b h.1 in ((h.0, x), y)

pub AllLack-append : (d : ℕ) (a b : List Text) → AllLack d a → AllLack d b → AllLack d (a ++ b)
AllLack-append d [] b h k = k
AllLack-append d (c ∷ a) b h k = (h.0, AllLack-append d a b h.1 k)

pub AllLack-parts : (d : ℕ) (a b : List Text) → AllLack d (a ++ b) → AllLack d a × AllLack d b
AllLack-parts d [] b h = (tt, h)
AllLack-parts d (c ∷ a) b h = let (x, y) = AllLack-parts d a b h.1 in ((h.0, x), y)

pub AllLack-get_or : (d : ℕ) (ss : List Text) (i : ℕ) → AllLack d ss → Lacks d (get_or ss i [])
AllLack-get_or d [] i h = tt
AllLack-get_or d (s ∷ ss) zero h = h.0
AllLack-get_or d (s ∷ ss) (suc i) h = AllLack-get_or d ss i h.1

pub AllLack-set :
    (d : ℕ) (ss : List Text) (i : ℕ) (s : Text) → AllLack d ss → Lacks d s → AllLack d (set ss i s)
AllLack-set d [] i s h k = tt
AllLack-set d (t ∷ ss) zero s h k = (k, h.1)
AllLack-set d (t ∷ ss) (suc i) s h k = (h.0, AllLack-set d ss i s h.1 k)

pub Lacks-take : (d n : ℕ) (s : Text) → Lacks d s → Lacks d (take n s)
Lacks-take d zero s h = tt
Lacks-take d (suc n) [] h = tt
Lacks-take d (suc n) (c ∷ s) h = (h.0, Lacks-take d n s h.1)

pub Lacks-drop : (d n : ℕ) (s : Text) → Lacks d s → Lacks d (drop n s)
Lacks-drop d zero s h = h
Lacks-drop d (suc n) [] h = tt
Lacks-drop d (suc n) (c ∷ s) h = Lacks-drop d n s h.1
