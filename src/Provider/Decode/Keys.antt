-- ===== src/Provider/Decode/Keys.antt =====
-- crates/rupi-provider/src/decode.rs: every slot below their number has a builder.
use pi_rs.Prelude.{
  ℕ, suc, ◌+◌, ◌≤◌, ◌<◌, ◌≡◌, inl, inr, refl, sym, ap, subst, ◌∙◌, Bool, true, false, some, List,
  [], ◌∷◌, ◌++◌, length, ltb, ◌==◌, if◌then◌else◌, Bool-cases, arith,
}
use pi_rs.Provider.Decode.{
  byte_len, ToolBuilder, find_tool, insert_tool, uncorrelated_slots, open_keyed_slots, only,
}
use pi_rs.Provider.Decode.Slots.{Tools, Numbered, Fits, AllFit, argument_bytes, EachBelow}

-- Every slot below the number of builders has one.
find_tool-Numbered :
    (n slot : ℕ) (ts : Tools)
    → Numbered n ts
    → n ≤ slot
    → slot < n + length ts
    → (b : ToolBuilder) × (find_tool ts slot ≡ some b)
unfolding find_tool
find_tool-Numbered n slot [] h low high = absurd (omega arith)
find_tool-Numbered n slot ((k, b) ∷ ts) (e, h) low high = elim (Bool-cases (k == slot)) [
  | inl c ↦ (b, rw c refl)
  | inr c ↦
      let (d, found) = find_tool-Numbered (suc n) slot ts h (ground arith) (omega arith) in
      (d, rw c found)
]

-- A builder with the next number goes to the end.
insert-last :
    (n : ℕ) (b : ToolBuilder) (ts : Tools)
    → Numbered n ts
    → insert_tool (n + length ts) b ts ≡ ts ++ (n + length ts, b) ∷ []
unfolding insert_tool
insert-last n b [] h = refl
insert-last n b ((k, c) ∷ ts) (e, h) =
    let later : ltb (n + suc (length ts)) k ≡ false = ground arith in
    let other : (k == (n + suc (length ts))) ≡ false = ground arith in
    let same : n + suc (length ts) ≡ suc n + length ts = omega arith in
    rw (later, other)
      (ap ((k, c) ∷◌) (
        subst (λ (m : ℕ). insert_tool m b ts ≡ ts ++ (m, b) ∷ []) (sym same)
          (insert-last (suc n) b ts h)))

Numbered-snoc :
    (n : ℕ) (b : ToolBuilder) (ts : Tools)
    → Numbered n ts
    → Numbered n (ts ++ (n + length ts, b) ∷ [])
Numbered-snoc n b [] h = (omega arith, tt)
Numbered-snoc n b ((k, c) ∷ ts) (e, h) =
    let same : n + suc (length ts) ≡ suc n + length ts = omega arith in
    (
      e,
      subst (λ (m : ℕ). Numbered (suc n) (ts ++ (m, b) ∷ [])) (sym same)
          (Numbered-snoc (suc n) b ts h),
    )

pub AllFit-snoc :
    (k : ℕ) (b : ToolBuilder) (ts : Tools) → Fits b → AllFit ts → AllFit (ts ++ (k, b) ∷ [])
AllFit-snoc k b [] h a = (h, tt)
AllFit-snoc k b ((j, c) ∷ ts) h (fit, a) = (fit, AllFit-snoc k b ts h a)

pub argument_bytes-snoc :
    (k : ℕ) (b : ToolBuilder) (ts : Tools)
    → argument_bytes (ts ++ (k, b) ∷ []) ≡ argument_bytes ts + byte_len b.arguments
argument_bytes-snoc k b [] = omega arith
argument_bytes-snoc k b ((j, c) ∷ ts) = omega (arith, argument_bytes-snoc k b ts)

EachBelow-if :
    (keep : Bool) (k n : ℕ) (xs : List ℕ)
    → k < n
    → EachBelow n xs
    → EachBelow n (if keep then k ∷ xs else xs)
EachBelow-if true k n xs h b = (h, b)
EachBelow-if false k n xs h b = b

uncorrelated-below :
    (indices : List (ℕ × ℕ)) (n : ℕ) (ts : Tools)
    → Numbered n ts
    → EachBelow (n + length ts) (uncorrelated_slots indices ts)
unfolding uncorrelated_slots
uncorrelated-below indices n [] h = tt
uncorrelated-below indices n ((k, b) ∷ ts) (e, h) =
    let same : n + suc (length ts) ≡ suc n + length ts = omega arith in
    EachBelow-if _ k (n + suc (length ts)) (uncorrelated_slots indices ts) (omega arith) (
      subst (λ (m : ℕ). EachBelow m (uncorrelated_slots indices ts)) (sym same)
        (uncorrelated-below indices (suc n) ts h))

open_keyed-below :
    (indices : List (ℕ × ℕ)) (n : ℕ) (ts : Tools)
    → Numbered n ts
    → EachBelow (n + length ts) (open_keyed_slots indices ts)
unfolding open_keyed_slots
open_keyed-below indices n [] h = tt
open_keyed-below indices n ((k, b) ∷ ts) (e, h) =
    let same : n + suc (length ts) ≡ suc n + length ts = omega arith in
    EachBelow-if _ k (n + suc (length ts)) (open_keyed_slots indices ts) (omega arith) (
      subst (λ (m : ℕ). EachBelow m (open_keyed_slots indices ts)) (sym same)
        (open_keyed-below indices (suc n) ts h))

zero_plus : (n : ℕ) → 0 + n ≡ n
zero_plus n = omega arith

-- The same at the number zero that a decoder begins with.
pub insert-next :
    (n : ℕ) (b : ToolBuilder) (ts : Tools)
    → n ≡ length ts
    → Numbered 0 ts
    → insert_tool n b ts ≡ ts ++ (n, b) ∷ []
insert-next n b ts e h =
    subst (λ (m : ℕ). insert_tool m b ts ≡ ts ++ (m, b) ∷ []) (zero_plus (length ts) ∙ sym e)
      (insert-last 0 b ts h)

pub Numbered-next :
    (n : ℕ) (b : ToolBuilder) (ts : Tools)
    → n ≡ length ts
    → Numbered 0 ts
    → Numbered 0 (ts ++ (n, b) ∷ [])
Numbered-next n b ts e h =
    subst (λ (m : ℕ). Numbered 0 (ts ++ (m, b) ∷ [])) (zero_plus (length ts) ∙ sym e)
      (Numbered-snoc 0 b ts h)

pub uncorrelated-EachBelow :
    (indices : List (ℕ × ℕ)) (ts : Tools)
    → Numbered 0 ts
    → EachBelow (length ts) (uncorrelated_slots indices ts)
uncorrelated-EachBelow indices ts h =
    subst (λ (m : ℕ). EachBelow m (uncorrelated_slots indices ts)) (zero_plus (length ts))
      (uncorrelated-below indices 0 ts h)

pub open_keyed-EachBelow :
    (indices : List (ℕ × ℕ)) (ts : Tools)
    → Numbered 0 ts
    → EachBelow (length ts) (open_keyed_slots indices ts)
open_keyed-EachBelow indices ts h =
    subst (λ (m : ℕ). EachBelow m (open_keyed_slots indices ts)) (zero_plus (length ts))
      (open_keyed-below indices 0 ts h)

pub only-below : (n slot : ℕ) (xs : List ℕ) → EachBelow n xs → only xs ≡ some slot → slot < n
only-below n slot [] b h = absurd (ground arith)
only-below n slot (x ∷ []) (b, bs) h = ground arith
only-below n slot (x ∷ y ∷ xs) b h = absurd (ground arith)

pub find_tool-below :
    (slot : ℕ) (ts : Tools)
    → Numbered 0 ts
    → slot < length ts
    → (b : ToolBuilder) × (find_tool ts slot ≡ some b)
find_tool-below slot ts h low = find_tool-Numbered 0 slot ts h (omega arith) (omega arith)
