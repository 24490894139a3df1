-- ===== src/Provider/Decode/Slots.antt =====
-- crates/rupi-provider/src/decode.rs: the slots of a decoder are numbered from zero, and what each
-- holds is bounded.
use pi_rs.Prelude.{
  ℕ, suc, ◌+◌, ◌≤◌, ◌<◌, ◌≡◌, inl, inr, refl, sym, ap, subst, ◌∙◌, Option, none, some, List, [],
  ◌∷◌, ◌++◌, length, ◌==◌, Bool-cases, arith,
}
use pi_rs.Prelude.Text.{Text, text_eq}
use pi_rs.Core.Completion.{max_tool_name_bytes, max_tool_id_bytes, max_tool_argument_bytes_per_call}
use pi_rs.Provider.Decode.{byte_len, ToolBuilder, find_tool, find_slot, find_id, update_tool}

abbrev pub Tools : Type 0
Tools = List (ℕ × ToolBuilder)

-- The keys are `n` and the numbers after it.
abbrev pub Numbered : ℕ → Tools → Type 0
Numbered n [] = Unit
Numbered n ((k, b) ∷ ts) = (k ≡ n) × Numbered (suc n) ts

abbrev pub ShortId : Option Text → Type 0
ShortId none = Unit
ShortId (some id) = byte_len id ≤ max_tool_id_bytes

abbrev pub Fits : ToolBuilder → Type 0
Fits b =
    ShortId b.id
    × (byte_len b.name ≤ max_tool_name_bytes)
    × (byte_len b.arguments ≤ max_tool_argument_bytes_per_call)

abbrev pub AllFit : Tools → Type 0
AllFit [] = Unit
AllFit ((k, b) ∷ ts) = Fits b × AllFit ts

-- The bytes of arguments that the builders hold.
abbrev pub argument_bytes : Tools → ℕ
argument_bytes [] = 0
argument_bytes ((k, b) ∷ ts) = byte_len b.arguments + argument_bytes ts

-- The slots that a map points to.
abbrev pub AllBelow {ℓ} : {K : Type ℓ} → ℕ → List (K × ℕ) → Type 0
AllBelow n [] = Unit
AllBelow n ((k, slot) ∷ rest) = (slot < n) × AllBelow n rest

abbrev pub EachBelow : ℕ → List ℕ → Type 0
EachBelow n [] = Unit
EachBelow n (slot ∷ rest) = (slot < n) × EachBelow n rest

pub AllBelow-more {ℓ} :
    {K : Type ℓ} (n m : ℕ) (xs : List (K × ℕ)) → n ≤ m → AllBelow n xs → AllBelow m xs
AllBelow-more n m [] h b = tt
AllBelow-more n m ((k, slot) ∷ rest) h (b, bs) = (omega arith, AllBelow-more n m rest h bs)

pub AllBelow-snoc {ℓ} :
    {K : Type ℓ} (n : ℕ) (xs : List (K × ℕ)) (k : K) (slot : ℕ)
    → slot < n
    → AllBelow n xs
    → AllBelow n (xs ++ (k, slot) ∷ [])
AllBelow-snoc n [] k slot h b = (h, tt)
AllBelow-snoc n ((j, s) ∷ xs) k slot h (b, bs) = (b, AllBelow-snoc n xs k slot h bs)

pub find_slot-below :
    (n : ℕ) (xs : List (ℕ × ℕ)) (index slot : ℕ)
    → AllBelow n xs
    → find_slot xs index ≡ some slot
    → slot < n
unfolding find_slot
find_slot-below n [] index slot b h = absurd (ground arith)
find_slot-below n ((i, s) ∷ xs) index slot (b, bs) h = elim (Bool-cases (i == index)) [
  | inl e ↦ ground arith
  | inr e ↦ find_slot-below n xs index slot bs (ground arith)
]

pub find_id-below :
    (n : ℕ) (xs : List (Text × ℕ)) (id : Text) (slot : ℕ)
    → AllBelow n xs
    → find_id xs id ≡ some slot
    → slot < n
unfolding find_id
find_id-below n [] id slot b h = absurd (ground arith)
find_id-below n ((t, s) ∷ xs) id slot (b, bs) h = elim (Bool-cases (text_eq t id)) [
  | inl e ↦ ground arith
  | inr e ↦ find_id-below n xs id slot bs (ground arith)
]

pub length-update :
    (slot : ℕ) (f : ToolBuilder → ToolBuilder) (ts : Tools)
    → length (update_tool slot f ts) ≡ length ts
unfolding update_tool
length-update slot f [] = refl
length-update slot f ((k, b) ∷ ts) = ground (arith, length-update slot f ts)

pub update-Numbered :
    (slot n : ℕ) (f : ToolBuilder → ToolBuilder) (ts : Tools)
    → Numbered n ts
    → Numbered n (update_tool slot f ts)
unfolding update_tool
update-Numbered slot n f [] h = tt
update-Numbered slot n f ((k, b) ∷ ts) (e, h) = elim (Bool-cases (k == slot)) [
  | inl c ↦ rw c (e, h)
  | inr c ↦ rw c (e, update-Numbered slot (suc n) f ts h)
]

pub update-AllFit :
    (slot : ℕ) (f : ToolBuilder → ToolBuilder) (ts : Tools)
    → ((b : ToolBuilder) → find_tool ts slot ≡ some b → Fits b → Fits (f b))
    → AllFit ts
    → AllFit (update_tool slot f ts)
unfolding update_tool find_tool
update-AllFit slot f [] h a = tt
update-AllFit slot f ((k, b) ∷ ts) h (fit, a) = elim (Bool-cases (k == slot)) [
  | inl c ↦ rw c (h b (rw c refl) fit, a)
  | inr c ↦ rw c (fit, update-AllFit slot f ts (λ d found. h d (rw c found)) a)
]

-- A change of the builder of a slot adds to the bytes of arguments what it adds to that builder's.
pub argument_bytes-update :
    (slot more : ℕ) (f : ToolBuilder → ToolBuilder) (ts : Tools) (b : ToolBuilder)
    → find_tool ts slot ≡ some b
    → byte_len (f b).arguments ≡ byte_len b.arguments + more
    → argument_bytes (update_tool slot f ts) ≡ argument_bytes ts + more
unfolding update_tool find_tool
argument_bytes-update slot more f [] b h e = absurd (ground arith)
argument_bytes-update slot more f ((k, c) ∷ ts) b h e = elim (Bool-cases (k == slot)) [
  | inl d ↦
      let same : c ≡ b = ground arith in
      let grown =
        subst (λ (x : ToolBuilder). byte_len (f x).arguments ≡ byte_len x.arguments + more)
          (sym same) e in
      rw d (omega (arith, grown))
  | inr d ↦ rw d (omega (arith, argument_bytes-update slot more f ts b (sym (rw d refl) ∙ h) e))
]

pub argument_bytes-same :
    (slot : ℕ) (f : ToolBuilder → ToolBuilder) (ts : Tools)
    → ((b : ToolBuilder) → (f b).arguments ≡ b.arguments)
    → argument_bytes (update_tool slot f ts) ≡ argument_bytes ts
unfolding update_tool
argument_bytes-same slot f [] h = refl
argument_bytes-same slot f ((k, b) ∷ ts) h = elim (Bool-cases (k == slot)) [
  | inl c ↦ rw c (ap (λ (t : Text). byte_len t + argument_bytes ts) (h b))
  | inr c ↦ rw c (ap (λ (n : ℕ). byte_len b.arguments + n) (argument_bytes-same slot f ts h))
]
