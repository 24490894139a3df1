-- ===== src/Provider/Decode/Finish/Settled.antt =====
-- crates/rupi-provider/src/decode.rs: the batch of calls that `finish` gives, and when it says that an
-- answer is complete.
use pi_rs.Prelude.{
  ℕ, ◌≡◌, ◌⊎◌, inl, inr, refl, sym, ap, subst, ◌∙◌, Bool, true, false, not, ◌||◌, Option, none,
  some, List, [], ◌∷◌, is_empty, Bool-cases, Option-cases, arith,
}
use pi_rs.Prelude.Text.{Text, text_eq, text_eq_iff}
use pi_rs.Core.Completion.{CompletionCertainty, certain, unknown, CompletionUsage, ProviderEvent}
use pi_rs.Provider.Decode.{ToolBuilder, Decoder, decode_failure, is_some}
use pi_rs.Provider.Decode.Finish.{
  StreamEnd, done_sentinel, ended_without_sentinel, complete_body, Parsed, has_text, call_id,
  decoded_call, decode_calls, certainty, usage_of, ok, err, Ended, completed, broken, result_of,
  after_calls, finish,
}

-- No identifier stands twice in the list; and one of them does.
pub Distinct : List Text → Type 0
Distinct [] = Unit
Distinct (x ∷ xs) = (has_text x xs ≡ false) × Distinct xs

pub Repeated : List Text → Type 0
Repeated [] = ⊥
Repeated (x ∷ xs) = (has_text x xs ≡ true) ⊎ Repeated xs

abbrev pub ids_of : List (ℕ × ToolBuilder) → List Text
ids_of [] = []
ids_of ((slot, b) ∷ tools) = call_id b ∷ ids_of tools

text_eq_sym : (a b : Text) → text_eq a b ≡ text_eq b a
text_eq_sym a b = ground (arith, text_eq_iff a b, text_eq_iff b a)

-- None of the identifiers has been seen before; or one has.
abbrev AllNew : List Text → List Text → Type 0
AllNew seen [] = Unit
AllNew seen (x ∷ xs) = (has_text x seen ≡ false) × AllNew seen xs

abbrev SomeSeen : List Text → List Text → Type 0
SomeSeen seen [] = ⊥
SomeSeen seen (x ∷ xs) = (has_text x seen ≡ true) ⊎ SomeSeen seen xs

AllNew-cons :
    (y : Text) (seen xs : List Text)
    → AllNew (y ∷ seen) xs
    → (has_text y xs ≡ false) × AllNew seen xs
AllNew-cons y seen [] h = (refl, tt)
AllNew-cons y seen (x ∷ xs) (h, hs) =
    let (a, b) = AllNew-cons y seen xs hs in (ground (arith, text_eq_sym x y, a), (ground arith, b))

SomeSeen-cons :
    (y : Text) (seen xs : List Text)
    → SomeSeen (y ∷ seen) xs
    → (has_text y xs ≡ true) ⊎ SomeSeen seen xs
SomeSeen-cons y seen [] h = absurd h
SomeSeen-cons y seen (x ∷ xs) (inl h) = elim (Bool-cases (text_eq y x)) [
  | inl e ↦ inl (ground (arith, text_eq_sym x y))
  | inr e ↦ inr (inl (ground arith))
]
SomeSeen-cons y seen (x ∷ xs) (inr hs) = elim (SomeSeen-cons y seen xs hs) [
  | inl a ↦ inl (ground arith)
  | inr b ↦ inr (inr b)
]

AllNew-nothing : (xs : List Text) → AllNew [] xs
AllNew-nothing [] = tt
AllNew-nothing (x ∷ xs) = (refl, AllNew-nothing xs)

SomeSeen-nothing : (xs : List Text) → SomeSeen [] xs → ⊥
SomeSeen-nothing [] h = h
SomeSeen-nothing (x ∷ xs) (inl h) = absurd (ground arith)
SomeSeen-nothing (x ∷ xs) (inr h) = SomeSeen-nothing xs h

abbrev Settled : StreamEnd → Bool → Bool → CompletionCertainty → Type 0
Settled end reported output sure =
    ((sure ≡ certain)
      × ((end ≡ complete_body) ⊎ (reported ≡ true) ⊎ ((end ≡ done_sentinel) × (output ≡ true))))
    ⊎ ((sure ≡ unknown) × (end ≡ ended_without_sentinel) × (reported ≡ false) × (output ≡ true))

certainty_cases :
    (end : StreamEnd) (reported output : Bool) (sure : CompletionCertainty)
    → certainty end reported output ≡ completed sure
    → Settled end reported output sure
unfolding certainty
certainty_cases complete_body reported output sure h = inl (ground arith, inl refl)
certainty_cases done_sentinel true output sure h = inl (ground arith, inr (inl refl))
certainty_cases done_sentinel false true sure h = inl (ground arith, inr (inr (refl, refl)))
certainty_cases done_sentinel false false sure h = absurd (ground arith)
certainty_cases ended_without_sentinel true output sure h = inl (ground arith, inr (inl refl))
certainty_cases ended_without_sentinel false true sure h = inr (ground arith, refl, refl, refl)
certainty_cases ended_without_sentinel false false sure h = absurd (ground arith)

result_of_cases :
    (d : Decoder) (usage : CompletionUsage) (ended : Ended)
    → result_of d ended ≡ ok usage
    → (sure : CompletionCertainty) × (ended ≡ completed sure) × (usage.certainty ≡ sure)
unfolding result_of usage_of
result_of_cases d usage (completed sure) h = (sure, refl, ground arith)
result_of_cases d usage (broken e) h = absurd (ground arith)

refused_ok : (usage : CompletionUsage) → err decode_failure ≡ ok usage → ⊥
refused_ok usage h = ground arith

-- The provider's own word that the answer is complete.
abbrev pub SaidComplete : StreamEnd → Decoder → Type 0
SaidComplete end d =
    (end ≡ complete_body)
    ⊎ (is_some d.finish_reason ≡ true)
    ⊎ ((end ≡ done_sentinel) × ((d.emitted_output || not (is_empty d.tools)) ≡ true))

module _ (from_str : Text → Parsed) (restore : Text → Text → Text) where
  abbrev pub events_of : List (ℕ × ToolBuilder) → List ProviderEvent
  events_of [] = []
  events_of ((slot, b) ∷ tools) = decoded_call from_str restore b ∷ events_of tools

  -- What the loop over the builders gives.
  decode_calls_cases :
      (seen : List Text) (tools : List (ℕ × ToolBuilder))
      → ((decode_calls from_str restore seen tools ≡ some (events_of tools))
          × AllNew seen (ids_of tools)
          × Distinct (ids_of tools))
        ⊎ ((decode_calls from_str restore seen tools ≡ none)
            × (SomeSeen seen (ids_of tools) ⊎ Repeated (ids_of tools)))
  unfolding decode_calls Distinct Repeated
  decode_calls_cases seen [] = inl (refl, tt, tt)
  decode_calls_cases seen ((slot, b) ∷ tools) = elim (Bool-cases (has_text (call_id b) seen)) [
    | inl again ↦ inr (rw again refl, inl (inl again))
    | inr fresh ↦ elim (decode_calls_cases (call_id b ∷ seen) tools) [
      | inl (e, new, distinct) ↦
          let (a, c) = AllNew-cons (call_id b) seen (ids_of tools) new in
          inl (rw (fresh, e) refl, (fresh, c), (a, distinct))
      | inr (e, inl old) ↦ elim (SomeSeen-cons (call_id b) seen (ids_of tools) old) [
        | inl a ↦ inr (rw (fresh, e) refl, inr (inl a))
        | inr c ↦ inr (rw (fresh, e) refl, inl (inr c))
      ]
      | inr (e, inr again) ↦ inr (rw (fresh, e) refl, inr (inr again))
    ]
  ]

  -- The calls of a response are given as a whole batch or not at all: with distinct identifiers, one
  -- event for each builder in the order of their slots; with an identifier that comes twice, no event,
  -- and the failure to decode.
  pub finish-batch :
      (end : StreamEnd) (d : Decoder)
      → (Distinct (ids_of d.tools) × ((finish from_str restore end d).1 ≡ events_of d.tools))
        ⊎ (Repeated (ids_of d.tools) × (finish from_str restore end d ≡ (err decode_failure, [])))
  unfolding finish after_calls
  finish-batch end d = elim (decode_calls_cases [] d.tools) [
    | inl (e, new, distinct) ↦ inl (distinct, rw e refl)
    | inr (e, inl old) ↦ absurd (SomeSeen-nothing (ids_of d.tools) old)
    | inr (e, inr again) ↦ inr (again, rw e refl)
  ]

  -- An answer that `finish` calls complete has the provider's word for it: a whole body, a reason for
  -- its end, or the end sentinel behind some output. One that it calls unsure ended without the
  -- sentinel and without a reason, but not without output.
  pub finish-certainty :
      (end : StreamEnd) (d : Decoder) (usage : CompletionUsage)
      → (finish from_str restore end d).0 ≡ ok usage
      → ((usage.certainty ≡ certain) × SaidComplete end d)
        ⊎ ((usage.certainty ≡ unknown)
            × (end ≡ ended_without_sentinel)
            × (is_some d.finish_reason ≡ false)
            × ((d.emitted_output || not (is_empty d.tools)) ≡ true))
  unfolding finish after_calls
  finish-certainty end d usage h = elim (Option-cases (decode_calls from_str restore [] d.tools)) [
    | inl e ↦ absurd (
        refused_ok usage
          (ap (λ (o : Option (List ProviderEvent)). (after_calls end d o).0) (sym e) ∙ h))
    | inr (events, e) ↦
        let (sure, how, same) =
          result_of_cases d usage _
            (ap (λ (o : Option (List ProviderEvent)). (after_calls end d o).0) (sym e) ∙ h) in
        subst
          (λ (c : CompletionCertainty).
            Settled end (is_some d.finish_reason) (d.emitted_output || not (is_empty d.tools)) c)
          (sym same)
          (certainty_cases end (is_some d.finish_reason)
            (d.emitted_output || not (is_empty d.tools)) sure how)
  ]
