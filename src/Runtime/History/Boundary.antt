-- ===== src/Runtime/History/Boundary.antt =====
-- crates/rupi-runtime/src/turn.rs: a cut at a safe boundary leaves a history that a provider accepts.
use pi_rs.Prelude.{
  ℕ, zero, suc, ◌≤◌, ◌<◌, ◌≡◌, ◌⊎◌, inl, inr, refl, sym, ap, subst, ◌∙◌, true, Option, none, some,
  List, [], ◌∷◌, ◌++◌, length, take, drop, map, is_empty, ltb, ltb→lt, if◌then◌else◌, Bool-cases,
  Option-cases, arith, take-append-drop,
}
use pi_rs.Prelude.Text.{Text}
use pi_rs.Core.Message.{
  Role, system, user, assistant, tool, ToolCallBlock, ToolResultBlock, Message, tool_calls,
  tool_results,
}
use pi_rs.Runtime.History.{is_user, message_at, safe_eviction_boundary, has_id, without_id, drain}

-- The calls that a message leaves without a result, given those left open before it; none where a
-- provider refuses the history: for a result that answers no open call, or for another message while
-- a call is open.
unfoldable pub take_results : List Text → List ToolResultBlock → Option (List Text)
take_results waiting [] = some waiting
take_results waiting (r ∷ rs) =
    if has_id waiting r.id then take_results (without_id waiting r.id) rs else none

unfoldable pub left_open : Role → List Text → Message → Option (List Text)
unfolding take_results
left_open tool waiting m = take_results waiting (tool_results m.content)
left_open assistant waiting m =
    if is_empty waiting
    then some (map (λ (c : ToolCallBlock). c.id) (tool_calls m.content))
    else none
left_open user waiting m = if is_empty waiting then some [] else none
left_open system waiting m = if is_empty waiting then some [] else none

abbrev and_then : Option (List Text) → (List Text → Option (List Text)) → Option (List Text)
and_then none f = none
and_then (some waiting) f = f waiting

-- The calls left open by a whole history.
unfoldable pub scan : List Text → List Message → Option (List Text)
unfolding left_open
scan waiting [] = some waiting
scan waiting (m ∷ ms) = and_then (left_open m.role waiting m) (λ now. scan now ms)

-- A provider accepts the history, perhaps with calls that wait for results.
unfoldable pub IsPaired : List Message → Type 0
IsPaired ms = (waiting : List Text) × (scan [] ms ≡ some waiting)

-- Each call of the history has its result.
unfoldable pub IsClosed : List Message → Type 0
IsClosed ms = scan [] ms ≡ some []

and_then_twice :
    (o : Option (List Text)) (f g : List Text → Option (List Text))
    → and_then (and_then o f) g ≡ and_then o (λ x. and_then (f x) g)
and_then_twice none f g = refl
and_then_twice (some x) f g = refl

scan-append :
    (waiting : List Text) (xs ys : List Message)
    → scan waiting (xs ++ ys) ≡ and_then (scan waiting xs) (λ now. scan now ys)
unfolding scan
scan-append waiting [] ys = refl
scan-append waiting (m ∷ xs) ys =
    ap (and_then (left_open m.role waiting m)) (λ i x. scan-append x xs ys i)
    ∙ sym (and_then_twice (left_open m.role waiting m) (λ now. scan now xs) (λ now. scan now ys))

-- What a history up to `n` leaves open, the rest goes on with.
split :
    (n : ℕ) (ms : List Message)
    → IsPaired ms
    → (waiting : List Text) × (last : List Text) × (scan [] (take n ms) ≡ some waiting)
      × (scan waiting (drop n ms) ≡ some last)
unfolding IsPaired
split n ms (last, h) =
    let whole =
      sym (scan-append [] (take n ms) (drop n ms)) ∙ ap (scan []) (take-append-drop n ms) ∙ h in
    elim (Option-cases (scan [] (take n ms))) [
      | inl e ↦ absurd (ground arith)
      | inr (waiting, e) ↦ (
        waiting,
        last,
        e,
        sym (ap (λ (o : Option (List Text)). and_then o (λ now. scan now (drop n ms))) e) ∙ whole,
      )
    ]

user_opens :
    (r : Role) (waiting : List Text) (m : Message)
    → is_user r ≡ true
    → (left_open r waiting m ≡ none) ⊎ (left_open r waiting m ≡ left_open r [] m)
unfolding left_open is_user
user_opens user waiting m h = ground arith
user_opens system waiting m h = ground arith
user_opens assistant waiting m h = ground arith
user_opens tool waiting m h = absurd (ground arith)

-- A history that begins with a message of the user is accepted only with no call open before it.
from_user :
    (waiting last : List Text) (m : Message) (ms : List Message)
    → is_user m.role ≡ true
    → scan waiting (m ∷ ms) ≡ some last
    → scan [] (m ∷ ms) ≡ some last
unfolding scan
from_user waiting last m ms h k = elim (user_opens m.role waiting m h) [
  | inl e ↦
      absurd
        (none_some (sym (ap (λ (o : Option (List Text)). and_then o (λ now. scan now ms)) e) ∙ k))
  | inr e ↦ sym (ap (λ (o : Option (List Text)). and_then o (λ now. scan now ms)) e) ∙ k
]
  where
    none_some : none ≡ some last → ⊥
    none_some p = ground arith

-- What the test of a boundary beyond the start asks.
boundary_cases :
    (ms : List Message) (start boundary end : ℕ)
    → safe_eviction_boundary ms start boundary end ≡ true
    → (start ≤ boundary)
      × (boundary ≤ end)
      × (boundary ≤ length ms)
      × ((boundary ≡ start)
          ⊎ (length ms ≤ boundary)
          ⊎ (is_user (message_at ms boundary).role ≡ true))
unfolding safe_eviction_boundary
boundary_cases ms start boundary end h = (ground arith, ground arith, ground arith, ground arith)

drop-length_le {ℓ} : {A : Type ℓ} (n : ℕ) (xs : List A) → length xs ≤ n → drop n xs ≡ []
drop-length_le zero [] h = refl
drop-length_le zero (x ∷ xs) h = absurd (omega arith)
drop-length_le (suc n) [] h = refl
drop-length_le (suc n) (x ∷ xs) h = drop-length_le n xs (omega arith)

drop-message_at :
    (n : ℕ) (ms : List Message) → n < length ms → drop n ms ≡ message_at ms n ∷ drop (suc n) ms
drop-message_at n [] h = absurd (omega arith)
drop-message_at zero (m ∷ ms) h = refl
drop-message_at (suc n) (m ∷ ms) h = drop-message_at n ms (omega arith)

-- The rest behind a safe boundary is accepted by itself.
rest_accepted :
    (ms : List Message) (boundary : ℕ) (waiting last : List Text)
    → (length ms ≤ boundary) ⊎ (is_user (message_at ms boundary).role ≡ true)
    → scan waiting (drop boundary ms) ≡ some last
    → IsPaired (drop boundary ms)
unfolding IsPaired scan
rest_accepted ms boundary waiting last (inl h) k = ([], ap (scan []) (drop-length_le boundary ms h))
rest_accepted ms boundary waiting last (inr h) k = elim (Bool-cases (ltb boundary (length ms))) [
  | inl e ↦
      let front = drop-message_at boundary ms (ltb→lt _ _ e) in
      (
        last,
        ap (scan []) front
            ∙ from_user waiting last (message_at ms boundary) (drop (suc boundary) ms) h
                (sym (ap (scan waiting) front) ∙ k),
      )
  | inr e ↦ ([], ap (scan []) (drop-length_le boundary ms (ground arith)))
]

closed-IsPaired :
    (before after : List Message) → IsClosed before → IsPaired after → IsPaired (before ++ after)
unfolding IsPaired IsClosed
closed-IsPaired before after closed (last, h) = (
  last,
  scan-append [] before after
      ∙ ap (λ (o : Option (List Text)). and_then o (λ now. scan now after)) closed
      ∙ h,
)

-- A history that a provider accepts, and whose calls before `start` have their results, is accepted
-- again once the messages from `start` to a boundary that the test calls safe are taken out: no result
-- loses its call.
pub safe_eviction_boundary-IsPaired :
    (ms : List Message) (start boundary end : ℕ)
    → IsPaired ms
    → IsClosed (take start ms)
    → safe_eviction_boundary ms start boundary end ≡ true
    → IsPaired (drain start boundary ms)
safe_eviction_boundary-IsPaired ms start boundary end paired closed safe =
    let (low, high, fits, cases) = boundary_cases ms start boundary end safe in
    elim cases [
      | inl e ↦
          subst IsPaired
            (sym (take-append-drop start ms) ∙ ap (λ (n : ℕ). drain start n ms) (sym e)) paired
      | inr c ↦
          let (waiting, last, _, k) = split boundary ms paired in
          closed-IsPaired (take start ms) (drop boundary ms) closed
            (rest_accepted ms boundary waiting last c k)
    ]
