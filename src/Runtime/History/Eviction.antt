-- ===== src/Runtime/History/Eviction.antt =====
-- crates/rupi-runtime/src/turn.rs: what `evict_oldest_with_estimate` takes out and what it leaves alone.
use pi_rs.Prelude.{
  ℕ, zero, suc, ◌+◌, ◌-◌, ◌^◌, ◌≤◌, ◌<◌, ◌≡◌, inl, inr, refl, sym, ap, subst, ◌∙◌, Bool, true,
  false, ◌||◌, Option, none, some, List, [], ◌∷◌, ◌++◌, length, length-append, length-take,
  length-drop, take, drop, min, ltb, ltb→lt, lt→ltb, if◌then◌else◌, Bool-cases, arith,
}
use pi_rs.Core.Message.{Message}
use pi_rs.Runtime.History.{
  safe_eviction_boundary, History, resize, normalize_message_seqs, drain, Evicted, kept,
  choose_drop, drop_stored, drop_messages, evictable_start, evictable_end, evict_oldest,
}
use pi_rs.Runtime.History.Boundary.{IsPaired, IsClosed, safe_eviction_boundary-IsPaired}
use pi_rs.Runtime.History.Choice.{choose_drop-SafeDrop}

drop_nil {ℓ} : {A : Type ℓ} (n : ℕ) → drop {A = A} n [] ≡ []
drop_nil zero = refl
drop_nil (suc n) = refl

drop_twice {ℓ} : {A : Type ℓ} (n k : ℕ) (xs : List A) → drop k (drop n xs) ≡ drop (n + k) xs
drop_twice {A} zero k xs = let e : 0 + k ≡ k = omega arith in rw e refl
drop_twice {A} (suc n) k [] = drop_nil k ∙ sym (drop_nil (suc n + k))
drop_twice {A} (suc n) k (x ∷ xs) =
    let e : suc n + k ≡ suc (n + k) = omega arith in rw e (drop_twice n k xs)

take-take_append {ℓ} :
    {A : Type ℓ} (n : ℕ) (xs ys : List A) → n ≤ length xs → take n (take n xs ++ ys) ≡ take n xs
take-take_append zero xs ys h = refl
take-take_append (suc n) [] ys h = absurd (omega arith)
take-take_append (suc n) (x ∷ xs) ys h = ap (x ∷◌) (take-take_append n xs ys (omega arith))

drop-take_append {ℓ} :
    {A : Type ℓ} (n k : ℕ) (xs ys : List A)
    → n ≤ length xs
    → drop (n + k) (take n xs ++ ys) ≡ drop k ys
drop-take_append zero k xs ys h = let e : 0 + k ≡ k = omega arith in rw e refl
drop-take_append (suc n) k [] ys h = absurd (omega arith)
drop-take_append (suc n) k (x ∷ xs) ys h =
    let e : suc n + k ≡ suc (n + k) = omega arith in rw e (drop-take_append n k xs ys (omega arith))

length-drain {ℓ} :
    {A : Type ℓ} (start end : ℕ) (xs : List A)
    → length (drain start end xs) ≡ min start (length xs) + (length xs - end)
length-drain start end xs =
    length-append (take start xs) (drop end xs)
    ∙ ap (λ (n : ℕ). n + length (drop end xs)) (length-take start xs)
    ∙ ap (λ (n : ℕ). min start (length xs) + n) (length-drop end xs)

length-resize : (n : ℕ) (seqs : List (Option ℕ)) → length (resize n seqs) ≡ n
unfolding resize
length-resize zero seqs = refl
length-resize (suc n) [] = ap suc (length-resize n [])
length-resize (suc n) (seq ∷ seqs) = ap suc (length-resize n seqs)

-- What an eviction leaves of a history: the messages up to the checkpoint, the current turn, a number
-- for each message, and a history that a provider accepts.
pub record Leaves (floor : ℕ) (h h' : History) : Type 0 where
  pub checkpoint : take floor h'.messages ≡ take floor h.messages
  pub turn : drop h'.turn_history_start h'.messages ≡ drop h.turn_history_start h.messages
  pub seqs : length h'.message_seqs ≡ length h'.messages
  pub paired : IsPaired h.messages → IsClosed (take floor h.messages) → IsPaired h'.messages

from_normalized :
    (floor : ℕ) (h h' : History) → Leaves floor (normalize_message_seqs h) h' → Leaves floor h h'
unfolding normalize_message_seqs
from_normalized floor h h' l = record {
  checkpoint = l.checkpoint;
  turn = l.turn;
  seqs = l.seqs;
  paired = l.paired;
}

normalized-Leaves : (floor : ℕ) (h : History) → Leaves floor h (normalize_message_seqs h)
unfolding normalize_message_seqs
normalized-Leaves floor h = record {
  checkpoint = refl;
  turn = refl;
  seqs = length-resize (length h.messages) h.message_seqs;
  paired = λ p c. p;
}

cut-Leaves :
    (h : History) (start dropped : ℕ)
    → length h.message_seqs ≡ length h.messages
    → start < h.turn_history_start
    → start + dropped ≤ h.turn_history_start
    → start + dropped ≤ length h.messages
    → safe_eviction_boundary h.messages start
        (start + dropped)
        (min h.turn_history_start (length h.messages))
      ≡ true
    → Leaves start h (record h {
      messages = drain start (start + dropped) h.messages;
      message_seqs = drain start (start + dropped) h.message_seqs;
      turn_history_start = h.turn_history_start - dropped;
    })
cut-Leaves h start dropped parallel before within fits safe = record {
  checkpoint = take-take_append start h.messages (drop (start + dropped) h.messages) (omega arith);
  turn =
      let e : h.turn_history_start - dropped ≡ start + (h.turn_history_start - (start + dropped)) =
        omega arith in
      let f : start + dropped + (h.turn_history_start - (start + dropped)) ≡ h.turn_history_start =
        omega arith in
      ap (λ (n : ℕ). drop n (drain start (start + dropped) h.messages)) e
      ∙ drop-take_append start (h.turn_history_start - (start + dropped)) h.messages
          (drop (start + dropped) h.messages) (omega arith)
      ∙ drop_twice (start + dropped) (h.turn_history_start - (start + dropped)) h.messages
      ∙ ap (λ (n : ℕ). drop n h.messages) f;
  seqs =
      length-drain start (start + dropped) h.message_seqs
      ∙ ap (λ (n : ℕ). min start n + (n - (start + dropped))) parallel
      ∙ sym (length-drain start (start + dropped) h.messages);
  paired = λ p c.
      safe_eviction_boundary-IsPaired h.messages start (start + dropped)
        (min h.turn_history_start (length h.messages)) p c safe;
}

same-Leaves :
    (floor : ℕ) (h : History) → length h.message_seqs ≡ length h.messages → Leaves floor h h
same-Leaves floor h parallel = record {
  checkpoint = refl;
  turn = refl;
  seqs = parallel;
  paired = λ p c. p;
}

-- Taking out the messages that `choose_drop` chose.
drop_messages-Leaves :
    (size : Bool → List Message → ℕ) (h : History) (dropped : ℕ) (stored : Option ℕ)
    → length h.message_seqs ≡ length h.messages
    → 0 < dropped
    → dropped ≤ evictable_end size h - evictable_start size h
    → safe_eviction_boundary h.messages
        (evictable_start size h)
        (evictable_start size h + dropped)
        (evictable_end size h)
      ≡ true
    → Leaves
        (evictable_start size h)
        h
        ((drop_messages size h (evictable_start size h) dropped stored).1)
unfolding drop_messages
drop_messages-Leaves size h dropped stored parallel some_go low safe =
    let s : ℕ = evictable_start size h in
    let e : evictable_end size h ≡ min h.turn_history_start (length h.messages) = omega arith in
    let before : s < h.turn_history_start = omega arith in
    let cut =
      cut-Leaves h s dropped parallel before (omega arith) (omega arith) (
        subst (λ (end : ℕ). safe_eviction_boundary h.messages s (s + dropped) end ≡ true) e safe) in
    elim (Bool-cases (ltb (2 ^ 32 - 1) dropped || ltb (2 ^ 32 - 1) (length h.messages - dropped))) [
      | inl over ↦ rw over (same-Leaves s h parallel)
      | inr ok ↦ rw ok (elim stored as (λ o. Leaves s h ((drop_stored size h s dropped o).1)) [
        | none ↦ rw (lt→ltb _ _ before) cut
        | some code ↦ same-Leaves s h parallel
      ])
    ]

if-Leaves :
    (floor : ℕ) (h : History) (b : Bool) (x y : Evicted × History)
    → (b ≡ true → Leaves floor h (x.1))
    → (b ≡ false → Leaves floor h (y.1))
    → Leaves floor h ((if b then x else y).1)
if-Leaves floor h true x y p q = p refl
if-Leaves floor h false x y p q = q refl

-- A call of `evict_oldest_with_estimate`, whichever way it ends, leaves the messages before the
-- checkpoint and the current turn as they were and a number slot for each message; and where a
-- provider accepts the history, with every call before the checkpoint answered, it accepts the
-- history that is left.
pub evict_oldest-Leaves :
    (size : Bool → List Message → ℕ) (h : History) (target : ℕ) (prompt_only : Bool)
    (stored : Option ℕ)
    → Leaves
        (min h.checkpoint_floor (length h.messages))
        h
        ((evict_oldest size h target prompt_only stored).1)
unfolding evict_oldest
evict_oldest-Leaves size h target prompt_only stored =
    let n = normalize_message_seqs h in
    let parallel = length-resize (length h.messages) h.message_seqs in
    let s = evictable_start size n in
    let dropped = choose_drop size n.messages s (evictable_end size n) target prompt_only in
    if-Leaves s h (ltb 0 dropped) (drop_messages size n s dropped stored) (kept, n)
      (λ e.
        elim (choose_drop-SafeDrop size n.messages s (evictable_end size n) target prompt_only) [
          | inl none_go ↦ absurd (ground arith)
          | inr (low, safe) ↦
              from_normalized s h _
                (drop_messages-Leaves size n dropped stored parallel (ltb→lt _ _ e) low safe)
        ])
      (λ e. normalized-Leaves s h)
