-- ===== src/Provider/Decode/Chunks/Accounts.antt =====
-- crates/rupi-provider/src/decode.rs: what `chunk` does to a decoder, whatever the chunk.
use pi_rs.Prelude.{
  ℕ, ◌+◌, ◌-◌, ◌^◌, ◌≤◌, ◌<◌, ◌≡◌, refl, Bool, true, false, Option, none, some, List, [], ◌∷◌, ◌++◌,
  is_empty, ltb, if◌then◌else◌, arith,
}
use pi_rs.Prelude.Text.{Text}
use pi_rs.Core.Completion.{
  max_response_text_bytes, max_response_reasoning_bytes, implied_provenance, ProviderEvent,
  reasoning_delta, text_delta, tool_call, tool_call_rejected,
}
use pi_rs.Core.Failure.{ModelFailure}
use pi_rs.Core.Message.{ReasoningProvenance}
use pi_rs.Provider.Decode.{
  byte_len, saturating_add, Decoder, Fragment, response_limit_failure, account_response_event,
}
use pi_rs.Provider.Decode.Accumulate.{Accumulated, accumulated, limited, panicked, accumulate_tool}
use pi_rs.Provider.Decode.Sound.{IsSound}
use pi_rs.Provider.Decode.Limits.{LeavesSound, counted-IsSound, accumulate_tool-LeavesSound}
use pi_rs.Provider.Decode.Chunks.{
  Usage, Choice, Chunk, account_usage, Outcome, done, failed, panic, Handled, handled, refusal,
  continue, then_step, finish_with, add_reasoning, reasoning_of, add_text, text_of,
  uncorrelated_count, of_call, calls_of, choice_of, choices_of, chunk_of,
}

-- None of the events is a call of a tool.
pub NoCalls : List ProviderEvent → Type 0
NoCalls [] = Unit
NoCalls (reasoning_delta text provenance ∷ events) = NoCalls events
NoCalls (text_delta text ∷ events) = NoCalls events
NoCalls (tool_call call ∷ events) = ⊥
NoCalls (tool_call_rejected id name reason ∷ events) = ⊥

pub record Keeps (h : Handled) : Type 0 where
  pub returns : h.outcome ≡ panic → ⊥
  pub sound : IsSound h.decoder
  pub no_calls : NoCalls h.emitted

NoCalls-append : (xs ys : List ProviderEvent) → NoCalls xs → NoCalls ys → NoCalls (xs ++ ys)
unfolding NoCalls
NoCalls-append [] ys h k = k
NoCalls-append (reasoning_delta text provenance ∷ xs) ys h k = NoCalls-append xs ys h k
NoCalls-append (text_delta text ∷ xs) ys h k = NoCalls-append xs ys h k
NoCalls-append (tool_call call ∷ xs) ys h k = absurd h
NoCalls-append (tool_call_rejected id name reason ∷ xs) ys h k = absurd h

refusal-Keeps : (e : ModelFailure) (d : Decoder) → IsSound d → Keeps (refusal e d)
unfolding NoCalls
refusal-Keeps e d s = record { returns = λ h. ground arith; sound = s; no_calls = tt }

nothing-Keeps : (d : Decoder) → IsSound d → Keeps (handled d [])
unfolding NoCalls
nothing-Keeps d s = record { returns = λ h. ground arith; sound = s; no_calls = tt }

if-Keeps :
    (b : Bool) (x y : Handled)
    → (b ≡ true → Keeps x)
    → (b ≡ false → Keeps y)
    → Keeps (if b then x else y)
if-Keeps true x y h k = h refl
if-Keeps false x y h k = k refl

continue-Keeps :
    (o : Outcome) (d : Decoder) (events : List ProviderEvent) (next : Decoder → Handled)
    → (o ≡ panic → ⊥)
    → IsSound d
    → NoCalls events
    → ((e : Decoder) → IsSound e → Keeps (next e))
    → Keeps (continue o d events next)
unfolding continue
continue-Keeps done d events next r s n h =
    let k = h d s in
    record {
      returns = k.returns;
      sound = k.sound;
      no_calls = NoCalls-append events (next d).emitted n k.no_calls;
    }
continue-Keeps (failed e) d events next r s n h = record {
  returns = λ p. ground arith;
  sound = s;
  no_calls = n;
}
continue-Keeps panic d events next r s n h = absurd (r refl)

then-Keeps :
    (h : Handled) (next : Decoder → Handled)
    → Keeps h
    → ((e : Decoder) → IsSound e → Keeps (next e))
    → Keeps (then_step h next)
then-Keeps h next k l =
    continue-Keeps h.outcome h.decoder h.emitted next k.returns k.sound k.no_calls l

within :
    (limit n m : ℕ) → limit < 2 ^ 64 - 1 → ltb limit (saturating_add n m) ≡ false → n + m ≤ limit
within limit n m h e = ground arith

-- The invariant says nothing of the other fields.
with_totals-IsSound :
    (c : Decoder) (text_bytes reasoning_bytes : ℕ) (emitted : Bool)
    → text_bytes ≤ max_response_text_bytes
    → reasoning_bytes ≤ max_response_reasoning_bytes
    → IsSound c
    → IsSound (record c {
      text_bytes = text_bytes;
      reasoning_bytes = reasoning_bytes;
      emitted_output = emitted;
    })
with_totals-IsSound c t r emitted h k s = record {
  numbered = s.numbered;
  next = s.next;
  few = s.few;
  indices = s.indices;
  ids = s.ids;
  fit = s.fit;
  counted = s.counted;
  total = s.total;
  events = s.events;
  text = h;
  reasoning = k;
}

with_account-IsSound :
    (c : Decoder) (reason : Option Text) (prompt reads writes total output : Option ℕ)
    → IsSound c
    → IsSound (record c {
      finish_reason = reason;
      logical_prompt_tokens = prompt;
      cache_read_tokens = reads;
      cache_write_tokens = writes;
      provider_total_tokens = total;
      output_tokens = output;
    })
with_account-IsSound c reason prompt reads writes total output s = record {
  numbered = s.numbered;
  next = s.next;
  few = s.few;
  indices = s.indices;
  ids = s.ids;
  fit = s.fit;
  counted = s.counted;
  total = s.total;
  events = s.events;
  text = s.text;
  reasoning = s.reasoning;
}

finish_with-IsSound :
    (reason : Option Text) (d : Decoder) → IsSound d → IsSound (finish_with reason d)
finish_with-IsSound none d s = s
finish_with-IsSound (some reason) d s =
    with_account-IsSound d (some reason) d.logical_prompt_tokens d.cache_read_tokens
      d.cache_write_tokens d.provider_total_tokens d.output_tokens s

account_usage-IsSound :
    (usage : Option Usage) (d : Decoder) → IsSound d → IsSound (account_usage usage d)
unfolding account_usage
account_usage-IsSound none d s = s
account_usage-IsSound (some usage) d s = with_account-IsSound d d.finish_reason _ _ _ _ _ s

added-Keeps :
    (c : Decoder) (event : ProviderEvent)
    → NoCalls (event ∷ [])
    → IsSound c
    → Keeps (handled c (event ∷ []))
added-Keeps c event n s = record { returns = λ h. ground arith; sound = s; no_calls = n }

add_reasoning-Keeps :
    (text : Text) (provenance : ReasoningProvenance) (d : Decoder) (o : Option Decoder)
    → IsSound d
    → ((e : Decoder) → o ≡ some e → IsSound e)
    → Keeps (add_reasoning text provenance d o)
unfolding add_reasoning NoCalls
add_reasoning-Keeps text provenance d none s h = refusal-Keeps _ d s
add_reasoning-Keeps text provenance d (some c) s h =
    let sound = h c refl in
    if-Keeps (ltb max_response_reasoning_bytes (saturating_add c.reasoning_bytes (byte_len text))) _
      _ (λ over. refusal-Keeps (response_limit_failure c) c sound)
      (λ ok. added-Keeps _ (reasoning_delta text provenance) tt (
        with_totals-IsSound c c.text_bytes (c.reasoning_bytes + byte_len text) true sound.text
          (within max_response_reasoning_bytes c.reasoning_bytes (byte_len text) (omega arith) ok)
          sound))

reasoning_of-Keeps :
    (text : Option Text) (provenance : Option ReasoningProvenance) (d : Decoder)
    → IsSound d
    → Keeps (reasoning_of text provenance d)
unfolding reasoning_of
reasoning_of-Keeps none provenance d s = nothing-Keeps d s
reasoning_of-Keeps (some text) none d s = nothing-Keeps d s
reasoning_of-Keeps (some text) (some provenance) d s =
    if-Keeps (is_empty text) _ _ (λ e. nothing-Keeps d s)
      (λ e.
        add_reasoning-Keeps text provenance d (account_response_event d) s
          (λ c h. counted-IsSound d c h s))

add_text-Keeps :
    (text : Text) (d : Decoder) (o : Option Decoder)
    → IsSound d
    → ((e : Decoder) → o ≡ some e → IsSound e)
    → Keeps (add_text text d o)
unfolding add_text NoCalls
add_text-Keeps text d none s h = refusal-Keeps _ d s
add_text-Keeps text d (some c) s h =
    let sound = h c refl in
    if-Keeps (ltb max_response_text_bytes (saturating_add c.text_bytes (byte_len text))) _ _
      (λ over. refusal-Keeps (response_limit_failure c) c sound)
      (λ ok. added-Keeps _ (text_delta text) tt (
        with_totals-IsSound c (c.text_bytes + byte_len text) c.reasoning_bytes true
          (within max_response_text_bytes c.text_bytes (byte_len text) (omega arith) ok)
          sound.reasoning sound))

text_of-Keeps : (text : Option Text) (d : Decoder) → IsSound d → Keeps (text_of text d)
unfolding text_of
text_of-Keeps none d s = nothing-Keeps d s
text_of-Keeps (some text) d s =
    if-Keeps (is_empty text) _ _ (λ e. nothing-Keeps d s)
      (λ e. add_text-Keeps text d (account_response_event d) s (λ c h. counted-IsSound d c h s))

of_call-Keeps : (a : Accumulated) (d : Decoder) → LeavesSound a → Keeps (of_call a d)
unfolding of_call LeavesSound
of_call-Keeps (accumulated e) d s = nothing-Keeps e s
of_call-Keeps (limited f e) d s = refusal-Keeps f e s
of_call-Keeps panicked d s = absurd s

module _ (new_id : ℕ → Text) where
  calls_of-Keeps :
      (calls : List Fragment) (batch : Bool) (d : Decoder)
      → IsSound d
      → Keeps (calls_of new_id calls batch d)
  unfolding calls_of
  calls_of-Keeps [] batch d s = nothing-Keeps d s
  calls_of-Keeps (call ∷ calls) batch d s =
      then-Keeps (of_call (accumulate_tool new_id call batch d) d)
        (λ e. calls_of new_id calls batch e)
        (of_call-Keeps (accumulate_tool new_id call batch d) d
          (accumulate_tool-LeavesSound new_id call batch d s))
        (λ e h. calls_of-Keeps calls batch e h)

  choice_of-Keeps : (choice : Choice) (d : Decoder) → IsSound d → Keeps (choice_of new_id choice d)
  unfolding choice_of
  choice_of-Keeps choice d s =
      then-Keeps
        (reasoning_of choice.reasoning (implied_provenance d.exposure)
          (finish_with choice.finish_reason d))
        _
        (reasoning_of-Keeps choice.reasoning (implied_provenance d.exposure) _
          (finish_with-IsSound choice.finish_reason d s))
        (λ e h. then-Keeps (text_of choice.content e) _ (text_of-Keeps choice.content e h) (λ f k.
          calls_of-Keeps choice.tool_calls (ltb 1 (uncorrelated_count choice.tool_calls)) f k))

  choices_of-Keeps :
      (choices : List Choice) (d : Decoder) → IsSound d → Keeps (choices_of new_id choices d)
  unfolding choices_of
  choices_of-Keeps [] d s = nothing-Keeps d s
  choices_of-Keeps (choice ∷ choices) d s =
      then-Keeps (choice_of new_id choice d) (λ e. choices_of new_id choices e)
        (choice_of-Keeps choice d s) (λ e h. choices_of-Keeps choices e h)

  -- Whatever a chunk holds, and whether it is taken or refused, it does not end in a panic, no call of a
  -- tool is given out before the end of the response, and the limits of a response on events, text,
  -- reasoning, calls, names and arguments hold after it as they did before.
  pub chunk_of-Keeps : (chunk : Chunk) (d : Decoder) → IsSound d → Keeps (chunk_of new_id chunk d)
  unfolding chunk_of
  chunk_of-Keeps chunk d s =
      choices_of-Keeps chunk.choices _ (account_usage-IsSound chunk.usage d s)
