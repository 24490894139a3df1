-- ===== src/Provider/Decode/Sound.antt =====
-- crates/rupi-provider/src/decode.rs: a decoder stays within its limits, and `expect("allocated tool
-- slot")` never fails.
use pi_rs.Prelude.{
  ℕ, ◌+◌, ◌≤◌, ◌<◌, ◌≡◌, refl, sym, subst, ◌∙◌, Bool, true, false, some, List, [], ◌∷◌, ◌++◌,
  length, if◌then◌else◌, arith,
}
use pi_rs.Prelude.Text.{Text}
use pi_rs.Core.Capability.{ReasoningExposure}
use pi_rs.Core.Completion.{
  max_response_events, max_response_text_bytes, max_response_reasoning_bytes,
  max_response_tool_calls, max_tool_argument_bytes_total,
}
use pi_rs.Provider.Decode.{
  byte_len, ToolBuilder, Decoder, empty, Reason, reason_text, find_tool, update_tool, mark,
  mark_correlation_error, mark_all,
}
use pi_rs.Provider.Decode.Accumulate.{Slotted, slotted, refused, change, mark_if}
use pi_rs.Provider.Decode.Slots.{
  Numbered, Fits, AllFit, argument_bytes, AllBelow, length-update, update-Numbered, update-AllFit,
  argument_bytes-same,
}

-- The limits on what a response holds, and what the maps point to.
pub record IsSound (d : Decoder) : Type 0 where
  pub numbered : Numbered 0 d.tools
  pub next : d.next_tool_slot ≡ length d.tools
  pub few : length d.tools ≤ max_response_tool_calls
  pub indices : AllBelow (length d.tools) d.tool_indices
  pub ids : AllBelow (length d.tools) d.tool_ids
  pub fit : AllFit d.tools
  pub counted : d.tool_argument_bytes ≡ argument_bytes d.tools
  pub total : d.tool_argument_bytes ≤ max_tool_argument_bytes_total
  pub events : d.response_events ≤ max_response_events
  pub text : d.text_bytes ≤ max_response_text_bytes
  pub reasoning : d.reasoning_bytes ≤ max_response_reasoning_bytes

pub empty-IsSound : (exposure : ReasoningExposure) → IsSound (empty exposure)
empty-IsSound exposure = record {
  numbered = tt;
  next = refl;
  few = omega arith;
  indices = tt;
  ids = tt;
  fit = tt;
  counted = refl;
  total = omega arith;
  events = omega arith;
  text = omega arith;
  reasoning = omega arith;
}

pub byte_len-append : (s t : Text) → byte_len (s ++ t) ≡ byte_len s + byte_len t
unfolding byte_len
byte_len-append [] t = omega arith
byte_len-append (c ∷ s) t = omega (arith, byte_len-append s t)

-- A change of a builder that fits, with `total` bytes of arguments after it.
pub update-IsSound :
    (slot total : ℕ) (f : ToolBuilder → ToolBuilder) (d : Decoder)
    → ((b : ToolBuilder) → find_tool d.tools slot ≡ some b → Fits b → Fits (f b))
    → total ≡ argument_bytes (update_tool slot f d.tools)
    → total ≤ max_tool_argument_bytes_total
    → IsSound d
    → IsSound (record d { tools = update_tool slot f d.tools; tool_argument_bytes = total })
update-IsSound slot total f d fits e low s =
    let len = length-update slot f d.tools in
    record {
      numbered = update-Numbered slot 0 f d.tools s.numbered;
      next = s.next ∙ sym len;
      few = subst (λ (n : ℕ). n ≤ max_response_tool_calls) (sym len) s.few;
      indices = subst (λ (n : ℕ). AllBelow n d.tool_indices) (sym len) s.indices;
      ids = subst (λ (n : ℕ). AllBelow n d.tool_ids) (sym len) s.ids;
      fit = update-AllFit slot f d.tools fits s.fit;
      counted = e;
      total = low;
      events = s.events;
      text = s.text;
      reasoning = s.reasoning;
    }

-- A change that leaves the arguments alone.
pub change-IsSound :
    (slot : ℕ) (f : ToolBuilder → ToolBuilder) (d : Decoder)
    → ((b : ToolBuilder) → find_tool d.tools slot ≡ some b → Fits b → Fits (f b))
    → ((b : ToolBuilder) → (f b).arguments ≡ b.arguments)
    → IsSound d
    → IsSound (change slot f d)
unfolding change
change-IsSound slot f d fits same s =
    update-IsSound slot d.tool_argument_bytes f d fits
      (s.counted ∙ sym (argument_bytes-same slot f d.tools same)) s.total s

pub mark-IsSound :
    (slot : ℕ) (reason : Text) (d : Decoder)
    → IsSound d
    → IsSound (mark_correlation_error slot reason d)
unfolding mark_correlation_error
mark-IsSound slot reason d s =
    update-IsSound slot d.tool_argument_bytes (mark reason) d (λ b found fit. fit)
      (s.counted ∙ sym (argument_bytes-same slot (mark reason) d.tools (λ b. refl))) s.total s

-- A slot and a sound decoder that has a builder in it.
unfoldable pub SlotSound : Slotted → Type 0
SlotSound (slotted slot d) = IsSound d × (slot < length d.tools)
SlotSound (refused e) = Unit

pub slot-SlotSound :
    (slot : ℕ) (d : Decoder) → IsSound d → slot < length d.tools → SlotSound (slotted slot d)
unfolding SlotSound
slot-SlotSound slot d s low = (s, low)

pub if-SlotSound :
    (b : Bool) (x y : Slotted)
    → (b ≡ true → SlotSound x)
    → (b ≡ false → SlotSound y)
    → SlotSound (if b then x else y)
if-SlotSound true x y h k = h refl
if-SlotSound false x y h k = k refl

pub either-SlotSound :
    (b : Bool) (slot : ℕ) (d e : Decoder)
    → SlotSound (slotted slot d)
    → SlotSound (slotted slot e)
    → SlotSound (slotted slot (if b then d else e))
either-SlotSound true slot d e h k = h
either-SlotSound false slot d e h k = k

pub mark-length :
    (slot : ℕ) (reason : Text) (d : Decoder)
    → length (mark_correlation_error slot reason d).tools ≡ length d.tools
unfolding mark_correlation_error
mark-length slot reason d = length-update slot (mark reason) d.tools

pub mark-SlotSound :
    (slot at : ℕ) (reason : Text) (d : Decoder)
    → SlotSound (slotted slot d)
    → SlotSound (slotted slot (mark_correlation_error at reason d))
unfolding SlotSound
mark-SlotSound slot at reason d (s, low) =
    (mark-IsSound at reason d s, subst (λ (n : ℕ). slot < n) (sym (mark-length at reason d)) low)

pub mark_all-SlotSound :
    (slot : ℕ) (slots : List ℕ) (reason : Text) (d : Decoder)
    → SlotSound (slotted slot d)
    → SlotSound (slotted slot (mark_all slots reason d))
unfolding mark_all
mark_all-SlotSound slot [] reason d h = h
mark_all-SlotSound slot (at ∷ slots) reason d h =
    mark_all-SlotSound slot slots reason (mark_correlation_error at reason d)
      (mark-SlotSound slot at reason d h)

pub mark_if-SlotSound :
    (b : Bool) (reason : Reason) (slot : ℕ) (d : Decoder)
    → SlotSound (slotted slot d)
    → SlotSound (slotted slot (mark_if b reason slot d))
mark_if-SlotSound true reason slot d h = mark-SlotSound slot slot (reason_text reason) d h
mark_if-SlotSound false reason slot d h = h
