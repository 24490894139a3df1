-- ===== src/Provider/Decode/Pushing.antt =====
-- crates/rupi-provider/src/decode.rs: a name and arguments that are taken in keep to the limits.
use pi_rs.Prelude.{
  ℕ, ◌+◌, ◌-◌, ◌^◌, ◌≤◌, ◌<◌, ◌≡◌, refl, sym, ap, subst, ◌∙◌, Bool, true, false, Option, none, some,
  ◌++◌, ltb, leb, leb→le, if◌then◌else◌, arith,
}
use pi_rs.Prelude.Text.{Text}
use pi_rs.Core.Completion.{
  max_tool_name_bytes, max_tool_id_bytes, max_tool_argument_bytes_per_call,
  max_tool_argument_bytes_total,
}
use pi_rs.Provider.Decode.{
  byte_len, saturating_add, ToolBuilder, Decoder, Fragment, long_id, no_key, find_tool, update_tool,
}
use pi_rs.Provider.Decode.Accumulate.{
  slotted, provider_tool_id, short_id, provider_id, oversized_id, set_id, push_name, push_arguments,
  fill_slot,
}
use pi_rs.Provider.Decode.Slots.{Tools, ShortId, length-update, argument_bytes-update}
use pi_rs.Provider.Decode.Sound.{
  SlotSound, byte_len-append, update-IsSound, mark-SlotSound, mark_if-SlotSound,
}
use pi_rs.Provider.Decode.Filling.{
  Held, then-Held, change-SlotSound, index_or_insert-SlotSound, if-Decoder, at_slot-Held,
  set_id-Held,
}

same_builder :
    (ts : Tools) (slot : ℕ) (b c : ToolBuilder)
    → find_tool ts slot ≡ some b
    → find_tool ts slot ≡ some c
    → b ≡ c
same_builder ts slot b c h k = cc

within_limit :
    (limit n m : ℕ) → limit < 2 ^ 64 - 1 → ltb limit (saturating_add n m) ≡ false → n + m ≤ limit
within_limit limit n m h e = ground arith

pushed_fits :
    (limit : ℕ) (s t : Text)
    → limit < 2 ^ 64 - 1
    → ltb limit (saturating_add (byte_len s) (byte_len t)) ≡ false
    → byte_len (s ++ t) ≤ limit
pushed_fits limit s t h e =
    subst (λ (n : ℕ). n ≤ limit) (sym (byte_len-append s t))
      (within_limit limit (byte_len s) (byte_len t) h e)

push_name-Held :
    (name : Option Text) (slot : ℕ) (d : Decoder)
    → SlotSound (slotted slot d)
    → Held slot (push_name name slot d)
unfolding push_name Held
push_name-Held none slot d h = h
push_name-Held (some name) slot d h = at_slot-Held slot d _ h (λ b found.
    if-Decoder slot (ltb max_tool_name_bytes (saturating_add (byte_len b.name) (byte_len name))) _ _
      (λ over. mark-SlotSound slot slot _ d h)
      (λ ok.
        change-SlotSound slot _ d
          (λ c at fit. (
            fit.0,
            subst (λ (x : ToolBuilder). byte_len (x.name ++ name) ≤ max_tool_name_bytes)
                (same_builder d.tools slot b c found at)
                (pushed_fits max_tool_name_bytes b.name name (omega arith) ok),
            fit.2,
          ))
          (λ c. refl) h))

arguments-SlotSound :
    (arguments : Text) (slot : ℕ) (b : ToolBuilder) (d : Decoder)
    → find_tool d.tools slot ≡ some b
    → ltb max_tool_argument_bytes_per_call
        (saturating_add (byte_len b.arguments) (byte_len arguments))
      ≡ false
    → ltb max_tool_argument_bytes_total (saturating_add d.tool_argument_bytes (byte_len arguments))
      ≡ false
    → SlotSound (slotted slot d)
    → SlotSound (
        slotted slot (record d {
          tools =
              update_tool slot
                (λ (c : ToolBuilder). record c { arguments = c.arguments ++ arguments })
                d.tools;
          tool_argument_bytes = saturating_add d.tool_argument_bytes (byte_len arguments);
        }))
unfolding SlotSound
arguments-SlotSound arguments slot b d found ok fine (s, low) =
    let f = λ (c : ToolBuilder). record c { arguments = c.arguments ++ arguments } in
    let sum =
      argument_bytes-update slot (byte_len arguments) f d.tools b found
        (byte_len-append b.arguments arguments) in
    let small =
      within_limit max_tool_argument_bytes_total d.tool_argument_bytes (byte_len arguments)
        (omega arith) fine in
    let exact : saturating_add d.tool_argument_bytes (byte_len arguments)
        ≡ d.tool_argument_bytes + byte_len arguments =
      omega arith in
    (
      update-IsSound slot _ f d
          (λ c at fit. (
            fit.0,
            fit.1,
            subst
                (λ (x : ToolBuilder).
                  byte_len (x.arguments ++ arguments) ≤ max_tool_argument_bytes_per_call)
                (same_builder d.tools slot b c found at)
                (pushed_fits max_tool_argument_bytes_per_call b.arguments arguments (omega arith)
                  ok),
          ))
          (exact ∙ ap (λ (n : ℕ). n + byte_len arguments) s.counted ∙ sym sum) (omega arith) s,
      subst (λ (n : ℕ). slot < n) (sym (length-update slot f d.tools)) low,
    )

if-ShortId :
    (b : Bool) (id : Text)
    → (b ≡ true → byte_len id ≤ max_tool_id_bytes)
    → ShortId (if b then some id else none)
if-ShortId true id h = h refl
if-ShortId false id h = tt

short_id-ShortId : (id : Option Text) → ShortId (short_id id)
unfolding short_id
short_id-ShortId none = tt
short_id-ShortId (some id) = if-ShortId (leb (byte_len id) max_tool_id_bytes) id (λ e. leb→le _ _ e)

push_arguments-Held :
    (arguments : Option Text) (slot : ℕ) (d : Decoder)
    → SlotSound (slotted slot d)
    → Held slot (push_arguments arguments slot d)
unfolding push_arguments Held
push_arguments-Held none slot d h = h
push_arguments-Held (some arguments) slot d h = at_slot-Held slot d _ h (λ b found.
    if-Decoder slot
      (ltb max_tool_argument_bytes_per_call
        (saturating_add (byte_len b.arguments) (byte_len arguments)))
      _ _ (λ over. mark-SlotSound slot slot _ d h)
      (λ ok.
        if-Decoder slot
          (ltb max_tool_argument_bytes_total
            (saturating_add d.tool_argument_bytes (byte_len arguments)))
          _ _ (λ over. mark-SlotSound slot slot _ d h)
          (λ fine. arguments-SlotSound arguments slot b d found ok fine h)))

-- All of `accumulate_tool` after the slot is known.
pub fill_slot-Held :
    (call : Fragment) (fallback : Bool) (slot : ℕ) (d : Decoder)
    → SlotSound (slotted slot d)
    → Held slot (fill_slot call fallback slot d)
unfolding fill_slot
fill_slot-Held call fallback slot d h =
    then-Held slot (set_id (provider_id call) slot _) _
      (set_id-Held (provider_id call) slot _ (short_id-ShortId (provider_tool_id call)) (
        index_or_insert-SlotSound call.index slot _
          (mark_if-SlotSound (oversized_id call) long_id slot d h)))
      (λ named k.
        then-Held slot (push_name call.name slot _) _
          (push_name-Held call.name slot _ (mark_if-SlotSound _ no_key slot named k))
          (λ e l. push_arguments-Held call.arguments slot e l))
