-- ===== src/Provider/Decode/Selection.antt =====
-- crates/rupi-provider/src/decode.rs: the slot that a fragment goes to has a builder.
use pi_rs.Prelude.{
  ℕ, suc, ◌+◌, ◌^◌, ◌<◌, ◌≡◌, refl, sym, subst, Bool, true, false, ◌||◌, Option, none, some, List,
  [], ◌∷◌, ◌++◌, length, length-append, is_empty, leb, leb→lt, ◌-◌, ◌==◌, arith,
}
use pi_rs.Prelude.Text.{Text}
use pi_rs.Core.Completion.{max_response_tool_calls}
use pi_rs.Provider.Decode.{
  byte_len, Decoder, is_some, insert_tool, has_other_index, uncorrelated_slots,
  open_keyed_tool_slots,
}
use pi_rs.Provider.Decode.Accumulate.{
  Slotted, slotted, refused, OnSlot, then_slot, new_builder, new_tool_slot, ambiguous_slot,
  first_key, keyless_slot, id_only, select_slot,
}
use pi_rs.Provider.Decode.Slots.{Tools, EachBelow, AllBelow-more}
use pi_rs.Provider.Decode.Keys.{
  insert-next, Numbered-next, AllFit-snoc, argument_bytes-snoc, uncorrelated-EachBelow,
}
use pi_rs.Provider.Decode.Sound.{
  IsSound, SlotSound, mark-SlotSound, mark_all-SlotSound, slot-SlotSound, if-SlotSound,
  either-SlotSound,
}

module _ (new_id : ℕ → Text) where
  new_slot-IsSound :
      (d : Decoder)
      → length d.tools < max_response_tool_calls
      → IsSound d
      → SlotSound (
          slotted d.next_tool_slot (record d {
            tools = insert_tool d.next_tool_slot (new_builder new_id d.next_tool_slot) d.tools;
            next_tool_slot = d.next_tool_slot + 1;
          }))
  unfolding new_builder byte_len
  new_slot-IsSound d low s =
      let b = new_builder new_id d.next_tool_slot in
      let longer = length-append d.tools ((d.next_tool_slot, b) ∷ []) in
      let more : length (d.tools ++ (d.next_tool_slot, b) ∷ []) ≡ suc (length d.tools) =
        omega (arith, longer) in
      slot-SlotSound d.next_tool_slot _
        (subst
          (λ (ts : Tools). IsSound (record d { tools = ts; next_tool_slot = d.next_tool_slot + 1 }))
          (sym (insert-next d.next_tool_slot b d.tools s.next s.numbered))
          (record {
            numbered = Numbered-next d.next_tool_slot b d.tools s.next s.numbered;
            next = omega (arith, s.next, more);
            few = omega (arith, more);
            indices =
                AllBelow-more (length d.tools) _ d.tool_indices (omega (arith, more)) s.indices;
            ids = AllBelow-more (length d.tools) _ d.tool_ids (omega (arith, more)) s.ids;
            fit = AllFit-snoc d.next_tool_slot b d.tools (tt, omega arith, omega arith) s.fit;
            counted = omega (arith, s.counted, argument_bytes-snoc d.next_tool_slot b d.tools);
            total = s.total;
            events = s.events;
            text = s.text;
            reasoning = s.reasoning;
          }))
        (subst (λ (ts : Tools). d.next_tool_slot < length ts)
          (sym (insert-next d.next_tool_slot b d.tools s.next s.numbered))
          (omega (arith, s.next, more)))

  new_tool_slot-SlotSound : (d : Decoder) → IsSound d → SlotSound (new_tool_slot new_id d)
  unfolding new_tool_slot SlotSound
  new_tool_slot-SlotSound d s =
      if-SlotSound (leb max_response_tool_calls (length d.tools)) _ _ (λ e. tt)
        (λ e.
          if-SlotSound (leb (2 ^ 64 - 1) d.next_tool_slot) _ _ (λ f. tt)
            (λ f. new_slot-IsSound d (leb→lt _ _ e) s))

  -- What is done to a new slot keeps it sound.
  then-SlotSound :
      (r : Slotted) (f : OnSlot)
      → SlotSound r
      → ((slot : ℕ) (d : Decoder) → SlotSound (slotted slot d) → SlotSound (f slot d))
      → SlotSound (then_slot r f)
  unfolding then_slot SlotSound
  then-SlotSound (slotted slot d) f h k = k slot d h
  then-SlotSound (refused e) f h k = tt

  ambiguous-SlotSound :
      (existing : List ℕ) (d : Decoder) → IsSound d → SlotSound (ambiguous_slot new_id existing d)
  unfolding ambiguous_slot
  ambiguous-SlotSound existing d s =
      then-SlotSound (new_tool_slot new_id d) _ (new_tool_slot-SlotSound d s) (λ slot e h.
        either-SlotSound (is_empty existing) slot e _ h
          (mark-SlotSound slot slot _ _ (mark_all-SlotSound slot existing _ e h)))

  first_key-SlotSound :
      (slots : List ℕ) (d : Decoder)
      → EachBelow (length d.tools) slots
      → IsSound d
      → SlotSound (first_key new_id slots d)
  unfolding first_key
  first_key-SlotSound [] d h s = ambiguous-SlotSound [] d s
  first_key-SlotSound (slot ∷ []) d (low, h) s =
      if-SlotSound (length d.tools == 1) _ _
        (λ e. mark-SlotSound slot slot _ d (slot-SlotSound slot d s low))
        (λ e. ambiguous-SlotSound (slot ∷ []) d s)
  first_key-SlotSound (slot ∷ other ∷ slots) d h s = ambiguous-SlotSound (slot ∷ other ∷ slots) d s

  keyless-SlotSound :
      (batch : Bool) (fallback : Option ℕ) (d : Decoder)
      → ((slot : ℕ) → fallback ≡ some slot → slot < length d.tools)
      → IsSound d
      → SlotSound (keyless_slot new_id batch fallback d)
  unfolding keyless_slot
  keyless-SlotSound true fallback d h s =
      then-SlotSound (new_tool_slot new_id d) _ (new_tool_slot-SlotSound d s) (λ slot e k.
        mark-SlotSound slot slot _ _ (mark_all-SlotSound slot (open_keyed_tool_slots e) _ e k))
  keyless-SlotSound false (some slot) d h s = slot-SlotSound slot d s (h slot refl)
  keyless-SlotSound false none d h s = ambiguous-SlotSound (open_keyed_tool_slots d) d s

  id_only-SlotSound :
      (index : Option ℕ) (slot : ℕ) (d : Decoder)
      → slot < length d.tools
      → IsSound d
      → SlotSound (id_only new_id index slot d)
  unfolding id_only
  id_only-SlotSound none slot d low s = slot-SlotSound slot d s low
  id_only-SlotSound (some index) slot d low s =
      if-SlotSound (has_other_index d.tool_indices slot index) _ _
        (λ b.
          then-SlotSound (new_tool_slot new_id d) _ (new_tool_slot-SlotSound d s)
            (λ other e h. mark-SlotSound other other _ _ (mark-SlotSound other slot _ e h)))
        (λ b. slot-SlotSound slot d s low)

  pub select_slot-SlotSound :
      (slot other index : Option ℕ) (has_id batch : Bool) (fallback : Option ℕ) (d : Decoder)
      → ((n : ℕ) → slot ≡ some n → n < length d.tools)
      → ((n : ℕ) → other ≡ some n → n < length d.tools)
      → ((n : ℕ) → fallback ≡ some n → n < length d.tools)
      → IsSound d
      → SlotSound (select_slot new_id slot other index has_id batch fallback d)
  unfolding select_slot
  select_slot-SlotSound (some slot) (some other) index has_id batch fallback d h k l s =
      let here = slot-SlotSound slot d s (h slot refl) in
      either-SlotSound (slot == other) slot d _ here
        (mark-SlotSound slot other _ _ (mark-SlotSound slot slot _ d here))
  select_slot-SlotSound (some slot) none index has_id batch fallback d h k l s =
      slot-SlotSound slot d s (h slot refl)
  select_slot-SlotSound none (some slot) index has_id batch fallback d h k l s =
      id_only-SlotSound index slot d (k slot refl) s
  select_slot-SlotSound none none index has_id batch fallback d h k l s =
      if-SlotSound (is_some index || has_id) _ _
        (λ e.
          first_key-SlotSound (uncorrelated_slots d.tool_indices d.tools) d
            (uncorrelated-EachBelow d.tool_indices d.tools s.numbered) s)
        (λ e. keyless-SlotSound batch fallback d l s)
