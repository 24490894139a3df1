-- ===== src/Provider/Decode/Limits.antt =====
-- crates/rupi-provider/src/decode.rs: `accumulate_tool` as a whole.
use pi_rs.Prelude.{
  ℕ, ◌+◌, ◌<◌, ◌≡◌, inl, inr, refl, subst, Bool, true, false, not, ◌&&◌, Option, none, some, length,
  leb, leb→lt, if◌then◌else◌, Bool-cases, arith,
}
use pi_rs.Prelude.Text.{Text}
use pi_rs.Core.Completion.{max_response_events}
use pi_rs.Provider.Decode.{
  Decoder, Fragment, account_response_event, is_some, open_keyed_tool_slots,
}
use pi_rs.Provider.Decode.Accumulate.{
  Slotted, slotted, refused, provider_id, index_slot, id_slot, fill_slot, Accumulated, accumulated,
  limited, panicked, filled, singleton_fallback, fill_selected, accumulate_counted,
  accumulate_if_counted, accumulate_tool,
}
use pi_rs.Provider.Decode.Slots.{find_slot-below, find_id-below}
use pi_rs.Provider.Decode.Keys.{open_keyed-EachBelow, only-below}
use pi_rs.Provider.Decode.Sound.{IsSound, SlotSound}
use pi_rs.Provider.Decode.Selection.{select_slot-SlotSound}
use pi_rs.Provider.Decode.Filling.{Held}
use pi_rs.Provider.Decode.Pushing.{fill_slot-Held}

-- The decoder after a fragment, and that the fragment did not end in a panic.
unfoldable pub LeavesSound : Accumulated → Type 0
LeavesSound (accumulated d) = IsSound d
LeavesSound (limited e d) = IsSound d
LeavesSound panicked = ⊥

one_event-IsSound :
    (d : Decoder)
    → d.response_events < max_response_events
    → IsSound d
    → IsSound (record d { response_events = d.response_events + 1 })
one_event-IsSound d low s = record {
  numbered = s.numbered;
  next = s.next;
  few = s.few;
  indices = s.indices;
  ids = s.ids;
  fit = s.fit;
  counted = s.counted;
  total = s.total;
  events = omega arith;
  text = s.text;
  reasoning = s.reasoning;
}

pub counted-IsSound : (d e : Decoder) → account_response_event d ≡ some e → IsSound d → IsSound e
unfolding account_response_event
counted-IsSound d e h s = elim (Bool-cases (leb max_response_events d.response_events)) [
  | inl full ↦ absurd (ground arith)
  | inr room ↦
      let same : record d { response_events = d.response_events + 1 } ≡ e = ground arith in
      subst IsSound same (one_event-IsSound d (leb→lt _ _ room) s)
]

filled-LeavesSound : (slot : ℕ) (o : Option Decoder) → Held slot o → LeavesSound (filled o)
unfolding filled LeavesSound Held SlotSound
filled-LeavesSound slot none h = h
filled-LeavesSound slot (some d) h = h.0

selected-LeavesSound :
    (call : Fragment) (fallback : Bool) (d : Decoder) (r : Slotted)
    → IsSound d
    → SlotSound r
    → LeavesSound (fill_selected call fallback d r)
unfolding fill_selected LeavesSound
selected-LeavesSound call fallback d (refused e) s h = s
selected-LeavesSound call fallback d (slotted slot e) s h =
    filled-LeavesSound slot (fill_slot call fallback slot e) (fill_slot-Held call fallback slot e h)

index_slot-below :
    (d : Decoder) (index : Option ℕ) (slot : ℕ)
    → IsSound d
    → index_slot d index ≡ some slot
    → slot < length d.tools
unfolding index_slot
index_slot-below d none slot s h = absurd (ground arith)
index_slot-below d (some index) slot s h =
    find_slot-below (length d.tools) d.tool_indices index slot s.indices h

id_slot-below :
    (d : Decoder) (id : Option Text) (slot : ℕ)
    → IsSound d
    → id_slot d id ≡ some slot
    → slot < length d.tools
unfolding id_slot
id_slot-below d none slot s h = absurd (ground arith)
id_slot-below d (some id) slot s h = find_id-below (length d.tools) d.tool_ids id slot s.ids h

if_some : (b : Bool) (o : Option ℕ) (n : ℕ) → (if b then o else none) ≡ some n → o ≡ some n
if_some true o n h = h
if_some false o n h = absurd (ground arith)

fallback-below :
    (call : Fragment) (batch : Bool) (d : Decoder) (slot : ℕ)
    → IsSound d
    → singleton_fallback call batch d ≡ some slot
    → slot < length d.tools
unfolding singleton_fallback
fallback-below call batch d slot s h =
    only-below (length d.tools) slot (open_keyed_tool_slots d)
      (open_keyed-EachBelow d.tool_indices d.tools s.numbered)
      (if_some (not (is_some call.index) && (not (is_some (provider_id call)) && not batch)) _ slot
        h)

module _ (new_id : ℕ → Text) where
  counted-LeavesSound :
      (call : Fragment) (batch : Bool) (d : Decoder)
      → IsSound d
      → LeavesSound (accumulate_counted new_id call batch d)
  unfolding accumulate_counted
  counted-LeavesSound call batch d s =
      selected-LeavesSound call (is_some (singleton_fallback call batch d)) d _ s (
        select_slot-SlotSound new_id (index_slot d call.index) (id_slot d (provider_id call))
          call.index (is_some (provider_id call)) batch (singleton_fallback call batch d) d
          (λ n h. index_slot-below d call.index n s h)
          (λ n h. id_slot-below d (provider_id call) n s h)
          (λ n h. fallback-below call batch d n s h) s)

  if_counted-LeavesSound :
      (call : Fragment) (batch : Bool) (d : Decoder) (o : Option Decoder)
      → IsSound d
      → ((e : Decoder) → o ≡ some e → IsSound e)
      → LeavesSound (accumulate_if_counted new_id call batch d o)
  unfolding accumulate_if_counted LeavesSound
  if_counted-LeavesSound call batch d none s h = s
  if_counted-LeavesSound call batch d (some counted) s h =
      counted-LeavesSound call batch counted (h counted refl)

  -- Whatever fragment arrives, and in whatever order, a decoder that is sound stays so, whether the
  -- fragment is taken or meets a limit of the response; and it never panics at a slot without a
  -- builder.
  pub accumulate_tool-LeavesSound :
      (call : Fragment) (batch : Bool) (d : Decoder)
      → IsSound d
      → LeavesSound (accumulate_tool new_id call batch d)
  unfolding accumulate_tool
  accumulate_tool-LeavesSound call batch d s =
      if_counted-LeavesSound call batch d (account_response_event d) s
        (λ e h. counted-IsSound d e h s)
