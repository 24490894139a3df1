-- ===== src/Provider/Decode/Filling.antt =====
-- crates/rupi-provider/src/decode.rs: what `accumulate_tool` writes into a builder keeps to the limits.
use pi_rs.Prelude.{
  ℕ, ◌<◌, ◌≡◌, refl, sym, subst, Bool, true, false, Option, none, some, [], ◌∷◌, ◌++◌, length,
  if◌then◌else◌,
}
use pi_rs.Prelude.Text.{Text}
use pi_rs.Provider.Decode.{ToolBuilder, Decoder, is_some, find_slot, find_id, find_tool}
use pi_rs.Provider.Decode.Accumulate.{
  slotted, index_or_insert, id_or_insert, change, has_other_id, at_slot, set_id, and_then,
}
use pi_rs.Provider.Decode.Slots.{ShortId, Fits, AllBelow-snoc, length-update}
use pi_rs.Provider.Decode.Keys.{find_tool-below}
use pi_rs.Provider.Decode.Sound.{SlotSound, change-IsSound, mark-SlotSound, either-SlotSound}

-- The step does not panic, and the slot still has its builder.
unfoldable pub Held : ℕ → Option Decoder → Type 0
Held slot none = ⊥
Held slot (some d) = SlotSound (slotted slot d)

pub then-Held :
    (slot : ℕ) (o : Option Decoder) (f : Decoder → Option Decoder)
    → Held slot o
    → ((d : Decoder) → SlotSound (slotted slot d) → Held slot (f d))
    → Held slot (and_then o f)
unfolding Held
then-Held slot none f h k = absurd h
then-Held slot (some d) f h k = k d h

pub change-SlotSound :
    (slot : ℕ) (f : ToolBuilder → ToolBuilder) (d : Decoder)
    → ((b : ToolBuilder) → find_tool d.tools slot ≡ some b → Fits b → Fits (f b))
    → ((b : ToolBuilder) → (f b).arguments ≡ b.arguments)
    → SlotSound (slotted slot d)
    → SlotSound (slotted slot (change slot f d))
unfolding SlotSound change
change-SlotSound slot f d fits same (s, low) = (
  change-IsSound slot f d fits same s,
  subst (λ (n : ℕ). slot < n) (sym (length-update slot f d.tools)) low,
)

index-SlotSound :
    (index slot : ℕ) (d : Decoder)
    → SlotSound (slotted slot d)
    → SlotSound (slotted slot (record d { tool_indices = d.tool_indices ++ (index, slot) ∷ [] }))
unfolding SlotSound
index-SlotSound index slot d (s, low) = (
  record {
    numbered = s.numbered;
    next = s.next;
    few = s.few;
    indices = AllBelow-snoc (length d.tools) d.tool_indices index slot low s.indices;
    ids = s.ids;
    fit = s.fit;
    counted = s.counted;
    total = s.total;
    events = s.events;
    text = s.text;
    reasoning = s.reasoning;
  },
  low,
)

id-SlotSound :
    (id : Text) (slot : ℕ) (d : Decoder)
    → SlotSound (slotted slot d)
    → SlotSound (slotted slot (record d { tool_ids = d.tool_ids ++ (id, slot) ∷ [] }))
unfolding SlotSound
id-SlotSound id slot d (s, low) = (
  record {
    numbered = s.numbered;
    next = s.next;
    few = s.few;
    indices = s.indices;
    ids = AllBelow-snoc (length d.tools) d.tool_ids id slot low s.ids;
    fit = s.fit;
    counted = s.counted;
    total = s.total;
    events = s.events;
    text = s.text;
    reasoning = s.reasoning;
  },
  low,
)

pub index_or_insert-SlotSound :
    (index : Option ℕ) (slot : ℕ) (d : Decoder)
    → SlotSound (slotted slot d)
    → SlotSound (slotted slot (index_or_insert index slot d))
unfolding index_or_insert
index_or_insert-SlotSound none slot d h = h
index_or_insert-SlotSound (some index) slot d h =
    either-SlotSound (is_some (find_slot d.tool_indices index)) slot d _ h
      (index-SlotSound index slot d h)

id_or_insert-SlotSound :
    (id : Text) (slot : ℕ) (d : Decoder)
    → SlotSound (slotted slot d)
    → SlotSound (slotted slot (id_or_insert id slot d))
unfolding id_or_insert
id_or_insert-SlotSound id slot d h =
    either-SlotSound (is_some (find_id d.tool_ids id)) slot d _ h (id-SlotSound id slot d h)

find_builder :
    (slot : ℕ) (d : Decoder)
    → SlotSound (slotted slot d)
    → (b : ToolBuilder) × (find_tool d.tools slot ≡ some b)
unfolding SlotSound
find_builder slot d (s, low) = find_tool-below slot d.tools s.numbered low

pub if-Decoder :
    (slot : ℕ) (b : Bool) (d e : Decoder)
    → (b ≡ true → SlotSound (slotted slot d))
    → (b ≡ false → SlotSound (slotted slot e))
    → SlotSound (slotted slot (if b then d else e))
if-Decoder slot true d e h k = h refl
if-Decoder slot false d e h k = k refl

pub at_slot-Held :
    (slot : ℕ) (d : Decoder) (f : ToolBuilder → Decoder)
    → SlotSound (slotted slot d)
    → ((b : ToolBuilder) → find_tool d.tools slot ≡ some b → SlotSound (slotted slot (f b)))
    → Held slot (at_slot (find_tool d.tools slot) f)
unfolding at_slot Held
at_slot-Held slot d f h k =
    let (b, found) = find_builder slot d h in
    subst (λ (o : Option ToolBuilder). Held slot (at_slot o f)) (sym found) (k b found)

pub set_id-Held :
    (id : Option Text) (slot : ℕ) (d : Decoder)
    → ShortId id
    → SlotSound (slotted slot d)
    → Held slot (set_id id slot d)
unfolding set_id Held
set_id-Held none slot d short h = h
set_id-Held (some id) slot d short h = at_slot-Held slot d _ h (λ b found.
    change-SlotSound slot _ _ (λ c at fit. (short, fit.1, fit.2)) (λ c. refl)
      (id_or_insert-SlotSound id slot _
        (either-SlotSound (has_other_id b.id id) slot _ d (mark-SlotSound slot slot _ d h) h)))
