-- ===== src/Runtime/History.antt =====
-- crates/rupi-runtime/src/turn.rs: what leaves the model-visible history, `evict_oldest_with_estimate`
-- and the boundaries at which it may be cut. The size of a request is an argument: a number for the
-- messages that it carries, of its prompt alone or with the room for its answer.
pub mod Boundary
pub mod Best
pub mod Choice
pub mod Searches
pub mod Eviction
mod Tests
use pi_rs.Prelude.{
  ℕ, zero, suc, ◌+◌, ◌-◌, ◌^◌, Bool, true, false, not, ◌&&◌, ◌||◌, Option, none, some, List, [],
  ◌∷◌, ◌++◌, length, get_or, take, drop, is_empty, reverse, min, max, ltb, leb, ◌==◌, if◌then◌else◌,
}
use pi_rs.Prelude.Text.{Text, text_eq}
use pi_rs.Core.Message.{
  Role, system, user, assistant, tool, is_terminal, is_unknown, ToolCallBlock, ToolResultBlock,
  Message, tool_calls, tool_results,
}

unfoldable pub is_user : Role → Bool
is_user user = true
is_user _ = false

unfoldable pub is_tool : Role → Bool
is_tool tool = true
is_tool _ = false

-- `messages[index]`, which the code reads only in range.
abbrev pub message_at : List Message → ℕ → Message
message_at messages index = get_or messages index (record { role = user; content = [] })

unfoldable pub safe_eviction_boundary : List Message → ℕ → ℕ → ℕ → Bool
unfolding is_user tool_calls
safe_eviction_boundary messages start boundary end =
    if ltb boundary start || (ltb end boundary || ltb (length messages) boundary)
    then false
    else if boundary == start
    then true
    else if ltb boundary (length messages) && not (is_user (message_at messages boundary).role)
    then false
    else is_empty (tool_calls (message_at messages (boundary - 1)).content)

-- A `BTreeSet` of identifiers as a list without repetition: `contains` and `remove`.
unfoldable pub has_id : List Text → Text → Bool
unfolding text_eq
has_id [] id = false
has_id (x ∷ xs) id = text_eq x id || has_id xs id

unfoldable pub without_id : List Text → Text → List Text
unfolding text_eq
without_id [] id = []
without_id (x ∷ xs) id = if text_eq x id then xs else x ∷ without_id xs id

-- The results of one tool message: the set with their identifiers, unless one is not settled or new.
unfoldable pub insert_results : List Text → List ToolResultBlock → Option (List Text)
unfolding has_id is_terminal is_unknown
insert_results results [] = some results
insert_results results (result ∷ rest) =
    if is_unknown result.state || not (is_terminal result.state)
    then none
    else if has_id results result.id
    then none
    else insert_results (result.id ∷ results) rest

-- `calls.iter().any(|call| !results.remove(&call.id))`: the set without the calls, unless one is not
-- in it.
unfoldable pub remove_calls : List Text → List ToolCallBlock → Option (List Text)
unfolding has_id without_id
remove_calls results [] = some results
remove_calls results (call ∷ calls) =
    if has_id results call.id then remove_calls (without_id results call.id) calls else none

abbrev pub OnResults : Type 0
OnResults = Bool → List Text → Bool

unfoldable pub go_on : OnResults → Bool → Option (List Text) → Bool
go_on next saw_tool none = false
go_on next saw_tool (some results) = next saw_tool results

-- One message, by its role; `next` is the loop over the messages before it.
unfoldable pub cycle_step : Role → List Text → Bool → Message → OnResults → Bool
unfolding go_on insert_results remove_calls tool_calls tool_results
cycle_step tool results saw_tool m next =
    go_on next true (insert_results results (tool_results m.content))
cycle_step assistant results saw_tool m next =
    if is_empty (tool_calls m.content)
    then next saw_tool results
    else if not saw_tool
    then false
    else go_on next saw_tool (remove_calls results (tool_calls m.content))
cycle_step system results saw_tool m next = next saw_tool results
cycle_step user results saw_tool m next = next saw_tool results

-- The loop over the messages, newest first.
unfoldable pub cycle_loop : Bool → List Text → List Message → Bool
unfolding cycle_step
cycle_loop saw_tool results [] = is_empty results
cycle_loop saw_tool results (m ∷ ms) =
    cycle_step m.role results saw_tool m (λ saw results. cycle_loop saw results ms)

unfoldable pub safe_completed_cycle_boundary : List Message → ℕ → ℕ → Bool
unfolding cycle_loop is_tool
safe_completed_cycle_boundary messages start boundary =
    if leb boundary start || ltb (length messages) boundary
    then false
    else if not (is_tool (message_at messages (boundary - 1)).role)
    then false
    else cycle_loop false [] (reverse (take (boundary - start) (drop start messages)))

pub record History : Type 0 where
  pub messages : List Message
  pub message_seqs : List (Option ℕ)
  pub checkpoint_floor : ℕ
  pub turn_history_start : ℕ

-- `resize` with `None`, or `truncate`.
unfoldable pub resize : ℕ → List (Option ℕ) → List (Option ℕ)
resize zero seqs = []
resize (suc n) [] = none ∷ resize n []
resize (suc n) (seq ∷ seqs) = seq ∷ resize n seqs

unfoldable pub normalize_message_seqs : History → History
unfolding resize
normalize_message_seqs h = record h { message_seqs = resize (length h.messages) h.message_seqs }

-- `drain(start..end)`
abbrev pub drain {ℓ} : {A : Type ℓ} → ℕ → ℕ → List A → List A
drain start end xs = take start xs ++ drop end xs

-- The event `ContextReduced`.
pub record ContextReduced : Type 0 where
  pub original_bytes : ℕ
  pub visible_bytes : ℕ
  pub removed_messages : ℕ
  pub retained_messages : ℕ

pub data Evicted : Type 0 where
  kept : Evicted
  reduced : ContextReduced → Evicted
  failed : ℕ → Evicted

-- `while desired < max_drop && … > target`, by the rounds left.
unfoldable pub desired_drop : (ℕ → ℕ) → ℕ → ℕ → ℕ → ℕ
desired_drop size target zero desired = desired
desired_drop size target (suc rounds) desired =
    let more = desired_drop size target rounds (desired + 1) in
    if ltb target (size desired) then more else desired

-- `(desired..=max_drop).find`, by the rounds left, and `(0..=desired).rev().find`.
unfoldable pub find_up : (ℕ → Bool) → ℕ → ℕ → Option ℕ
find_up test zero n = if test n then some n else none
find_up test (suc rounds) n =
    let later = find_up test rounds (n + 1) in if test n then some n else later

unfoldable pub find_down : (ℕ → Bool) → ℕ → Option ℕ
find_down test zero = if test 0 then some 0 else none
find_down test (suc n) =
    let lower = find_down test n in if test (suc n) then some (suc n) else lower

abbrev pub or_zero : Option ℕ → ℕ
or_zero none = 0
or_zero (some n) = n

abbrev pub or_else : Option ℕ → Option ℕ → Option ℕ
or_else none other = other
or_else (some n) other = some n

module _ (size : Bool → List Message → ℕ) where
  unfoldable pub after_eviction : List Message → ℕ → ℕ → List Message
  after_eviction messages start dropped =
      let end = min (start + dropped) (length messages) in
      if ltb start end then drain start end messages else messages

  unfoldable pub size_after : List Message → ℕ → Bool → ℕ → ℕ
  unfolding after_eviction
  size_after messages start prompt_only dropped =
      size prompt_only (after_eviction messages start dropped)

  unfoldable pub choose_drop : List Message → ℕ → ℕ → ℕ → Bool → ℕ
  unfolding size_after desired_drop find_up find_down safe_eviction_boundary
  choose_drop messages start end target prompt_only =
      let max_drop = end - start in
      let desired = desired_drop (size_after messages start prompt_only) target max_drop 0 in
      let safe = λ (n : ℕ). safe_eviction_boundary messages start (start + n) end in
      let fits = λ (n : ℕ). safe n && leb (size_after messages start true n) target in
      if prompt_only
      then or_zero (or_else (find_up fits (max_drop - desired) desired) (find_down safe desired))
      else or_zero (find_down safe desired)

  -- What `put_payload` and `emit` answer, an error being a code, decides.
  unfoldable pub drop_stored : History → ℕ → ℕ → Option ℕ → Evicted × History
  unfolding size_after
  drop_stored h start dropped (some e) = (failed e, h)
  drop_stored h start dropped none = (
    reduced (record {
      original_bytes = size_after h.messages 0 false 0;
      visible_bytes = size_after h.messages start false dropped;
      removed_messages = dropped;
      retained_messages = length h.messages - dropped;
    }),
    record h {
      messages = drain start (start + dropped) h.messages;
      message_seqs = drain start (start + dropped) h.message_seqs;
      turn_history_start =
          if ltb start h.turn_history_start
          then h.turn_history_start - dropped
          else h.turn_history_start;
    },
  )

  -- `dropped > 0`
  unfoldable pub drop_messages : History → ℕ → ℕ → Option ℕ → Evicted × History
  unfolding drop_stored
  drop_messages h start dropped stored =
      if ltb (2 ^ 32 - 1) dropped || ltb (2 ^ 32 - 1) (length h.messages - dropped)
      then (failed 0, h)
      else drop_stored h start dropped stored

  abbrev pub evictable_start : History → ℕ
  evictable_start h = min h.checkpoint_floor (length h.messages)

  abbrev pub evictable_end : History → ℕ
  evictable_end h =
      min (max (min h.turn_history_start (length h.messages)) (evictable_start h))
        (length h.messages)

  -- `evict_oldest_with_estimate`
  unfoldable pub evict_oldest : History → ℕ → Bool → Option ℕ → Evicted × History
  unfolding normalize_message_seqs choose_drop drop_messages
  evict_oldest h target prompt_only stored =
      let n = normalize_message_seqs h in
      let dropped =
        choose_drop n.messages (evictable_start n) (evictable_end n) target prompt_only in
      if ltb 0 dropped then drop_messages n (evictable_start n) dropped stored else (kept, n)
