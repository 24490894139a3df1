-- ===== src/Tui/Editor/Complete.antt =====
-- crates/rupi-tui/src/complete.rs, and the part of editor.rs that Tab runs.
use pi_rs.Prelude.{
  ℕ, zero, suc, ◌+◌, ◌-◌, ◌%◌, Bool, false, not, ◌&&◌, ◌||◌, Option, none, some, List, [], ◌∷◌,
  ◌++◌, length, get_or, take, drop, is_empty, set, ◌==◌, if◌then◌else◌,
}
use pi_rs.Prelude.Text.{Text, text_eq, starts_with, is_whitespace, trim}
use pi_rs.Tui.Editor.{Editor, Outcome, changed, unchanged, line_at}

unfoldable pub trim_slashes : Text → Text
trim_slashes [] = []
trim_slashes (c ∷ s) = if c == b'/' then trim_slashes s else c ∷ s

unfoldable pub member : List Text → Text → Bool
unfolding text_eq
member [] w = false
member (x ∷ xs) w = text_eq x w || member xs w

-- The loop of `Completions::new`, with the names seen so far.
unfoldable pub collect : List Text → List Text → List Text
unfolding member trim trim_slashes
collect seen [] = seen
collect seen (word ∷ words) =
    let name = trim_slashes (trim word) in
    collect (if not (is_empty name) && not (member seen name) then seen ++ name ∷ [] else seen)
      words

unfoldable pub completions_new : List Text → List Text
unfolding collect
completions_new words = collect [] words

unfoldable pub set_completions : Editor → List Text → Editor
unfolding completions_new
set_completions e words = record e { completions = completions_new words; completion = none }

unfoldable pub matching : List Text → Text → List Text
unfolding starts_with
matching [] after_slash = []
matching (name ∷ names) after_slash =
    if starts_with name after_slash
    then name ∷ matching names after_slash
    else matching names after_slash

-- `while !name.starts_with(&prefix) && !prefix.is_empty() { prefix.pop() }`, by the characters that
-- are left of the prefix.
unfoldable pub pop_until : Text → Text → ℕ → Text
unfolding starts_with
pop_until name prefix zero = []
pop_until name prefix (suc n) =
    let popped = pop_until name prefix n in
    if not (starts_with name (take (suc n) prefix)) then popped else take (suc n) prefix

unfoldable pub shared_all : Text → List Text → Text
unfolding pop_until
shared_all prefix [] = prefix
shared_all prefix (name ∷ names) = shared_all (pop_until name prefix (length prefix)) names

unfoldable pub common_prefix : List Text → Text
unfolding shared_all
common_prefix [] = []
common_prefix (name ∷ names) = shared_all name names

-- `step` once the matches are known, by how many there are.
unfoldable pub step_among : List Text → ℕ → Option Text
unfolding common_prefix
step_among [] press = none
step_among (name ∷ []) press = if press == 0 then some (b'/' ∷ (name ++ b' ' ∷ [])) else none
step_among (name ∷ other ∷ rest) press =
    let names = name ∷ other ∷ rest in
    if press == 0
    then some (b'/' ∷ common_prefix names)
    else some (b'/' ∷ get_or names ((press - 1) % length names) [])

unfoldable pub step : List Text → Text → ℕ → Option Text
unfolding step_among matching
step words [] press = none
step words (c ∷ after_slash) press =
    if c == b'/' then step_among (matching words after_slash) press else none

-- The position of the first whitespace, or the length.
unfoldable pub first_word_end : Text → ℕ
unfolding is_whitespace
first_word_end [] = 0
first_word_end (c ∷ line) = if is_whitespace c then 0 else suc (first_word_end line)

unfoldable pub cycle_still_open : List Text → Text → Text → Bool
unfolding starts_with member matching trim_slashes
cycle_still_open words base word =
    starts_with word base || member (matching words (trim_slashes base)) (trim_slashes word)

-- The base and the press that a Tab counts from.
unfoldable pub cycle_from : List Text → Option (Text × ℕ) → Text → Text × ℕ
unfolding cycle_still_open
cycle_from words none word = (word, 0)
cycle_from words (some (base, presses)) word =
    if cycle_still_open words base word then (base, presses + 1) else (word, 0)

abbrev closed : Editor → Editor × Outcome
closed e = (record e { completion = none }, unchanged)

unfoldable pub replace_word : Editor → Text → Text × ℕ → Option Text → Editor × Outcome
unfolding text_eq
replace_word e word cycle none = closed e
replace_word e word cycle (some replacement) =
    if text_eq replacement word then (record e { completion = some cycle }, unchanged) else (
      record e {
        completion = some cycle;
        lines = set e.lines 0 (replacement ++ drop (length word) (line_at e 0));
        cursor = record e.cursor { column = length replacement };
        desired = none;
      },
      changed,
    )

-- `complete`
unfoldable pub complete_word : Editor → Editor × Outcome
unfolding replace_word cycle_from step first_word_end
complete_word e =
    let line = line_at e 0 in
    let word_end = first_word_end line in
    let word = take word_end line in
    let cycle = cycle_from e.completions e.completion word in
    if is_empty e.completions
    then (e, unchanged)
    else if not (e.cursor.line == 0)
    then closed e
    else if not (e.cursor.column == word_end)
    then closed e
    else if not (starts_with word (b'/' ∷ []))
    then closed e
    else replace_word e word cycle (step e.completions cycle.0 cycle.1)
