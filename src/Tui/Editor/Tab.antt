-- ===== src/Tui/Editor/Tab.antt =====
-- crates/rupi-tui/src/editor.rs, complete.rs: what Tab puts in the buffer holds no newline.
use pi_rs.Prelude.{
  ℕ, zero, suc, ◌-◌, ◌≡◌, ap, Bool, true, false, not, Option, none, some, List, [], ◌∷◌, ◌++◌,
  arith, length, get_or, take, drop, set, is_empty, length-append, length-set, get_or-set, ◌==◌,
  ◌∙◌, if◌then◌else◌, ◌%◌,
}
use pi_rs.Prelude.Text.{
  Text, Lacks, AllLack, Lacks-append, Lacks-take, Lacks-drop, AllLack-get_or, AllLack-set, text_eq,
  starts_with,
}
use pi_rs.Tui.Editor.{Editor, line_at}
use pi_rs.Tui.Editor.Caret.{choose-IsValid}
use pi_rs.Tui.Editor.Complete.{
  matching, pop_until, shared_all, common_prefix, step_among, step, first_word_end, cycle_from,
  replace_word, complete_word,
}
use pi_rs.Tui.Editor.Valid.{IsValid}

matching-AllLack :
    (d : ℕ) (words : List Text) (s : Text) → AllLack d words → AllLack d (matching words s)
unfolding matching
matching-AllLack d [] s h = tt
matching-AllLack d (name ∷ names) s h = ground (arith, matching-AllLack d names s h.1)

pop_until-Lacks :
    (d : ℕ) (name prefix : Text) (n : ℕ) → Lacks d prefix → Lacks d (pop_until name prefix n)
unfolding pop_until
pop_until-Lacks d name prefix zero h = tt
pop_until-Lacks d name prefix (suc n) h =
    ground (arith, pop_until-Lacks d name prefix n h, Lacks-take d (suc n) prefix h)

shared_all-Lacks :
    (d : ℕ) (prefix : Text) (names : List Text) → Lacks d prefix → Lacks d (shared_all prefix names)
unfolding shared_all
shared_all-Lacks d prefix [] h = h
shared_all-Lacks d prefix (name ∷ names) h =
    shared_all-Lacks d (pop_until name prefix (length prefix)) names
      (pop_until-Lacks d name prefix (length prefix) h)

common_prefix-Lacks : (d : ℕ) (names : List Text) → AllLack d names → Lacks d (common_prefix names)
unfolding common_prefix
common_prefix-Lacks d [] h = tt
common_prefix-Lacks d (name ∷ names) h = shared_all-Lacks d name names h.0

abbrev Lacks? : Option Text → Type 0
Lacks? none = Unit
Lacks? (some t) = Lacks b'\n' t

if-Lacks? : (b : Bool) (x y : Option Text) → Lacks? x → Lacks? y → Lacks? (if b then x else y)
if-Lacks? true x y h k = h
if-Lacks? false x y h k = k

step_among-Lacks :
    (names : List Text) (press : ℕ) → AllLack b'\n' names → Lacks? (step_among names press)
unfolding step_among
step_among-Lacks [] press h = tt
step_among-Lacks (name ∷ []) press h =
    if-Lacks? (press == 0) _ _
      (omega arith, Lacks-append b'\n' name (b' ' ∷ []) h.0 (omega arith, tt)) tt
step_among-Lacks (name ∷ other ∷ rest) press h =
    let names = name ∷ other ∷ rest in
    if-Lacks? (press == 0) _ _ (omega arith, common_prefix-Lacks b'\n' names h)
      (omega arith, AllLack-get_or b'\n' names ((press - 1) % length names) h)

step-Lacks :
    (words : List Text) (word : Text) (press : ℕ)
    → AllLack b'\n' words
    → Lacks? (step words word press)
unfolding step
step-Lacks words [] press h = tt
step-Lacks words (c ∷ after_slash) press h =
    if-Lacks? (c == b'/') _ _
      (step_among-Lacks (matching words after_slash) press
        (matching-AllLack b'\n' words after_slash h))
      tt

pub closed-IsValid :
    (e : Editor) (c : Option (Text × ℕ)) → IsValid e → IsValid (record e { completion = c })
closed-IsValid e c v = record {
  line_in = v.line_in;
  column_in = v.column_in;
  one_line = v.one_line;
  words = v.words;
  wide = v.wide;
  recalls = v.recalls;
}

replaced-IsValid :
    (e : Editor) (c : Option (Text × ℕ)) (t rest : Text)
    → IsValid e
    → e.cursor.line ≡ 0
    → Lacks b'\n' t
    → Lacks b'\n' rest
    → IsValid (record e {
      completion = c;
      lines = set e.lines 0 (t ++ rest);
      cursor = record e.cursor { column = length t };
      desired = none;
    })
replaced-IsValid e c t rest v first h k = record {
  line_in = omega (arith, length-set e.lines 0 (t ++ rest), v.line_in);
  column_in =
      let kept : get_or (set e.lines 0 (t ++ rest)) e.cursor.line [] ≡ t ++ rest =
        ap (λ (n : ℕ). get_or (set e.lines 0 (t ++ rest)) n []) first
        ∙ get_or-set e.lines 0 (t ++ rest) [] (omega (arith, v.line_in)) in
      omega (arith, ap (λ (u : Text). length u) kept, length-append t rest);
  one_line = AllLack-set b'\n' e.lines 0 (t ++ rest) v.one_line (Lacks-append b'\n' t rest h k);
  words = v.words;
  wide = v.wide;
  recalls = v.recalls;
}

replace_word-IsValid :
    (e : Editor) (word : Text) (cycle : Text × ℕ) (found : Option Text)
    → IsValid e
    → e.cursor.line ≡ 0
    → Lacks? found
    → IsValid (replace_word e word cycle found).0
unfolding replace_word
replace_word-IsValid e word cycle none v first h = closed-IsValid e none v
replace_word-IsValid e word cycle (some t) v first h =
    choose-IsValid (text_eq t word) _ _ (λ _. closed-IsValid e (some cycle) v)
      λ _.
        replaced-IsValid e (some cycle) t (drop (length word) (line_at e 0)) v first h
          (Lacks-drop b'\n' (length word) (line_at e 0) (AllLack-get_or b'\n' e.lines 0 v.one_line))

pub complete_word-IsValid : (e : Editor) → IsValid e → IsValid (complete_word e).0
unfolding complete_word
complete_word-IsValid e v =
    let line = line_at e 0 in
    let word = take (first_word_end line) line in
    let cycle = cycle_from e.completions e.completion word in
    choose-IsValid (is_empty e.completions) _ _ (λ _. v)
      λ _.
        choose-IsValid (not (e.cursor.line == 0)) _ _ (λ _. closed-IsValid e none v)
          λ first.
            choose-IsValid (not (e.cursor.column == first_word_end line)) _ _
              (λ _. closed-IsValid e none v)
              λ _.
                choose-IsValid (not (starts_with word (b'/' ∷ []))) _ _
                  (λ _. closed-IsValid e none v)
                  λ _.
                    replace_word-IsValid e word cycle (step e.completions cycle.0 cycle.1) v
                      (ground arith) (step-Lacks e.completions cycle.0 cycle.1 v.words)
