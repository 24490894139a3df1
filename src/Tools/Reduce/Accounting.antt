-- ===== src/Tools/Reduce/Accounting.antt =====
-- The reduced form accounts for every byte of the output.
use pi_rs.Prelude.{
  ℕ, zero, suc, ◌+◌, ◌-◌, ◌*◌, ◌/◌, ◌≤◌, ◌<◌, ◌≡◌, refl, sym, ap, ◌∙◌, true, [], ◌∷◌, ◌++◌, arith,
  length, take, drop, le→ltb, length-take, length-drop, take-append-drop,
}
use pi_rs.Tools.Reduce.{
  Bytes, Reduction, overflowed, reduced, budget_of, is_char_boundary, floor_char_boundary,
  ceil_char_boundary, assemble, reduce,
}
use pi_rs.Tools.Reduce.Boundaries.{floor_lem, ceil_lem}

drop-drop : (h k : ℕ) (xs : Bytes) → drop (h + k) xs ≡ drop k (drop h xs)
drop-drop zero k xs = let e : 0 + k ≡ k = omega arith in rw e
drop-drop (suc h) zero [] = let e : suc h + 0 ≡ suc h = omega arith in rw e
drop-drop (suc h) (suc k) [] = let e : suc h + suc k ≡ suc (h + suc k) = omega arith in rw e
drop-drop (suc h) k (x ∷ xs) =
    let e : suc h + k ≡ suc (h + k) = omega arith in rw e (drop-drop h k xs)

-- The output in three parts, the middle one elided, and the reduced form that they make.
pub record Accounts (notice : ℕ → ℕ → Bytes) (text : Bytes) (max_bytes : ℕ) (r : Reduction)
    : Type 0 where
  pub before : Bytes
  pub middle : Bytes
  pub after : Bytes
  pub whole : text ≡ before ++ (middle ++ after)
  pub shown : r.text ≡ before ++ (notice (length middle) (length text) ++ after)
  pub counted : r.elided_bytes ≡ length middle
  pub archived : r.full ≡ text
  pub sized : r.full_bytes ≡ length text
  pub bounded : length before + length after ≤ budget_of max_bytes
  pub starts_whole : is_char_boundary text (length before) ≡ true
  pub ends_whole : is_char_boundary text (length before + length middle) ≡ true

module _ (notice : ℕ → ℕ → Bytes) (text : Bytes) (max_bytes : ℕ) where
  -- The cuts of `assemble`, in order and within the budget.
  record Cuts (head tail_start : ℕ) : Type 0 where
    ordered : head ≤ tail_start
    inside : tail_start ≤ length text
    within_budget : head + (length text - tail_start) ≤ budget_of max_bytes
    head_boundary : is_char_boundary text head ≡ true
    tail_boundary : is_char_boundary text tail_start ≡ true

  assemble-Accounts :
      (head tail_start : ℕ)
      → Cuts head tail_start
      → (r : Reduction) × (assemble notice text max_bytes head tail_start ≡ reduced r)
        × Accounts notice text max_bytes r
  unfolding assemble
  assemble-Accounts head tail_start c =
      let middle = take (tail_start - head) (drop head text) in
      let shown =
        take head text ++ (notice (tail_start - head) (length text) ++ drop tail_start text) in
      let head_length : length (take head text) ≡ head =
        omega (arith, length-take head text, c.ordered, c.inside) in
      let middle_length : length middle ≡ tail_start - head = omega (
        arith,
        length-take (tail_start - head) (drop head text),
        length-drop head text,
        c.inside,
      ) in
      let after : drop tail_start text ≡ drop (tail_start - head) (drop head text) =
        ap (λ (n : ℕ). drop n text) (omega (arith, c.ordered))
        ∙ drop-drop head (tail_start - head) text in
      (
        record {
          text = shown;
          full = text;
          full_bytes = length text;
          elided_bytes = tail_start - head;
          budget = max_bytes;
        },
        rw (le→ltb tail_start head c.ordered),
        record {
          before = take head text;
          middle = middle;
          after = drop tail_start text;
          whole = rw after (
              sym (
                ap (λ (x : Bytes). take head text ++ x)
                  (take-append-drop (tail_start - head) (drop head text))
                ∙ take-append-drop head text));
          shown = rw middle_length;
          counted = sym middle_length;
          archived = refl;
          sized = refl;
          bounded = omega (arith, head_length, length-drop tail_start text, c.within_budget);
          starts_whole = rw head_length c.head_boundary;
          ends_whole =
              let e : length (take head text) + length middle ≡ tail_start =
                omega (arith, head_length, middle_length, c.ordered) in
              rw e c.tail_boundary;
        },
      )

  -- An output at or above the limit, and no shorter than the budget that the limit stands for, is
  -- reduced. It falls into three parts, cut at character boundaries; the outer two, together
  -- within the budget, are shown with a notice between them that has the size of the middle one
  -- and of the whole; the whole is kept for the archive.
  pub reduce-Accounts :
      max_bytes ≤ length text
      → budget_of max_bytes ≤ length text
      → (r : Reduction) × (reduce notice text max_bytes ≡ reduced r)
        × Accounts notice text max_bytes r
  unfolding reduce
  reduce-Accounts over long =
      let head_len = budget_of max_bytes * 3 / 5 in
      let from = length text - (budget_of max_bytes - head_len) in
      let (low, _, head_ok) = floor_lem text head_len in
      let (high, inside, tail_ok) = ceil_lem text from (omega arith) in
      let (r, e, a) =
        assemble-Accounts (floor_char_boundary text head_len) (ceil_char_boundary text from)
          (record {
            ordered = omega arith;
            inside = inside;
            within_budget = omega arith;
            head_boundary = head_ok;
            tail_boundary = tail_ok;
          }) in
      (
        r,
        rw
            (
              le→ltb (length text) max_bytes over,
              le→ltb (length text) (budget_of max_bytes - head_len) (omega arith),
            )
            e,
        a,
      )

  -- Where the limit is below 1,024 bytes, an output that reaches the limit and is shorter than the
  -- 410 bytes kept for its end makes the subtraction `text.len() - tail_len` overflow.
  pub reduce_overflows :
      max_bytes ≤ length text → length text < 410 → reduce notice text max_bytes ≡ overflowed
  unfolding reduce budget_of
  reduce_overflows over short = ground arith
