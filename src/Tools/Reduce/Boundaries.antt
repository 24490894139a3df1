-- ===== src/Tools/Reduce/Boundaries.antt =====
-- The cuts stand at character boundaries, on the side that they should.
use pi_rs.Prelude.{
  ℕ, zero, suc, ◌+◌, ◌-◌, ◌≤◌, ◌≡◌, refl, true, arith, length, [], ◌∷◌, get_elem?, none,
}
use pi_rs.Tools.Reduce.{
  Bytes, is_char_boundary, floor_loop, floor_char_boundary, ceil_loop, ceil_char_boundary,
}

get_elem?-length : (text : Bytes) → get_elem? text (length text) ≡ none
get_elem?-length [] = refl
get_elem?-length (x ∷ xs) = get_elem?-length xs

boundary_length : (text : Bytes) → is_char_boundary text (length text) ≡ true
unfolding is_char_boundary
boundary_length [] = refl
boundary_length (x ∷ xs) = ground (arith, get_elem?-length xs)

floor_loop-le :
    (text : Bytes) (i : ℕ)
    → (floor_loop text i ≤ i) × (is_char_boundary text (floor_loop text i) ≡ true)
unfolding floor_loop
floor_loop-le text zero = (omega arith, unfold is_char_boundary in refl)
floor_loop-le text (suc i) = ground (arith, floor_loop-le text i)

pub floor_lem :
    (text : Bytes) (i : ℕ)
    → (floor_char_boundary text i ≤ i)
      × (floor_char_boundary text i ≤ length text)
      × (is_char_boundary text (floor_char_boundary text i) ≡ true)
unfolding floor_char_boundary
floor_lem text i = ground (arith, floor_loop-le text i, boundary_length text)

ceil_loop-ge :
    (text : Bytes) (rounds i : ℕ)
    → i + rounds ≡ length text
    → (i ≤ ceil_loop text rounds i)
      × (ceil_loop text rounds i ≤ length text)
      × (is_char_boundary text (ceil_loop text rounds i) ≡ true)
unfolding ceil_loop
ceil_loop-ge text zero i h = ground (arith, boundary_length text)
ceil_loop-ge text (suc rounds) i h = ground (arith, ceil_loop-ge text rounds (i + 1))

pub ceil_lem :
    (text : Bytes) (i : ℕ)
    → i ≤ length text
    → (i ≤ ceil_char_boundary text i)
      × (ceil_char_boundary text i ≤ length text)
      × (is_char_boundary text (ceil_char_boundary text i) ≡ true)
unfolding ceil_char_boundary
ceil_lem text i h = ground (arith, ceil_loop-ge text (length text - i) i, boundary_length text)
