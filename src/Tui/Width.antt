-- ===== src/Tui/Width.antt =====
-- crates/rupi-tui/src/width.rs: how many columns a character takes.
use pi_rs.Prelude.{ℕ, ◌+◌, Bool, ◌||◌, [], ◌∷◌, ltb, ◌==◌, if◌then◌else◌}
use pi_rs.Prelude.Text.{Text, within}

unfoldable pub is_control : ℕ → Bool
is_control cp = ltb cp 0x20 || within 0x7f 0x9f cp

unfoldable pub is_zero_width : ℕ → Bool
is_zero_width cp =
    within 0x0300 0x036f cp
    || within 0x1ab0 0x1aff cp
    || within 0x1dc0 0x1dff cp
    || within 0x20d0 0x20f0 cp
    || within 0xfe00 0xfe0f cp
    || within 0xfe20 0xfe2f cp
    || within 0x1160 0x11ff cp
    || within 0x200b 0x200f cp
    || within 0x2060 0x2064 cp
    || cp == 0xfeff

unfoldable pub is_wide : ℕ → Bool
is_wide cp =
    within 0x1100 0x115f cp
    || within 0x2e80 0x303e cp
    || within 0x3041 0x33ff cp
    || within 0x3400 0x4dbf cp
    || within 0x4e00 0x9fff cp
    || within 0xa000 0xa4cf cp
    || within 0xa960 0xa97f cp
    || within 0xac00 0xd7a3 cp
    || within 0xf900 0xfaff cp
    || within 0xfe10 0xfe19 cp
    || within 0xfe30 0xfe6f cp
    || within 0xff00 0xff60 cp
    || within 0xffe0 0xffe6 cp
    || within 0x1f300 0x1f64f cp
    || within 0x1f680 0x1f6ff cp
    || within 0x1f7e0 0x1f7eb cp
    || within 0x1f900 0x1f9ff cp
    || within 0x20000 0x3fffd cp

unfoldable pub char_width : ℕ → ℕ
unfolding is_control is_zero_width is_wide
char_width cp = if is_control cp || is_zero_width cp then 0 else if is_wide cp then 2 else 1

unfoldable pub display_width : Text → ℕ
unfolding char_width
display_width [] = 0
display_width (c ∷ text) = char_width c + display_width text
