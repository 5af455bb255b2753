-- ===== src/Glyf/CompositeGlyphFlag.antt =====
-- src/tables/glyf.rs, `CompositeGlyphFlag`: the bits of the flags of a component.
use allsorts.Base.{ℕ, bit_and, Bool}
use allsorts.Glyf.SimpleGlyphFlag.{has}

-- `from_bits_truncate`, with the bits of all the flags
abbrev pub truncate : ℕ → ℕ
truncate bits = bit_and bits 0x1fef

abbrev pub arg_1_and_2_are_words : ℕ → Bool
arg_1_and_2_are_words bits = has 0x0001 bits

abbrev pub args_are_xy_values : ℕ → Bool
args_are_xy_values bits = has 0x0002 bits

abbrev pub we_have_a_scale : ℕ → Bool
we_have_a_scale bits = has 0x0008 bits

abbrev pub more_components : ℕ → Bool
more_components bits = has 0x0020 bits

abbrev pub we_have_an_x_and_y_scale : ℕ → Bool
we_have_an_x_and_y_scale bits = has 0x0040 bits

abbrev pub we_have_a_two_by_two : ℕ → Bool
we_have_a_two_by_two bits = has 0x0080 bits

abbrev pub we_have_instructions : ℕ → Bool
we_have_instructions bits = has 0x0100 bits
