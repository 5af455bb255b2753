-- ===== src/Glyf/SimpleGlyphFlag.antt =====
-- src/tables/glyf.rs, `SimpleGlyphFlag`: the bits of a flag of a simple glyph.
use allsorts.Base.{ℕ, bit_and, ◌==◌, Bool}

-- `self & flag == flag`
abbrev pub has : ℕ → ℕ → Bool
has flag bits = bit_and bits flag == flag

-- `from_bits_truncate`
abbrev pub truncate : ℕ → ℕ
truncate bits = bit_and bits 0x3f

abbrev pub on_curve_point : ℕ
on_curve_point = 0x01

abbrev pub x_is_short : ℕ → Bool
x_is_short bits = has 0x02 bits

abbrev pub y_is_short : ℕ → Bool
y_is_short bits = has 0x04 bits

abbrev pub is_repeated : ℕ → Bool
is_repeated bits = has 0x08 bits

abbrev pub x_is_same_or_positive : ℕ → Bool
x_is_same_or_positive bits = has 0x10 bits

abbrev pub y_is_same_or_positive : ℕ → Bool
y_is_same_or_positive bits = has 0x20 bits
