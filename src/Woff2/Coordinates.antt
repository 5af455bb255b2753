-- ===== src/Woff2/Coordinates.antt =====
-- src/woff2.rs, `WoffFlag` and `decode_coordinates`, with `dx` and `dy` of src/woff2/lut.rs: the
-- coordinates of a point of a transformed glyph.
pub mod Split
use allsorts.Base.{ℕ, ◌+◌, ◌-◌, ◌*◌, ◌/◌, ◌%◌, ◌^◌, bit_and, bit_or, ◌==◌, if◌then◌else◌}
use allsorts.Base.{Bool, List, [], ◌∷◌, none, some, get_elem?}
use allsorts.Base.Int.{ℤ}
use allsorts.Binary.Bytes.{fold_bytes}
use allsorts.Binary.Read.{shl, signed}
use allsorts.Error.{Outcome, ok, panic, ParseError, ◌>>=◌}
use allsorts.Woff2.Lut.{XyTriplet, coord_lut}

-- `x >> k` on 32 bits: the amount of a shift counts modulo 32.
abbrev pub shr32 : ℕ → ℕ → ℕ
shr32 x k = x / 2 ^ (k % 32)

-- `a - b` on 8 bits
abbrev pub sub_u8 : ℕ → ℕ → ℕ
sub_u8 a b = (2 ^ 8 + a - b) % 2 ^ 8

-- `-(x as i16)` or `x as i16`
abbrev pub coordinate : Bool → ℕ → ℤ
coordinate is_negative x =
    if is_negative then signed 16 ((2 ^ 16 - x % 2 ^ 16) % 2 ^ 16) else signed 16 (x % 2 ^ 16)

-- `(1u32 << bits) - 1`
abbrev pub mask32 : ℕ → ℕ
mask32 bits = (2 ^ 32 + shl 32 1 (bits % 32) - 1) % 2 ^ 32

unfoldable pub dx : XyTriplet → ℕ → ℤ
dx t data_bits =
    let shift = sub_u8 (t.byte_count * 8 % 2 ^ 8) t.x_bits in
    coordinate t.x_is_negative
      ((bit_and (shr32 data_bits shift) (mask32 t.x_bits) + t.delta_x) % 2 ^ 32)

unfoldable pub dy : XyTriplet → ℕ → ℤ
dy t data_bits =
    let shift = sub_u8 (sub_u8 (t.byte_count * 8 % 2 ^ 8) t.x_bits) t.y_bits in
    coordinate t.y_is_negative
      ((bit_and (shr32 data_bits shift) (mask32 t.y_bits) + t.delta_y) % 2 ^ 32)

unfoldable pub is_on_curve_point : ℕ → Bool
is_on_curve_point flag = bit_and flag 0x80 == 0

-- `&COORD_LUT[usize::from(self.0 & 0x7F)]`
unfoldable pub xy_triplet : ℕ → Outcome ParseError XyTriplet
xy_triplet flag = elim (get_elem? coord_lut (bit_and flag 0x7f)) [ none ↦ panic | some t ↦ ok t ]

unfoldable pub bytes_to_read : ℕ → Outcome ParseError ℕ
bytes_to_read flag = xy_triplet flag >>= λ t. ok t.byte_count

-- `From<WoffFlag> for SimpleGlyphFlag`
unfoldable pub simple_glyph_flag : ℕ → ℕ
simple_glyph_flag flag = if is_on_curve_point flag then 1 else 0

-- The bytes are those of the array that the caller has read.
unfoldable pub decode_coordinates : ℕ → List ℕ → Outcome ParseError (ℤ × ℤ)
decode_coordinates flag coordinates = xy_triplet flag >>= λ t.
    (let data_bits = fold_bytes 0 coordinates in ok (dx t data_bits, dy t data_bits))
