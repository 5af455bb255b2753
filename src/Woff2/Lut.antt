-- ===== src/Woff2/Lut.antt =====
-- src/woff2/lut.rs: the table that decodes the coordinates of a transformed glyph.
pub mod Formula
use allsorts.Base.{ℕ, Bool, true, false, List, [], ◌∷◌}

pub record XyTriplet : Type 0 where
  pub x_is_negative : Bool
  pub y_is_negative : Bool
  pub byte_count : ℕ
  pub x_bits : ℕ
  pub y_bits : ℕ
  pub delta_x : ℕ
  pub delta_y : ℕ

-- The fields in the order in which the rows of the table list them.
abbrev pub triplet : ℕ → ℕ → ℕ → ℕ → ℕ → Bool → Bool → XyTriplet
triplet byte_count x_bits y_bits delta_x delta_y x_is_negative y_is_negative = record {
  x_is_negative = x_is_negative;
  y_is_negative = y_is_negative;
  byte_count = byte_count;
  x_bits = x_bits;
  y_bits = y_bits;
  delta_x = delta_x;
  delta_y = delta_y;
}

unfoldable pub coord_lut : List XyTriplet
coord_lut =
    triplet 1 0 8 0 0 false true
    ∷ triplet 1 0 8 0 0 false false
    ∷ triplet 1 0 8 0 256 false true
    ∷ triplet 1 0 8 0 256 false false
    ∷ triplet 1 0 8 0 512 false true
    ∷ triplet 1 0 8 0 512 false false
    ∷ triplet 1 0 8 0 768 false true
    ∷ triplet 1 0 8 0 768 false false
    ∷ triplet 1 0 8 0 1024 false true
    ∷ triplet 1 0 8 0 1024 false false
    ∷ triplet 1 8 0 0 0 true false
    ∷ triplet 1 8 0 0 0 false false
    ∷ triplet 1 8 0 256 0 true false
    ∷ triplet 1 8 0 256 0 false false
    ∷ triplet 1 8 0 512 0 true false
    ∷ triplet 1 8 0 512 0 false false
    ∷ triplet 1 8 0 768 0 true false
    ∷ triplet 1 8 0 768 0 false false
    ∷ triplet 1 8 0 1024 0 true false
    ∷ triplet 1 8 0 1024 0 false false
    ∷ triplet 1 4 4 1 1 true true
    ∷ triplet 1 4 4 1 1 false true
    ∷ triplet 1 4 4 1 1 true false
    ∷ triplet 1 4 4 1 1 false false
    ∷ triplet 1 4 4 1 17 true true
    ∷ triplet 1 4 4 1 17 false true
    ∷ triplet 1 4 4 1 17 true false
    ∷ triplet 1 4 4 1 17 false false
    ∷ triplet 1 4 4 1 33 true true
    ∷ triplet 1 4 4 1 33 false true
    ∷ triplet 1 4 4 1 33 true false
    ∷ triplet 1 4 4 1 33 false false
    ∷ triplet 1 4 4 1 49 true true
    ∷ triplet 1 4 4 1 49 false true
    ∷ triplet 1 4 4 1 49 true false
    ∷ triplet 1 4 4 1 49 false false
    ∷ triplet 1 4 4 17 1 true true
    ∷ triplet 1 4 4 17 1 false true
    ∷ triplet 1 4 4 17 1 true false
    ∷ triplet 1 4 4 17 1 false false
    ∷ triplet 1 4 4 17 17 true true
    ∷ triplet 1 4 4 17 17 false true
    ∷ triplet 1 4 4 17 17 true false
    ∷ triplet 1 4 4 17 17 false false
    ∷ triplet 1 4 4 17 33 true true
    ∷ triplet 1 4 4 17 33 false true
    ∷ triplet 1 4 4 17 33 true false
    ∷ triplet 1 4 4 17 33 false false
    ∷ triplet 1 4 4 17 49 true true
    ∷ triplet 1 4 4 17 49 false true
    ∷ triplet 1 4 4 17 49 true false
    ∷ triplet 1 4 4 17 49 false false
    ∷ triplet 1 4 4 33 1 true true
    ∷ triplet 1 4 4 33 1 false true
    ∷ triplet 1 4 4 33 1 true false
    ∷ triplet 1 4 4 33 1 false false
    ∷ triplet 1 4 4 33 17 true true
    ∷ triplet 1 4 4 33 17 false true
    ∷ triplet 1 4 4 33 17 true false
    ∷ triplet 1 4 4 33 17 false false
    ∷ triplet 1 4 4 33 33 true true
    ∷ triplet 1 4 4 33 33 false true
    ∷ triplet 1 4 4 33 33 true false
    ∷ triplet 1 4 4 33 33 false false
    ∷ triplet 1 4 4 33 49 true true
    ∷ triplet 1 4 4 33 49 false true
    ∷ triplet 1 4 4 33 49 true false
    ∷ triplet 1 4 4 33 49 false false
    ∷ triplet 1 4 4 49 1 true true
    ∷ triplet 1 4 4 49 1 false true
    ∷ triplet 1 4 4 49 1 true false
    ∷ triplet 1 4 4 49 1 false false
    ∷ triplet 1 4 4 49 17 true true
    ∷ triplet 1 4 4 49 17 false true
    ∷ triplet 1 4 4 49 17 true false
    ∷ triplet 1 4 4 49 17 false false
    ∷ triplet 1 4 4 49 33 true true
    ∷ triplet 1 4 4 49 33 false true
    ∷ triplet 1 4 4 49 33 true false
    ∷ triplet 1 4 4 49 33 false false
    ∷ triplet 1 4 4 49 49 true true
    ∷ triplet 1 4 4 49 49 false true
    ∷ triplet 1 4 4 49 49 true false
    ∷ triplet 1 4 4 49 49 false false
    ∷ triplet 2 8 8 1 1 true true
    ∷ triplet 2 8 8 1 1 false true
    ∷ triplet 2 8 8 1 1 true false
    ∷ triplet 2 8 8 1 1 false false
    ∷ triplet 2 8 8 1 257 true true
    ∷ triplet 2 8 8 1 257 false true
    ∷ triplet 2 8 8 1 257 true false
    ∷ triplet 2 8 8 1 257 false false
    ∷ triplet 2 8 8 1 513 true true
    ∷ triplet 2 8 8 1 513 false true
    ∷ triplet 2 8 8 1 513 true false
    ∷ triplet 2 8 8 1 513 false false
    ∷ triplet 2 8 8 257 1 true true
    ∷ triplet 2 8 8 257 1 false true
    ∷ triplet 2 8 8 257 1 true false
    ∷ triplet 2 8 8 257 1 false false
    ∷ triplet 2 8 8 257 257 true true
    ∷ triplet 2 8 8 257 257 false true
    ∷ triplet 2 8 8 257 257 true false
    ∷ triplet 2 8 8 257 257 false false
    ∷ triplet 2 8 8 257 513 true true
    ∷ triplet 2 8 8 257 513 false true
    ∷ triplet 2 8 8 257 513 true false
    ∷ triplet 2 8 8 257 513 false false
    ∷ triplet 2 8 8 513 1 true true
    ∷ triplet 2 8 8 513 1 false true
    ∷ triplet 2 8 8 513 1 true false
    ∷ triplet 2 8 8 513 1 false false
    ∷ triplet 2 8 8 513 257 true true
    ∷ triplet 2 8 8 513 257 false true
    ∷ triplet 2 8 8 513 257 true false
    ∷ triplet 2 8 8 513 257 false false
    ∷ triplet 2 8 8 513 513 true true
    ∷ triplet 2 8 8 513 513 false true
    ∷ triplet 2 8 8 513 513 true false
    ∷ triplet 2 8 8 513 513 false false
    ∷ triplet 3 12 12 0 0 true true
    ∷ triplet 3 12 12 0 0 false true
    ∷ triplet 3 12 12 0 0 true false
    ∷ triplet 3 12 12 0 0 false false
    ∷ triplet 4 16 16 0 0 true true
    ∷ triplet 4 16 16 0 0 false true
    ∷ triplet 4 16 16 0 0 true false
    ∷ triplet 4 16 16 0 0 false false
    ∷ []
