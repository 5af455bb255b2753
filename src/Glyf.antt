-- ===== src/Glyf.antt =====
-- src/tables/glyf.rs: the records of the table, glyphs simple and composite, and their flags.
pub mod SimpleGlyphFlag
pub mod CompositeGlyphFlag
pub mod Read
pub mod Outline
pub mod Safety
pub mod Write
pub mod Stored
pub mod RoundTrip
pub mod Subset
pub mod Table
pub mod Bounds
use allsorts.Base.{ℕ, zero, suc, ◌+◌, ◌-◌, ◌%◌, ◌^◌, Bool, List, Option, if◌then◌else◌}
use allsorts.Base.Int.{ℤ, pos, negsuc}
use allsorts.Binary.Scope.{ReadScope}
use allsorts.Binary.Read.{signed}
use allsorts.Binary.Write.{pattern_of}

pub record Point : Type 0 where
  pub x : ℤ
  pub y : ℤ

pub record BoundingBox : Type 0 where
  pub x_min : ℤ
  pub x_max : ℤ
  pub y_min : ℤ
  pub y_max : ℤ

-- Flags are numbers, of 8 bits in a simple glyph and of 16 in a composite one.
pub record SimpleGlyph : Type 0 where
  pub end_pts_of_contours : List ℕ
  pub instructions : List ℕ
  pub flags : List ℕ
  pub coordinates : List Point

pub data CompositeGlyphArgument : Type 0 where
  u8 : ℕ → CompositeGlyphArgument
  i8 : ℤ → CompositeGlyphArgument
  u16 : ℕ → CompositeGlyphArgument
  i16 : ℤ → CompositeGlyphArgument

-- An `F2Dot14` is the word that stores it.
pub data CompositeGlyphScale : Type 0 where
  scale : ℕ → CompositeGlyphScale
  xy : ℕ → ℕ → CompositeGlyphScale
  matrix : ℕ → ℕ → ℕ → ℕ → CompositeGlyphScale

pub record CompositeGlyph : Type 0 where
  pub flags : ℕ
  pub glyph_index : ℕ
  pub argument1 : CompositeGlyphArgument
  pub argument2 : CompositeGlyphArgument
  pub scale : Option CompositeGlyphScale

pub record CompositeGlyphs : Type 0 where
  pub glyphs : List CompositeGlyph
  pub have_instructions : Bool

pub data GlyphData : Type 0 where
  simple : SimpleGlyph → GlyphData
  composite : List CompositeGlyph → List ℕ → GlyphData

pub record Glyph : Type 0 where
  pub number_of_contours : ℤ
  pub bounding_box : BoundingBox
  pub glyph_data : GlyphData

pub data GlyfRecord : Type 0 where
  empty : GlyfRecord
  present : ReadScope → GlyfRecord
  parsed : Glyph → GlyfRecord

pub record GlyfTable : Type 0 where
  pub records : List GlyfRecord

-- Sums and differences of two `i16` wrap.
unfoldable pub add_i16 : ℤ → ℤ → ℤ
add_i16 a b = signed 16 ((pattern_of 16 a + pattern_of 16 b) % 2 ^ 16)

unfoldable pub sub_i16 : ℤ → ℤ → ℤ
sub_i16 a b = signed 16 ((pattern_of 16 a + 2 ^ 16 - pattern_of 16 b) % 2 ^ 16)

abbrev negated : ℕ → ℤ
negated zero = pos 0
negated (suc n) = negsuc n

-- `i16::from(val) * sign`
abbrev pub with_sign : Bool → ℕ → ℤ
with_sign positive val = if positive then pos val else negated val
