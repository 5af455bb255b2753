-- ===== src/Loca.antt =====
-- src/tables/loca.rs: the offsets of the glyphs in the `glyf` table, in a short and a long format.
-- The enum `IndexToLocFormat` is that of src/tables.rs.
pub mod Read
pub mod Write
pub mod RoundTrip
pub mod Offsets
use allsorts.Base.{ℕ}
use allsorts.Binary.Unchecked.{ReadArray}
use allsorts.Binary.Array.{empty}

pub data IndexToLocFormat : Type 0 where
  short long : IndexToLocFormat

pub data LocaOffsets : Type 0 where
  short : ReadArray → LocaOffsets
  long : ReadArray → LocaOffsets

pub record LocaTable : Type 0 where
  pub offsets : LocaOffsets

pub record LocaOffsetsIter : Type 0 where
  pub offsets : LocaOffsets
  pub index : ℕ

-- `LocaTable::empty`
abbrev pub empty_loca : LocaTable
empty_loca = record { offsets = LocaOffsets.long empty }

-- `LocaOffsets::len`
abbrev pub offsets_len : LocaOffsets → ℕ
offsets_len (LocaOffsets.short array) = array.length
offsets_len (LocaOffsets.long array) = array.length
