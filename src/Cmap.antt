-- ===== src/Cmap.antt =====
-- src/tables/cmap.rs: the table that maps character codes to glyphs, its encoding records and its
-- sub-tables as they are read in place.
pub mod Map
pub mod Owned
pub mod Same
pub mod Safety
pub mod Segment
pub mod Mappings
pub mod Inverse
use allsorts.Base.{
  ℕ, ◌+◌, ◌-◌, ◌*◌, ◌/◌, ◌==◌, ◌&&◌, leb, max, if◌then◌else◌, bit_and, Bool, List, [], ◌∷◌, Option,
  none, some,
}
use allsorts.Base.Int.{ℤ}
use allsorts.Binary.Scope.{ReadScope}
use allsorts.Binary.Read.{
  Reader, ReadCtxt, pure, fail, lift, check, rest_scope, ◌>>=◌, ◌>>◌, read_u16be, read_u32be,
}
use allsorts.Binary.Unchecked.{
  ReadUnchecked, ReadArray, u8, u16be, i16be, u32be, pair, triple, read_from, read_array,
}
use allsorts.Binary.Array.{to_vec}
use allsorts.Binary.Array.Find.{find}
use allsorts.Error.{Outcome, ok, panic, ParseError, bad_version}

pub record EncodingRecord : Type 0 where
  pub platform_id : ℕ
  pub encoding_id : ℕ
  pub offset : ℕ

pub record Cmap : Type 0 where
  pub scope : ReadScope
  pub encoding_records : ReadArray

pub record SubHeader : Type 0 where
  pub first_code : ℕ
  pub entry_count : ℕ
  pub id_delta : ℤ
  pub id_range_offset : ℕ

pub record SequentialMapGroup : Type 0 where
  pub start_char_code : ℕ
  pub end_char_code : ℕ
  pub start_glyph_id : ℕ

-- The arrays of a sub-table of format 4.
pub record Segments : Type 0 where
  pub end_codes : ReadArray
  pub start_codes : ReadArray
  pub id_deltas : ReadArray
  pub id_range_offsets : ReadArray
  pub glyph_id_array : ReadArray

-- Each constructor begins with the language.
pub data CmapSubtable : Type 0 where
  format0 : ℕ → ReadArray → CmapSubtable
  -- the keys, the sub-headers, the scope that begins with the sub-headers
  format2 : ℕ → ReadArray → ReadArray → ReadScope → CmapSubtable
  format4 : ℕ → Segments → CmapSubtable
  -- the first code
  format6 : ℕ → ℕ → ReadArray → CmapSubtable
  format10 : ℕ → ℕ → ReadArray → CmapSubtable
  format12 : ℕ → ReadArray → CmapSubtable

-- `ReadFrom` for the three records
abbrev pub encoding_record : ReadUnchecked EncodingRecord
encoding_record =
    read_from (λ (r : ℕ × ℕ × ℕ). record { platform_id = r.0; encoding_id = r.1; offset = r.2 })
      (triple u16be u16be u32be)

abbrev pub sub_header : ReadUnchecked SubHeader
sub_header =
    read_from
      (λ (r : (ℕ × ℕ) × (ℤ × ℕ)). record {
        first_code = r.0.0;
        entry_count = r.0.1;
        id_delta = r.1.0;
        id_range_offset = r.1.1;
      })
      (pair (pair u16be u16be) (pair i16be u16be))

abbrev pub sequential_map_group : ReadUnchecked SequentialMapGroup
sequential_map_group =
    read_from
      (λ (r : ℕ × ℕ × ℕ). record {
        start_char_code = r.0;
        end_char_code = r.1;
        start_glyph_id = r.2;
      })
      (triple u32be u32be u32be)

unfoldable pub read_cmap : Reader Cmap
read_cmap c =
    (do
      version ← read_u16be
      check (version == 0)
      num_tables ← read_u16be
      encoding_records ← read_array encoding_record num_tables
      pure (record { scope = rest_scope c; encoding_records = encoding_records }))
      c

unfoldable pub find_subtable_for_platform : Cmap → ℕ → Outcome ParseError (Option EncodingRecord)
find_subtable_for_platform cmap platform_id =
    find encoding_record (λ r. r.platform_id == platform_id) cmap.encoding_records

unfoldable pub find_subtable : Cmap → ℕ → ℕ → Outcome ParseError (Option EncodingRecord)
find_subtable cmap platform_id encoding_id =
    find encoding_record (λ r. r.platform_id == platform_id && r.encoding_id == encoding_id)
      cmap.encoding_records

unfoldable pub read_format0 : Reader CmapSubtable
read_format0 = do
  length ← read_u16be
  check (leb (3 * 2 + 256) length)
  language ← read_u16be
  glyph_id_array ← read_array u8 256
  pure (format0 language glyph_id_array)

abbrev pub largest_index : ℕ → List ℕ → ℕ
largest_index m [] = m
largest_index m (key ∷ keys) = largest_index (max m (key / 8)) keys

-- `.iter().map(|value| value / 8).max().unwrap()`
abbrev pub max_sub_header_index : List ℕ → Outcome ParseError ℕ
max_sub_header_index [] = panic
max_sub_header_index (key ∷ keys) = ok (largest_index (key / 8) keys)

unfoldable pub read_sub_headers : ReadArray → Reader (ReadArray × ReadScope)
read_sub_headers sub_header_keys c =
    (do
      keys ← lift (to_vec u16be sub_header_keys)
      index ← lift (max_sub_header_index keys)
      sub_headers ← read_array sub_header (index + 1)
      pure (sub_headers, rest_scope c))
      c

unfoldable pub read_format2 : Reader CmapSubtable
read_format2 = do
  _length ← read_u16be
  language ← read_u16be
  sub_header_keys ← read_array u16be 256
  headers ← read_sub_headers sub_header_keys
  pure (format2 language sub_header_keys headers.0 headers.1)

-- The arrays of `seg_count` segments, and of the indices that the length leaves.
unfoldable pub read_segments : ℕ → ℕ → Reader Segments
read_segments length seg_count = do
  end_codes ← read_array u16be seg_count
  _reserved_pad ← read_u16be
  start_codes ← read_array u16be seg_count
  id_deltas ← read_array i16be seg_count
  id_range_offsets ← read_array u16be seg_count
  check (leb ((8 + 4 * seg_count) * 2) length)
  let left = length - (8 + 4 * seg_count) * 2
  check (bit_and left 1 == 0)
  glyph_id_array ← read_array u16be (left / 2)
  pure (record {
    end_codes = end_codes;
    start_codes = start_codes;
    id_deltas = id_deltas;
    id_range_offsets = id_range_offsets;
    glyph_id_array = glyph_id_array;
  })

unfoldable pub read_format4 : Reader CmapSubtable
read_format4 = do
  length ← read_u16be
  language ← read_u16be
  seg_count_x2 ← read_u16be
  check (bit_and seg_count_x2 1 == 0)
  _search_range ← read_u16be
  _entry_selector ← read_u16be
  _range_shift ← read_u16be
  segments ← read_segments length (seg_count_x2 / 2)
  pure (format4 language segments)

unfoldable pub read_format6 : Reader CmapSubtable
read_format6 = do
  _length ← read_u16be
  language ← read_u16be
  first_code ← read_u16be
  entry_count ← read_u16be
  glyph_id_array ← read_array u16be entry_count
  pure (format6 language first_code glyph_id_array)

unfoldable pub read_format10 : Reader CmapSubtable
read_format10 = do
  reserved ← read_u16be
  check (reserved == 0)
  _length ← read_u32be
  language ← read_u32be
  start_char_code ← read_u32be
  num_chars ← read_u32be
  glyph_id_array ← read_array u16be num_chars
  pure (format10 language start_char_code glyph_id_array)

unfoldable pub read_format12 : Reader CmapSubtable
read_format12 = do
  reserved ← read_u16be
  check (reserved == 0)
  _length ← read_u32be
  language ← read_u32be
  num_groups ← read_u32be
  groups ← read_array sequential_map_group num_groups
  pure (format12 language groups)

unfoldable pub read_format : ℕ → Reader CmapSubtable
read_format format =
    if format == 0
    then read_format0
    else if format == 2
    then read_format2
    else if format == 4
    then read_format4
    else if format == 6
    then read_format6
    else if format == 10
    then read_format10
    else if format == 12
    then read_format12
    else fail bad_version

unfoldable pub read_subtable : Reader CmapSubtable
read_subtable = do subtable_format ← read_u16be; read_format subtable_format
