-- ===== src/Layout/ClassDef.antt =====
-- src/layout.rs, `ClassDef`: the class of a glyph, from an array over a run of glyphs or from a list
-- of ranges.
pub mod Ranges
pub mod RoundTrip
pub mod Lookup
use allsorts.Base.{ℕ, ◌-◌, ◌==◌, ◌&&◌, leb, ltb, if◌then◌else◌}
use allsorts.Base.{List, [], ◌∷◌, none, some, length, get_elem?}
use allsorts.Binary.Read.{Reader, pure, fail, lift, ◌>>=◌, read_u16be}
use allsorts.Binary.Unchecked.{
  ReadUnchecked, ReadArray, u16be, triple, read_from, read_array, read_array_upto_hack,
}
use allsorts.Binary.Array.{to_vec}
use allsorts.Binary.Vector.{read_vec}
use allsorts.Error.{Outcome, ok, err, panic, undefined, ParseError, bad_version}

pub record ClassRangeRecord : Type 0 where
  pub start_glyph : ℕ
  pub end_glyph : ℕ
  pub class_value : ℕ

pub data ClassDef : Type 0 where
  format1 : ℕ → List ℕ → ClassDef
  format2 : List ClassRangeRecord → ClassDef

-- `ReadFrom for ClassRangeRecord`
abbrev pub class_range_of : ℕ × ℕ × ℕ → ClassRangeRecord
class_range_of (start_glyph, end_glyph, class_value) = record {
  start_glyph = start_glyph;
  end_glyph = end_glyph;
  class_value = class_value;
}

abbrev pub class_range_record : ReadUnchecked ClassRangeRecord
class_range_record = read_from class_range_of (triple u16be u16be u16be)

-- `Result::or_else` on calls that leave the context alone when they fail
abbrev pub or_else : {A : Type 0} → Reader A → Reader A → Reader A
or_else m k c = elim (m c) [ ok r ↦ ok r | err _ ↦ k c | panic ↦ panic | undefined ↦ undefined ]

-- The array of ranges, cut to what the table holds where it claims more.
unfoldable pub read_ranges : ℕ → Reader ReadArray
read_ranges count =
    or_else (read_array class_range_record count) (read_array_upto_hack class_range_record count)

-- `...?.to_vec()`
unfoldable pub read_range_vec : ℕ → Reader (List ClassRangeRecord)
unfolding read_ranges
read_range_vec count = do array ← read_ranges count; lift (to_vec class_range_record array)

unfoldable pub read_format : ℕ → Reader ClassDef
unfolding read_range_vec
read_format format =
    if format == 1
    then (do
      start_glyph ← read_u16be
      glyph_count ← read_u16be
      class_value_array ← read_vec u16be glyph_count
      pure (format1 start_glyph class_value_array))
    else if format == 2
    then (do
      class_range_count ← read_u16be
      class_range_array ← read_range_vec class_range_count
      pure (format2 class_range_array))
    else fail bad_version

unfoldable pub read_class_def : Reader ClassDef
unfolding read_format
read_class_def = do format ← read_u16be; read_format format

-- The first range that holds the glyph.
unfoldable pub class_of_ranges : List ClassRangeRecord → ℕ → ℕ
class_of_ranges [] glyph = 0
class_of_ranges (r ∷ rs) glyph =
    if leb r.start_glyph glyph && leb glyph r.end_glyph
    then r.class_value
    else class_of_ranges rs glyph

-- `class_value_array[i]`, an index that the code has checked
abbrev pub class_at : List ℕ → ℕ → Outcome ParseError ℕ
class_at class_value_array i = elim (get_elem? class_value_array i) [ none ↦ panic | some v ↦ ok v ]

unfoldable pub glyph_class_value : ClassDef → ℕ → Outcome ParseError ℕ
unfolding class_of_ranges
glyph_class_value (format1 start_glyph class_value_array) glyph =
    if leb start_glyph glyph && ltb (glyph - start_glyph) (length class_value_array)
    then class_at class_value_array (glyph - start_glyph)
    else ok 0
glyph_class_value (format2 class_range_array) glyph = ok (class_of_ranges class_range_array glyph)
