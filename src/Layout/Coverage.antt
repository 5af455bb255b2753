-- ===== src/Layout/Coverage.antt =====
-- src/layout.rs, `Coverage`: the set of glyphs that a lookup applies to, and the position of a
-- glyph in it. `slice::binary_search` of the standard library is written out, as the halving of an
-- interval.
pub mod Search
pub mod Expand
pub mod RoundTrip
pub mod Safety
use allsorts.Base.{
  ℕ, zero, suc, ◌+◌, ◌-◌, ◌/◌, ◌%◌, ◌^◌, ◌==◌, ◌&&◌, leb, ltb, if◌then◌else◌, List, [], ◌∷◌, Option,
  none, some, length, get_elem?,
}
use allsorts.Binary.Scope.{usize_mod}
use allsorts.Binary.Read.{Reader, pure, fail, check, ◌>>=◌, ◌>>◌, read_u16be}
use allsorts.Binary.Unchecked.{ReadUnchecked, u16be, triple, read_from}
use allsorts.Binary.Vector.{read_vec}
use allsorts.Error.{bad_version}

pub record CoverageRangeRecord : Type 0 where
  pub start_glyph : ℕ
  pub end_glyph : ℕ
  pub start_coverage_index : ℕ

pub data Coverage : Type 0 where
  format1 : List ℕ → Coverage
  format2 : List CoverageRangeRecord → Coverage

-- `ReadFrom for CoverageRangeRecord`
abbrev pub coverage_range_of : ℕ × ℕ × ℕ → CoverageRangeRecord
coverage_range_of (start_glyph, end_glyph, start_coverage_index) = record {
  start_glyph = start_glyph;
  end_glyph = end_glyph;
  start_coverage_index = start_coverage_index;
}

abbrev pub coverage_range_record : ReadUnchecked CoverageRangeRecord
coverage_range_record = read_from coverage_range_of (triple u16be u16be u16be)

-- The loop over the ranges that have been read.
unfoldable pub check_ranges : List CoverageRangeRecord → Reader (Unit {0})
check_ranges [] = pure tt
check_ranges (r ∷ rs) = check (leb r.start_glyph r.end_glyph) >> check_ranges rs

unfoldable pub read_format : ℕ → Reader Coverage
read_format format =
    if format == 1
    then (do
      glyph_count ← read_u16be
      glyph_vec ← read_vec u16be glyph_count
      pure (format1 glyph_vec))
    else if format == 2
    then (do
      coverage_range_count ← read_u16be
      coverage_range_vec ← read_vec coverage_range_record coverage_range_count
      check_ranges coverage_range_vec
      pure (format2 coverage_range_vec))
    else fail bad_version

unfoldable pub read_coverage : Reader Coverage
unfolding read_format
read_coverage = do format ← read_u16be; read_format format

-- `binary_search` between `left` and `right`, with as much fuel as the interval is long.
unfoldable pub search_between : ℕ → List ℕ → ℕ → ℕ → ℕ → Option ℕ
search_between zero xs target left right = none
search_between (suc fuel) xs target left right =
    let middle = left + (right - left) / 2 in
    let below = search_between fuel xs target left middle in
    let above = search_between fuel xs target (middle + 1) right in
    if ltb left right
    then elim (get_elem? xs middle) [
      | none ↦ none
      | some x ↦ if x == target then some middle else if ltb x target then above else below
    ]
    else none

unfoldable pub binary_search : List ℕ → ℕ → Option ℕ
unfolding search_between
binary_search xs target = search_between (length xs) xs target 0 (length xs)

-- `u16` addition: a sum that does not fit wraps around.
abbrev pub add_u16 : ℕ → ℕ → ℕ
add_u16 a b = (a + b) % 2 ^ 16

unfoldable pub range_coverage_value : List CoverageRangeRecord → ℕ → Option ℕ
range_coverage_value [] glyph = none
range_coverage_value (r ∷ rs) glyph =
    if leb r.start_glyph glyph && leb glyph r.end_glyph
    then some (add_u16 r.start_coverage_index (glyph - r.start_glyph))
    else range_coverage_value rs glyph

unfoldable pub glyph_coverage_value : Coverage → ℕ → Option ℕ
unfolding binary_search range_coverage_value
glyph_coverage_value (format1 glyph_array) glyph = elim (binary_search glyph_array glyph) [
  | some index ↦ some (index % 2 ^ 16)
  | none ↦ none
]
glyph_coverage_value (format2 coverage_range_array) glyph =
    range_coverage_value coverage_range_array glyph

-- The step of the fold, in `usize`.
abbrev pub add_range : ℕ → CoverageRangeRecord → ℕ
add_range acc r = (acc + r.end_glyph + usize_mod - r.start_glyph + 1) % usize_mod

abbrev pub count_ranges : ℕ → List CoverageRangeRecord → ℕ
count_ranges acc [] = acc
count_ranges acc (r ∷ rs) = count_ranges (add_range acc r) rs

unfoldable pub glyph_count : Coverage → ℕ
glyph_count (format1 glyph_array) = length glyph_array
glyph_count (format2 coverage_range_array) = count_ranges 0 coverage_range_array
