-- ===== src/Tests/Glyphs.antt =====
-- src/tables/cmap.rs and src/tables/glyf.rs on concrete inputs.
use allsorts.Base.{All, ℕ, ◌≡◌, refl, arith, true, List, [], ◌∷◌, none, some, length}
use allsorts.Base.Int.{pos, negsuc}
use allsorts.Binary.Scope.{new_scope, offset}
use allsorts.Binary.Read.{
  advance, read_i16be, check_avail, read_unchecked_i16be, read_unchecked_u16be, peek_unchecked,
}
use allsorts.Binary.Read.Safety.{Follows}
use allsorts.Binary.Array.Laws.{IsArray}
use allsorts.Binary.Unchecked.{ReadArray}
use allsorts.Binary.Write.{buffer_context, new_buffer, try_from, write_u16be}
use allsorts.Error.{ok, panic, Ends}
use allsorts.Cmap.{CmapSubtable, Segments, read_subtable}
use allsorts.Cmap.Map.{map_glyph, map_segments, segment_glyph, offset_to_index}
use allsorts.Cmap.Mappings.{CharMap, get_char, mappings}
use allsorts.Cmap.Inverse.{MapsBack, map_glyph-mappings}
use allsorts.Cmap.Owned.{OwnedCmapSubtable, map_owned}
use allsorts.Cmap.Safety.{IsSubtable, read_subtable-IsSubtable}
use allsorts.Cmap.Segment.{Segment, columns, map_owned-mapped}
use allsorts.Glyf.Bounds.{bounding_box, Contains, LiesIn, bounding_box-least}
use allsorts.Glyf.{
  BoundingBox, SimpleGlyph, CompositeGlyph, CompositeGlyphArgument, GlyphData, GlyfRecord,
  GlyfTable, sub_i16,
}
use allsorts.Glyf.Read.{read_glyph, read_simple_glyph}
use allsorts.Glyf.RoundTrip.{read_simple_glyph-write_simple_glyph}
use allsorts.Glyf.Safety.{IsGlyph, read_glyph-IsGlyph}
use allsorts.Glyf.Stored.{simple_bytes, IsSimple}
use allsorts.Glyf.Subset.{
  subset, subset_loop, subset_record, add_components, place, is_composite, parse, add_glyph, add_to,
  number_of_contours,
}
use allsorts.Glyf.Subset.Closure.{IsSubset, subset-Ends}
use allsorts.Glyf.Table.{read_glyf, write_glyf}
use allsorts.Glyf.Table.RoundTrip.{read_glyf-write_glyf}
use allsorts.Glyf.Table.Safety.{IsRead, read_glyf-Ends}
use allsorts.Loca.{IndexToLocFormat, LocaTable, LocaOffsets}
use allsorts.Loca.Read.{read_loca}
use allsorts.Loca.Write.{write_offsets}
use allsorts.Glyf.Write.{write_simple_glyph}
use allsorts.Tests.{ctxt_of, all_bytes, all_bytes-octets, ctxt_of-IsValid}

abbrev array_of : ℕ → List ℕ → ReadArray
array_of n bytes = record { scope = new_scope bytes; length = n }

-- Two segments, for the letters A to C and for the last code.
abbrev letters : Segments
letters = record {
  end_codes = array_of 2 (0 ∷ 67 ∷ 255 ∷ 255 ∷ []);
  start_codes = array_of 2 (0 ∷ 65 ∷ 255 ∷ 255 ∷ []);
  id_deltas = array_of 2 (255 ∷ 216 ∷ 0 ∷ 1 ∷ []);
  id_range_offsets = array_of 2 (0 ∷ 0 ∷ 0 ∷ 0 ∷ []);
  glyph_id_array = array_of 0 [];
}

pair_IsArray :
    (bytes : List ℕ) → length bytes ≡ 4 → all_bytes bytes ≡ true → IsArray 2 (array_of 2 bytes)
pair_IsArray bytes n h = record {
  filled = omega arith;
  fits = omega arith;
  octets = all_bytes-octets bytes h;
}

-- The second segment points at the glyph array.
abbrev two_segments : List Segment
two_segments =
    record { end_code = 67; start_code = 65; id_delta = negsuc 39; id_range_offset = 0 }
    ∷ record { end_code = 72; start_code = 71; id_delta = pos 5; id_range_offset = 2 }
    ∷ []

map_owned-mapped_example :
    map_owned (OwnedCmapSubtable.format4 0 (columns two_segments (8 ∷ 9 ∷ []))) 72 ≡ ok (some 14)
map_owned-mapped_example =
    map_owned-mapped 0 two_segments (8 ∷ 9 ∷ []) 72 (omega arith)
      (
        record {
          end_fits = omega arith;
          start_fits = omega arith;
          delta_fits = omega arith;
          offset_fits = omega arith;
        },
        (
          record {
            end_fits = omega arith;
            start_fits = omega arith;
            delta_fits = omega arith;
            offset_fits = omega arith;
          },
          tt,
        ),
      )
      (omega arith, (omega arith, tt))

-- With one glyph in the array the second character of that segment lies behind it.
past_the_glyphs : map_owned (OwnedCmapSubtable.format4 0 (columns two_segments (8 ∷ []))) 72 ≡ panic
unfolding map_owned map_segments segment_glyph offset_to_index
past_the_glyphs = refl

-- A sub-table of format 6
abbrev trimmed : List ℕ
trimmed = 0 ∷ 6 ∷ 0 ∷ 14 ∷ 0 ∷ 0 ∷ 0 ∷ 65 ∷ 0 ∷ 2 ∷ 0 ∷ 7 ∷ 0 ∷ 8 ∷ []

read_subtable-IsSubtable_example :
    Ends (λ r. Follows (ctxt_of trimmed) r.1 × IsSubtable r.0) (read_subtable (ctxt_of trimmed))
read_subtable-IsSubtable_example =
    read_subtable-IsSubtable (ctxt_of trimmed) (ctxt_of-IsValid trimmed refl (omega arith))

abbrev run_table : CmapSubtable
run_table = CmapSubtable.format6 0 65 (array_of 2 (0 ∷ 7 ∷ 0 ∷ 8 ∷ []))

map_glyph-mappings_example :
    (m : CharMap) × (mappings run_table ≡ ok m) × MapsBack (map_glyph run_table) 8 (get_char 8 m)
map_glyph-mappings_example = map_glyph-mappings run_table 8 (pair_IsArray _ refl refl) (omega arith)

-- A glyph of one contour with two points, whose flag is stored once
abbrev a_glyph : List ℕ
a_glyph = 0 ∷ 1 ∷ 0 ∷ 0 ∷ 0 ∷ 0 ∷ 0 ∷ 9 ∷ 0 ∷ 9 ∷ 0 ∷ 1 ∷ 0 ∷ 0 ∷ 0x3f ∷ 1 ∷ 5 ∷ 6 ∷ 7 ∷ 8 ∷ []

read_glyph-IsGlyph_example :
    Ends (λ r. Follows (ctxt_of a_glyph) r.1 × IsGlyph r.0) (read_glyph (ctxt_of a_glyph))
read_glyph-IsGlyph_example =
    read_glyph-IsGlyph (ctxt_of a_glyph) (ctxt_of-IsValid a_glyph refl (omega arith))

-- Two points that are farther apart than 2 ^ 15
abbrev far_points : SimpleGlyph
far_points = record {
  end_pts_of_contours = 1 ∷ [];
  instructions = 4 ∷ [];
  flags = 0x37 ∷ 0 ∷ [];
  coordinates = record { x = pos 30000; y = pos 1 } ∷ record { x = negsuc 29999; y = pos 2 } ∷ [];
}

far_points-IsSimple : IsSimple far_points
far_points-IsSimple = record {
  ends = (omega arith, tt);
  few_ends = omega arith;
  few_instructions = omega arith;
  flagged = refl;
  pointed = refl;
  points = omega arith;
}

abbrev stored : List ℕ
stored = simple_bytes far_points

read_simple_glyph-write_simple_glyph_example :
    (write_simple_glyph buffer_context far_points new_buffer ≡ ok (record { bytes = stored }))
    × (read_simple_glyph 1 (ctxt_of stored)
        ≡ ok (record far_points { flags = 1 ∷ 0 ∷ [] }, advance (ctxt_of stored) (length stored)))
unfolding sub_i16
read_simple_glyph-write_simple_glyph_example =
    read_simple_glyph-write_simple_glyph far_points new_buffer (ctxt_of stored) []
      far_points-IsSimple (ctxt_of-IsValid stored refl (omega arith)) refl

abbrev component : ℕ → CompositeGlyph
component id = record {
  flags = 0;
  glyph_index = id;
  argument1 = CompositeGlyphArgument.u8 0;
  argument2 = CompositeGlyphArgument.u8 0;
  scale = none;
}

-- A composite glyph
abbrev glyph_of : List CompositeGlyph → GlyfRecord
glyph_of glyphs = GlyfRecord.parsed (record {
  number_of_contours = negsuc 0;
  bounding_box = record { x_min = pos 0; x_max = pos 0; y_min = pos 0; y_max = pos 0 };
  glyph_data = GlyphData.composite glyphs [];
})

-- A glyph that names the last one and itself, one that is not named, and the last one
abbrev three_records : GlyfTable
three_records = record {
  records =
      glyph_of (component 2 ∷ component 0 ∷ [])
      ∷ GlyfRecord.empty
      ∷ GlyfRecord.present (new_scope a_glyph)
      ∷ [];
}

subset-Ends_example : Ends (IsSubset three_records (0 ∷ [])) (subset three_records (0 ∷ []))
subset-Ends_example =
    subset-Ends three_records (0 ∷ [])
      ((omega arith, (omega arith, tt)), (tt, (ctxt_of-IsValid a_glyph refl (omega arith), tt)))

-- The subset has the named glyph, with its place as its number.
subset_three :
    subset three_records (0 ∷ [])
    ≡ ok (
      record {
        records =
            glyph_of (component 1 ∷ component 0 ∷ []) ∷ GlyfRecord.present (new_scope a_glyph) ∷ [];
      },
      0 ∷ 2 ∷ [],
    )
unfolding subset subset_loop subset_record add_components place is_composite parse add_glyph add_to
    number_of_contours read_i16be check_avail read_unchecked_i16be read_unchecked_u16be
    peek_unchecked
subset_three = refl

-- A glyph of one byte and one of none, stored in two bytes
abbrev short_glyph : GlyfRecord
short_glyph = GlyfRecord.present (new_scope (5 ∷ []))

abbrev short_glyphs : List GlyfRecord
short_glyphs = short_glyph ∷ GlyfRecord.empty ∷ []

abbrev short_offsets : List ℕ
short_offsets = 0 ∷ 0 ∷ 0 ∷ 1 ∷ 0 ∷ 1 ∷ []

short_offsets_written :
    write_offsets buffer_context (0 ∷ 2 ∷ 2 ∷ []) IndexToLocFormat.short new_buffer
    ≡ ok (record { bytes = short_offsets })
unfolding write_offsets try_from write_u16be
short_offsets_written = refl

read_glyf-write_glyf_example :
    (write_glyf buffer_context
        (record { records = short_glyphs })
        IndexToLocFormat.short
        (record { bytes = 9 ∷ [] })
      ≡ ok (0 ∷ 2 ∷ 2 ∷ [], record { bytes = 9 ∷ 5 ∷ 0 ∷ [] }))
    × ((loca : LocaTable) × (read_loca 2 IndexToLocFormat.short (ctxt_of short_offsets)
          ≡ ok (loca, advance (ctxt_of short_offsets) 6))
        × (read_glyf loca (ctxt_of (5 ∷ 0 ∷ []))
            ≡ ok (
              record {
                records = GlyfRecord.present (new_scope (5 ∷ 0 ∷ [])) ∷ GlyfRecord.empty ∷ [];
              },
              ctxt_of (5 ∷ 0 ∷ []),
            )))
unfolding offset
read_glyf-write_glyf_example =
    read_glyf-write_glyf IndexToLocFormat.short short_glyphs (record { bytes = 9 ∷ [] })
      (record { bytes = short_offsets }) (ctxt_of (5 ∷ 0 ∷ [])) (ctxt_of short_offsets) [] []
      (omega arith, (tt, tt)) (omega arith) (omega arith) (omega arith) short_offsets_written refl
      (ctxt_of-IsValid short_offsets refl (omega arith)) refl

-- The last offset lies behind the table.
abbrev two_offsets : LocaTable
two_offsets = record { offsets = LocaOffsets.short (array_of 2 (0 ∷ 0 ∷ 0 ∷ 11 ∷ [])) }

read_glyf-Ends_example :
    Ends (IsRead two_offsets (ctxt_of a_glyph)) (read_glyf two_offsets (ctxt_of a_glyph))
read_glyf-Ends_example =
    read_glyf-Ends two_offsets (ctxt_of a_glyph) (pair_IsArray _ refl refl)
      (ctxt_of-IsValid a_glyph refl (omega arith))

bounding_box-least_example :
    (box : BoundingBox) × (bounding_box far_points ≡ ok box)
    × All (Contains box) far_points.coordinates
    × LiesIn box (record { x_min = negsuc 39999; x_max = pos 40000; y_min = pos 0; y_max = pos 2 })
bounding_box-least_example =
    bounding_box-least far_points (record { x = pos 30000; y = pos 1 })
      (record { x = negsuc 29999; y = pos 2 } ∷ [])
      (record { x_min = negsuc 39999; x_max = pos 40000; y_min = pos 0; y_max = pos 2 }) refl
      (
        record {
          left = omega arith;
          right = omega arith;
          below = omega arith;
          above = omega arith;
        },
        (
          record {
            left = omega arith;
            right = omega arith;
            below = omega arith;
            above = omega arith;
          },
          tt,
        ),
      )
