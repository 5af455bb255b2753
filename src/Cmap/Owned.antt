-- ===== src/Cmap/Owned.antt =====
-- src/tables/cmap.rs, `owned`: the sub-tables that hold their numbers in vectors, and the conversion
-- of a sub-table that was read in place.
use allsorts.Base.{ℕ, List, [], ◌∷◌, Option, none, some, length, replicate}
use allsorts.Base.Int.{ℤ}
use allsorts.Binary.Unchecked.{u8, u16be, i16be}
use allsorts.Binary.Array.{to_vec}
use allsorts.Binary.Array.Find.{first}
use allsorts.Context.{at}
use allsorts.Error.{Outcome, ok, ParseError, ◌>>=◌}
use allsorts.Cmap.{CmapSubtable, Segments, SequentialMapGroup, sequential_map_group}
use allsorts.Cmap.Map.{Access, map_segments, glyph_within, glyph_from, in_group, group_glyph}

pub record OwnedSegments : Type 0 where
  pub end_codes : List ℕ
  pub start_codes : List ℕ
  pub id_deltas : List ℤ
  pub id_range_offsets : List ℕ
  pub glyph_id_array : List ℕ

-- `owned::CmapSubtable`
pub data OwnedCmapSubtable : Type 0 where
  format0 : ℕ → List ℕ → OwnedCmapSubtable
  format4 : ℕ → OwnedSegments → OwnedCmapSubtable
  format6 : ℕ → ℕ → List ℕ → OwnedCmapSubtable
  format10 : ℕ → ℕ → List ℕ → OwnedCmapSubtable
  format12 : ℕ → List SequentialMapGroup → OwnedCmapSubtable

abbrev pub vec_access : OwnedSegments → Access
vec_access s = record {
  offsets = length s.id_range_offsets;
  end_code = at s.end_codes;
  start_code = at s.start_codes;
  id_delta = at s.id_deltas;
  id_range_offset = at s.id_range_offsets;
  glyph_id = at s.glyph_id_array;
}

unfoldable pub map_owned : OwnedCmapSubtable → ℕ → Outcome ParseError (Option ℕ)
unfolding map_segments
map_owned (OwnedCmapSubtable.format0 language glyphs) ch =
    glyph_within (at glyphs) (length glyphs) ch
map_owned (OwnedCmapSubtable.format4 language s) ch =
    map_segments (vec_access s) ch (length s.end_codes) 0
map_owned (OwnedCmapSubtable.format6 language first_code glyphs) ch =
    glyph_from (at glyphs) (length glyphs) first_code ch
map_owned (OwnedCmapSubtable.format10 language start_char_code glyphs) ch =
    glyph_from (at glyphs) (length glyphs) start_char_code ch
map_owned (OwnedCmapSubtable.format12 language groups) ch =
    group_glyph ch (first (in_group ch) groups)

-- `for (target, source) in targets.iter_mut().zip(sources)`
abbrev pub copy_over : List ℕ → List ℕ → List ℕ
copy_over [] sources = []
copy_over (target ∷ targets) [] = target ∷ targets
copy_over (target ∷ targets) (source ∷ sources) = source ∷ copy_over targets sources

unfoldable pub segments_to_owned : Segments → Outcome ParseError OwnedSegments
segments_to_owned s = to_vec u16be s.end_codes >>= λ end_codes.
    to_vec u16be s.start_codes >>= λ start_codes. to_vec i16be s.id_deltas >>= λ id_deltas.
    to_vec u16be s.id_range_offsets >>= λ id_range_offsets.
    to_vec u16be s.glyph_id_array >>= λ glyph_id_array. ok (record {
      end_codes = end_codes;
      start_codes = start_codes;
      id_deltas = id_deltas;
      id_range_offsets = id_range_offsets;
      glyph_id_array = glyph_id_array;
    })

unfoldable pub to_owned : CmapSubtable → Outcome ParseError (Option OwnedCmapSubtable)
unfolding segments_to_owned
to_owned (CmapSubtable.format0 language glyphs) = to_vec u8 glyphs >>= λ ids.
    ok (some (OwnedCmapSubtable.format0 language (copy_over (replicate 256 0) ids)))
to_owned (CmapSubtable.format2 language keys headers scope) = ok none
to_owned (CmapSubtable.format4 language s) =
    segments_to_owned s >>= λ segments. ok (some (OwnedCmapSubtable.format4 language segments))
to_owned (CmapSubtable.format6 language first_code glyphs) =
    to_vec u16be glyphs >>= λ ids. ok (some (OwnedCmapSubtable.format6 language first_code ids))
to_owned (CmapSubtable.format10 language start_char_code glyphs) = to_vec u16be glyphs >>= λ ids.
    ok (some (OwnedCmapSubtable.format10 language start_char_code ids))
to_owned (CmapSubtable.format12 language groups) =
    to_vec sequential_map_group groups >>= λ gs. ok (some (OwnedCmapSubtable.format12 language gs))
