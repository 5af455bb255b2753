-- ===== src/Cmap/Mappings.antt =====
-- src/tables/cmap.rs, `CmapSubtable::mappings`: the characters of the glyphs. The hash map is a list
-- of its entries, in the order in which they were put in.
use allsorts.Base.{
  ℕ, zero, suc, ◌+◌, ◌-◌, ◌%◌, ◌^◌, ◌==◌, ltb, if◌then◌else◌, List, [], ◌∷◌, ◌++◌, Option, none,
  some,
}
use allsorts.Base.Int.{ℤ}
use allsorts.Binary.Unchecked.{u8, u16be, i16be}
use allsorts.Binary.Array.{to_vec, check_index, get_item}
use allsorts.Error.{Outcome, ok, err, ParseError, bad_value, not_implemented, ◌>>=◌, ◌>>◌}
use allsorts.Cmap.{CmapSubtable, Segments, SequentialMapGroup, sequential_map_group}
use allsorts.Cmap.Map.{u32_add, add_id_delta, offset_to_index}

abbrev pub CharMap : Type 0
CharMap = List (ℕ × ℕ)

abbrev pub get_char : ℕ → CharMap → Option ℕ
get_char gid [] = none
get_char gid ((g, ch) ∷ entries) = if g == gid then some ch else get_char gid entries

-- `entry(gid).or_insert(ch)`
abbrev pub or_insert : ℕ → ℕ → CharMap → CharMap
or_insert gid ch entries = elim (get_char gid entries) [
  | some old ↦ entries
  | none ↦ entries ++ (gid, ch) ∷ []
]

-- The glyphs of an array, for characters from `ch` on
unfoldable pub map_array : List ℕ → ℕ → CharMap → CharMap
map_array [] ch entries = entries
map_array (gid ∷ gids) ch entries = map_array gids (u32_add ch 1) (or_insert gid ch entries)

-- The `left` characters of a group from the one at `i` on; the sum of the glyphs is a `u16`.
unfoldable pub map_group : SequentialMapGroup → ℕ → ℕ → CharMap → Outcome ParseError CharMap
map_group group zero i entries = ok entries
map_group group (suc left) i entries =
    let rest = map_group group left (i + 1) in
    if ltb group.start_glyph_id (2 ^ 16)
    then (if ltb i (2 ^ 16)
        then rest
            (or_insert ((group.start_glyph_id + i) % 2 ^ 16) (group.start_char_code + i) entries)
        else err bad_value)
    else err bad_value

unfoldable pub map_groups : List SequentialMapGroup → CharMap → Outcome ParseError CharMap
unfolding map_group
map_groups [] entries = ok entries
map_groups (group ∷ groups) entries =
    map_group group (group.end_char_code + 1 - group.start_char_code) 0 entries
    >>= map_groups groups

module _ (s : Segments) where
  -- The glyph of the character `offset_from_start` characters into segment `i`
  unfoldable pub glyph_in : ℕ → ℤ → ℕ → ℕ → ℕ → Outcome ParseError ℕ
  glyph_in i id_delta id_range_offset ch offset_from_start =
      if id_range_offset == 0
      then ok (add_id_delta 32 ch id_delta)
      else (offset_to_index i id_range_offset offset_from_start s.id_range_offsets.length
          >>= λ index.
              check_index s.glyph_id_array.length index
              >> get_item u16be s.glyph_id_array index
              >>= λ glyph. ok (add_id_delta 32 glyph id_delta))

  unfoldable pub map_codes : ℕ → ℤ → ℕ → ℕ → ℕ → ℕ → CharMap → Outcome ParseError CharMap
  unfolding glyph_in
  map_codes i id_delta id_range_offset start_code zero offset_from_start entries = ok entries
  map_codes i id_delta id_range_offset start_code (suc left) offset_from_start entries =
      let ch = start_code + offset_from_start in
      glyph_in i id_delta id_range_offset ch offset_from_start >>= λ glyph_id.
      map_codes i id_delta id_range_offset start_code left (offset_from_start + 1)
        (or_insert glyph_id ch entries)

  -- `izip!` ends with the shortest of the four.
  unfoldable pub map_zipped :
      ℕ → List ℕ → List ℕ → List ℤ → List ℕ → CharMap → Outcome ParseError CharMap
  unfolding map_codes
  map_zipped i (start_code ∷ starts) (end_code ∷ ends) (id_delta ∷ deltas) (offset ∷ offsets)
        entries =
      map_codes i id_delta offset start_code (end_code + 1 - start_code) 0 entries
      >>= map_zipped (i + 1) starts ends deltas offsets
  map_zipped i _ _ _ _ entries = ok entries

unfoldable pub mappings : CmapSubtable → Outcome ParseError CharMap
unfolding map_array map_groups map_zipped
mappings (CmapSubtable.format0 language glyphs) =
    to_vec u8 glyphs >>= λ gids. ok (map_array gids 0 [])
mappings (CmapSubtable.format2 language keys headers scope) = err not_implemented
mappings (CmapSubtable.format4 language s) = to_vec u16be s.start_codes >>= λ starts.
    to_vec u16be s.end_codes >>= λ ends. to_vec i16be s.id_deltas >>= λ deltas.
    to_vec u16be s.id_range_offsets >>= λ offsets. map_zipped s 0 starts ends deltas offsets []
mappings (CmapSubtable.format6 language first_code glyphs) =
    to_vec u16be glyphs >>= λ gids. ok (map_array gids first_code [])
mappings (CmapSubtable.format10 language start_char_code glyphs) =
    to_vec u16be glyphs >>= λ gids. ok (map_array gids start_char_code [])
mappings (CmapSubtable.format12 language groups) =
    to_vec sequential_map_group groups >>= λ gs. map_groups gs []
