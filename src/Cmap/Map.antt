-- ===== src/Cmap/Map.antt =====
-- src/tables/cmap.rs, `CmapSubtable::map_glyph`, for the sub-tables that are read in place and for
-- those of the module `owned`. The two methods have the same text over arrays and over vectors: what
-- they share is a function of the accesses.
use allsorts.Base.{
  ℕ, zero, suc, ◌+◌, ◌-◌, ◌*◌, ◌/◌, ◌%◌, ◌^◌, ◌==◌, ◌&&◌, not, leb, ltb, if◌then◌else◌, bit_and,
  Bool, Option, none, some,
}
use allsorts.Base.Int.{ℤ, pos_part, neg_part}
use allsorts.Binary.Scope.{ReadScope, usize_add, usize_mul, usize_mod, offset}
use allsorts.Binary.Read.{scope_read}
use allsorts.Binary.Unchecked.{ReadUnchecked, ReadArray, u8, u16be, i16be, read_array}
use allsorts.Binary.Array.{get_item, check_index, empty}
use allsorts.Binary.Array.Find.{find}
use allsorts.Error.{Outcome, ok, err, ParseError, bad_index, bad_value, ◌>>=◌, ◌>>◌}
use allsorts.Cmap.{
  CmapSubtable, format0, format2, format4, format6, format10, format12, Segments, SubHeader,
  SequentialMapGroup, sub_header, sequential_map_group,
}

abbrev pub u32_add : ℕ → ℕ → ℕ
u32_add a b = (a + b) % 2 ^ 32

abbrev pub u32_mul : ℕ → ℕ → ℕ
u32_mul a b = a * b % 2 ^ 32

-- `(glyph + id_delta) & 0xffff` on signed integers of `w` bits
abbrev pub add_id_delta : ℕ → ℕ → ℤ → ℕ
add_id_delta w glyph id_delta =
    (glyph + pos_part id_delta + 2 ^ w - neg_part id_delta) % 2 ^ w % 2 ^ 16

unfoldable pub offset_to_index : ℕ → ℕ → ℕ → ℕ → Outcome ParseError ℕ
offset_to_index i id_range_offset start_code_offset id_range_offsets_len =
    let offset_in_id_range_offsets = u32_add id_range_offset (u32_mul (i % 2 ^ 32) 2) in
    let glyph_id_offset = u32_add offset_in_id_range_offsets (u32_mul start_code_offset 2) in
    if leb (u32_mul (id_range_offsets_len % 2 ^ 32) 2) glyph_id_offset
      && bit_and glyph_id_offset 1 == 0
    then ok ((glyph_id_offset / 2 + usize_mod - id_range_offsets_len) % usize_mod)
    else err bad_index

-- What the two kinds of format 4 give access to.
pub record Access : Type 0 where
  pub offsets : ℕ
  pub end_code : ℕ → Outcome ParseError ℕ
  pub start_code : ℕ → Outcome ParseError ℕ
  pub id_delta : ℕ → Outcome ParseError ℤ
  pub id_range_offset : ℕ → Outcome ParseError ℕ
  pub glyph_id : ℕ → Outcome ParseError ℕ

module _ (s : Access) (ch : ℕ) where
  -- The glyph of a character that segment `i` contains
  unfoldable pub segment_glyph : ℕ → ℕ → Outcome ParseError ℕ
  segment_glyph i start_code = s.id_delta i >>= λ id_delta.
      s.id_range_offset i >>= λ id_range_offset.
      if id_range_offset == 0
      then ok (add_id_delta 32 ch id_delta)
      else (offset_to_index i id_range_offset (ch - start_code) s.offsets >>= λ index.
          s.glyph_id index >>= λ glyph. ok (add_id_delta 32 glyph id_delta))

  -- `for i in 0..end_codes.len()`, from `i` on with `left` rounds left
  unfoldable pub map_segments : ℕ → ℕ → Outcome ParseError (Option ℕ)
  map_segments zero i = ok none
  map_segments (suc left) i =
      let rest = map_segments left (i + 1) in
      s.end_code i >>= λ end_code. s.start_code i >>= λ start_code.
      if leb start_code ch && leb ch end_code
      then (segment_glyph i start_code >>= λ glyph_id. ok (some glyph_id))
      else rest

-- The glyph at an index, where there is one
abbrev pub glyph_within : (ℕ → Outcome ParseError ℕ) → ℕ → ℕ → Outcome ParseError (Option ℕ)
glyph_within glyph_id len index =
    if ltb index len then (glyph_id index >>= λ glyph. ok (some glyph)) else ok none

-- The same behind a first code
abbrev pub glyph_from : (ℕ → Outcome ParseError ℕ) → ℕ → ℕ → ℕ → Outcome ParseError (Option ℕ)
glyph_from glyph_id len first_code ch =
    if leb first_code ch then glyph_within glyph_id len (ch - first_code) else ok none

abbrev pub in_group : ℕ → SequentialMapGroup → Bool
in_group ch group = leb group.start_char_code ch && leb ch group.end_char_code

-- `u16::try_from(group.start_glyph_id + (ch - group.start_char_code))?`
abbrev pub group_glyph : ℕ → Option SequentialMapGroup → Outcome ParseError (Option ℕ)
group_glyph ch none = ok none
group_glyph ch (some group) =
    let glyph_id = u32_add group.start_glyph_id (ch - group.start_char_code) in
    if ltb glyph_id (2 ^ 16) then ok (some glyph_id) else err bad_value

-- `array.check_index(i).map(|_| array.get_item(i))?`
abbrev pub checked_item : {A : Type 0} → ReadUnchecked A → ReadArray → ℕ → Outcome ParseError A
checked_item t array i = check_index array.length i >> get_item t array i

-- `SubHeader::contains`; the end of the range is a `u16`.
abbrev pub contains : SubHeader → ℕ → Bool
contains h value = leb h.first_code value && ltb value ((h.first_code + h.entry_count) % 2 ^ 16)

unfoldable pub glyph_index_sub_array : SubHeader → ℕ → ReadScope → Outcome ParseError ReadArray
glyph_index_sub_array h index sub_headers_scope =
    if ltb 0 h.entry_count
    then scope_read (read_array u16be h.entry_count)
        (offset sub_headers_scope (usize_add (usize_mul index 8 + 8 - 2) h.id_range_offset))
    else ok empty

-- The byte whose key names the sub-header
unfoldable pub header_index_byte : ReadArray → ℕ → ℕ → Outcome ParseError ℕ
header_index_byte sub_header_keys high_byte low_byte =
    if high_byte == 0
    then (checked_item u16be sub_header_keys low_byte >>= λ key.
        ok (if key == 0 then low_byte else high_byte))
    else ok high_byte

unfoldable pub map_format2 : ReadArray → ReadArray → ReadScope → ℕ → Outcome ParseError (Option ℕ)
map_format2 sub_header_keys sub_headers sub_headers_scope ch =
    let high_byte = ch / 2 ^ 8 % 2 ^ 8 in
    let low_byte = ch % 2 ^ 8 in
    header_index_byte sub_header_keys high_byte low_byte >>= λ byte.
    checked_item u16be sub_header_keys byte >>= λ key.
    checked_item sub_header sub_headers (key / 8) >>= λ h.
    if not (contains h low_byte)
    then ok (some 0)
    else (glyph_index_sub_array h (key / 8) sub_headers_scope >>= λ glyphs.
        checked_item u16be glyphs (low_byte - h.first_code) >>= λ glyph_id.
        ok (some (if glyph_id == 0 then glyph_id else add_id_delta 64 glyph_id h.id_delta)))

abbrev pub array_access : Segments → Access
array_access s = record {
  offsets = s.id_range_offsets.length;
  end_code = get_item u16be s.end_codes;
  start_code = get_item u16be s.start_codes;
  id_delta = get_item i16be s.id_deltas;
  id_range_offset = get_item u16be s.id_range_offsets;
  glyph_id = get_item u16be s.glyph_id_array;
}

unfoldable pub map_glyph : CmapSubtable → ℕ → Outcome ParseError (Option ℕ)
unfolding map_segments map_format2
map_glyph (format0 language glyphs) ch = glyph_within (get_item u8 glyphs) glyphs.length ch
map_glyph (format2 language keys headers scope) ch = map_format2 keys headers scope ch
map_glyph (format4 language s) ch = map_segments (array_access s) ch s.end_codes.length 0
map_glyph (format6 language first_code glyphs) ch =
    glyph_from (get_item u16be glyphs) glyphs.length first_code ch
map_glyph (format10 language start_char_code glyphs) ch =
    glyph_from (get_item u16be glyphs) glyphs.length start_char_code ch
map_glyph (format12 language groups) ch =
    find sequential_map_group (in_group ch) groups >>= group_glyph ch
