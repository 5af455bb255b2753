-- ===== src/Tests/Tables.antt =====
-- src/tables/loca.rs, src/checksum.rs, src/layout.rs and src/tag.rs on concrete inputs.
use allsorts.Base.{none, some, ℕ, ◌+◌, ◌*◌, ◌%◌, ◌^◌, ◌≡◌, refl, arith, if◌then◌else◌, inr}
use allsorts.Base.{List, [], ◌∷◌, length}
use allsorts.Binary.Read.{IsValid, advance}
use allsorts.Binary.Read.Safety.{Follows}
use allsorts.Binary.Write.{WriteBuffer, buffer_context, new_buffer, be_bytes}
use allsorts.Error.{ok, err, bad_value, Ends}
use allsorts.Checksum.{table_checksum}
use allsorts.Checksum.Sum.{IsTable, words, sum, table_checksum-sum}
use allsorts.Loca.{IndexToLocFormat, LocaTable}
use allsorts.Loca.Read.{read_loca, all_offsets}
use allsorts.Loca.Write.{write_offsets}
use allsorts.Loca.RoundTrip.{write_offsets-short}
use allsorts.Loca.Offsets.{read_loca-write_offsets}
use allsorts.Layout.ClassDef.{ClassRangeRecord, format2, read_class_def, glyph_class_value}
use allsorts.Layout.ClassDef.Lookup.{class_of_ranges-IsOrdered}
use allsorts.Layout.ClassDef.RoundTrip.{read_class_def-ranges_bytes, read_class_def-Ends}
use allsorts.Tag.Text.{from_string, display_tag, all_tag_chars, from_string-display_tag}
use allsorts.Macroman.{char_arms, macroman_arms, find_arm, char_to_macroman, macroman_to_char}
use allsorts.Macroman.Inverse.{macroman_to_char-char_to_macroman}
use allsorts.Tag.{tag_from_bytes}
use allsorts.Woff2.KnownTags.{known_table_tags}
use allsorts.Tests.{ctxt_of, ctxt_of-IsValid, all_bytes-octets}

abbrev two_offsets : List ℕ
two_offsets = 0 ∷ 0x20 ∷ []

abbrev two_offsets_buffer : WriteBuffer
two_offsets_buffer = record { bytes = 0 ∷ 0 ∷ 0 ∷ 0x10 ∷ [] }

two_offsets_written :
    write_offsets buffer_context two_offsets IndexToLocFormat.short new_buffer
    ≡ ok two_offsets_buffer
two_offsets_written = write_offsets-short two_offsets new_buffer

abbrev loca_bytes : List ℕ
loca_bytes = 0 ∷ 0 ∷ 0 ∷ 0x10 ∷ 7 ∷ []

read_loca-write_offsets_example :
    (table : LocaTable) × (read_loca 1 IndexToLocFormat.short (ctxt_of loca_bytes)
      ≡ ok (table, advance (ctxt_of loca_bytes) (length two_offsets_buffer.bytes)))
    × (all_offsets table ≡ ok two_offsets)
read_loca-write_offsets_example =
    read_loca-write_offsets IndexToLocFormat.short 1 two_offsets two_offsets_buffer
      (ctxt_of loca_bytes) (7 ∷ []) two_offsets_written refl (omega arith)
      (omega arith, (omega arith, tt)) (ctxt_of-IsValid loca_bytes refl (omega arith)) refl

abbrev two_words : List ℕ
two_words = 255 ∷ 255 ∷ 255 ∷ 255 ∷ 0 ∷ 0 ∷ 0 ∷ 3 ∷ []

two_words-IsTable : IsTable two_words
two_words-IsTable = record {
  octets = all_bytes-octets two_words refl;
  fits = omega arith;
  aligned = omega arith;
}

table_checksum-sum_example : table_checksum two_words ≡ ok (sum (words two_words) % 2 ^ 32)
table_checksum-sum_example = table_checksum-sum two_words two_words-IsTable

abbrev array_table : List ℕ
array_table = 0 ∷ 1 ∷ 0 ∷ 5 ∷ 0 ∷ 2 ∷ 0 ∷ 3 ∷ 0 ∷ 4 ∷ []

-- The table claims nine ranges and holds one, with two bytes behind it.
abbrev range_table : List ℕ
range_table = 0 ∷ 2 ∷ 0 ∷ 9 ∷ 0 ∷ 3 ∷ 0 ∷ 6 ∷ 0 ∷ 1 ∷ 7 ∷ 7 ∷ []

abbrev one_range : ClassRangeRecord
one_range = record { start_glyph = 3; end_glyph = 6; class_value = 1 }

range_table-IsValid : IsValid (ctxt_of range_table)
range_table-IsValid = ctxt_of-IsValid range_table refl (omega arith)

read_class_def-ranges_bytes_example :
    read_class_def (ctxt_of range_table)
    ≡ ok (format2 (one_range ∷ []), advance (ctxt_of range_table) (4 + 1 * 6))
read_class_def-ranges_bytes_example =
    read_class_def-ranges_bytes 9 (one_range ∷ []) (ctxt_of range_table) (7 ∷ 7 ∷ []) (omega arith)
      (omega arith) (inr (omega arith)) ((omega arith, omega arith, omega arith), tt)
      range_table-IsValid refl

read_class_def-Ends_example :
    Ends (λ r. Follows (ctxt_of range_table) r.1) (read_class_def (ctxt_of range_table))
read_class_def-Ends_example = read_class_def-Ends (ctxt_of range_table) range_table-IsValid

class_of_ranges-IsOrdered_example :
    glyph_class_value
      (format2 (one_range ∷ record { start_glyph = 7; end_glyph = 8; class_value = 2 } ∷ []))
      8
    ≡ ok 2
class_of_ranges-IsOrdered_example =
    class_of_ranges-IsOrdered (one_range ∷ []) []
      (record { start_glyph = 7; end_glyph = 8; class_value = 2 }) 8
      ((omega arith, omega arith, (omega arith, omega arith, tt))) (omega arith) (omega arith)

abbrev two_chars : List ℕ
two_chars = 66 ∷ 65 ∷ []

from_string-display_tag_example :
    from_string (display_tag 0x676c7966)
    ≡ (if all_tag_chars (be_bytes 4 0x676c7966) then ok 0x676c7966 else err bad_value)
from_string-display_tag_example = from_string-display_tag 0x676c7966 (omega arith)

macroman_to_char-char_to_macroman_example : macroman_to_char 128 ≡ some 196
unfolding find_arm char_arms char_to_macroman
macroman_to_char-char_to_macroman_example = macroman_to_char-char_to_macroman 196 128 refl

-- The byte 127 decodes to a character that has no byte, and 246 to the ASCII circumflex.
delete_decodes : macroman_to_char 127 ≡ some 127
unfolding macroman_to_char
delete_decodes = refl

delete_has_no_byte : char_to_macroman 127 ≡ none
unfolding find_arm char_arms char_to_macroman
delete_has_no_byte = refl

circumflex_decodes : macroman_to_char 246 ≡ some 94
unfolding find_arm macroman_arms macroman_to_char
circumflex_decodes = refl

-- The known tags are those that the macro `tag!` makes of their four characters.
known_table_tags_bytes :
    tag_from_bytes 99 109 97 112
      ∷ tag_from_bytes 104 101 97 100
      ∷ tag_from_bytes 104 104 101 97
      ∷ tag_from_bytes 104 109 116 120
      ∷ tag_from_bytes 109 97 120 112
      ∷ tag_from_bytes 110 97 109 101
      ∷ tag_from_bytes 79 83 47 50
      ∷ tag_from_bytes 112 111 115 116
      ∷ tag_from_bytes 99 118 116 32
      ∷ tag_from_bytes 102 112 103 109
      ∷ tag_from_bytes 103 108 121 102
      ∷ tag_from_bytes 108 111 99 97
      ∷ tag_from_bytes 112 114 101 112
      ∷ tag_from_bytes 67 70 70 32
      ∷ tag_from_bytes 86 79 82 71
      ∷ tag_from_bytes 69 66 68 84
      ∷ tag_from_bytes 69 66 76 67
      ∷ tag_from_bytes 103 97 115 112
      ∷ tag_from_bytes 104 100 109 120
      ∷ tag_from_bytes 107 101 114 110
      ∷ tag_from_bytes 76 84 83 72
      ∷ tag_from_bytes 80 67 76 84
      ∷ tag_from_bytes 86 68 77 88
      ∷ tag_from_bytes 118 104 101 97
      ∷ tag_from_bytes 118 109 116 120
      ∷ tag_from_bytes 66 65 83 69
      ∷ tag_from_bytes 71 68 69 70
      ∷ tag_from_bytes 71 80 79 83
      ∷ tag_from_bytes 71 83 85 66
      ∷ tag_from_bytes 69 66 83 67
      ∷ tag_from_bytes 74 83 84 70
      ∷ tag_from_bytes 77 65 84 72
      ∷ tag_from_bytes 67 66 68 84
      ∷ tag_from_bytes 67 66 76 67
      ∷ tag_from_bytes 67 79 76 82
      ∷ tag_from_bytes 67 80 65 76
      ∷ tag_from_bytes 83 86 71 32
      ∷ tag_from_bytes 115 98 105 120
      ∷ tag_from_bytes 97 99 110 116
      ∷ tag_from_bytes 97 118 97 114
      ∷ tag_from_bytes 98 100 97 116
      ∷ tag_from_bytes 98 108 111 99
      ∷ tag_from_bytes 98 115 108 110
      ∷ tag_from_bytes 99 118 97 114
      ∷ tag_from_bytes 102 100 115 99
      ∷ tag_from_bytes 102 101 97 116
      ∷ tag_from_bytes 102 109 116 120
      ∷ tag_from_bytes 102 118 97 114
      ∷ tag_from_bytes 103 118 97 114
      ∷ tag_from_bytes 104 115 116 121
      ∷ tag_from_bytes 106 117 115 116
      ∷ tag_from_bytes 108 99 97 114
      ∷ tag_from_bytes 109 111 114 116
      ∷ tag_from_bytes 109 111 114 120
      ∷ tag_from_bytes 111 112 98 100
      ∷ tag_from_bytes 112 114 111 112
      ∷ tag_from_bytes 116 114 97 107
      ∷ tag_from_bytes 90 97 112 102
      ∷ tag_from_bytes 83 105 108 102
      ∷ tag_from_bytes 71 108 97 116
      ∷ tag_from_bytes 71 108 111 99
      ∷ tag_from_bytes 70 101 97 116
      ∷ tag_from_bytes 83 105 108 108
      ∷ []
    ≡ known_table_tags
unfolding tag_from_bytes known_table_tags
known_table_tags_bytes = refl
