-- ===== src/Tests/Numbers.antt =====
-- src/woff2.rs and src/woff2/lut.rs on concrete inputs.
use allsorts.Base.{
  ℕ, ◌+◌, ◌*◌, ◌%◌, ◌^◌, ◌≤◌, ◌<◌, ◌≡◌, refl, arith, none, some, List, [], ◌∷◌, ◌++◌, length, All,
}
use allsorts.Base.Int.{pos}
use allsorts.Binary.Read.{IsValid, remaining, advance}
use allsorts.Binary.Write.{be_bytes}
use allsorts.Error.{ok}
use allsorts.Tag.{cmap, glyf}
use allsorts.Woff2.KnownTags.{known_table_tags}
use allsorts.Woff2.Base128.{read_base128}
use allsorts.Woff2.Base128.Digits.{from_128, digit_bytes, to_digits, IsMinimal}
use allsorts.Woff2.Base128.RoundTrip.{read_base128-digits_of, read_base128-IsMinimal}
use allsorts.Woff2.Packed.{read_packed_u16, packed_bytes, read_packed_u16-packed_bytes}
use allsorts.Woff2.Lut.Formula.{triplet_of}
use allsorts.Woff2.Coordinates.{decode_coordinates}
use allsorts.Woff2.Coordinates.Split.{by_sign, decode_coordinates-be_bytes}
use allsorts.Base.{bit_and, if◌then◌else◌}
use allsorts.Binary.Read.{pure}
use allsorts.Woff2.Header.{Woff2Header, IsHeader}
use allsorts.Woff2.Directory.{read_transform_length, read_some, read_table_directory}
use allsorts.Woff2.Directory.RoundTrip.{
  StoredEntry, IsStored, has_transform_length, read_transform_length-has_transform_length,
  directory_bytes, entries_from, read_table_directory-directory_bytes,
}
use allsorts.Woff2.EndPoints.{
  compute_end_pts_of_contours, counts_bytes, last_points, total,
  compute_end_pts_of_contours-counts_bytes,
}
use allsorts.Tests.{ctxt_of, ctxt_of-IsValid}

abbrev three_hundred : List ℕ
three_hundred = 130 ∷ 44 ∷ 7 ∷ []

three_hundred-IsValid : IsValid (ctxt_of three_hundred)
three_hundred-IsValid = ctxt_of-IsValid three_hundred refl (omega arith)

reads_three_hundred :
    read_base128 (ctxt_of three_hundred) ≡ ok (300, advance (ctxt_of three_hundred) 2)
unfolding to_digits
reads_three_hundred =
    read_base128-digits_of 300 (ctxt_of three_hundred) (7 ∷ []) (omega arith) three_hundred-IsValid
      refl

read_base128-IsMinimal_example :
    (ds : List ℕ) × All (λ d. d < 128) ds
    × IsMinimal ds
    × (length ds ≤ 5)
    × (300 ≡ from_128 0 ds)
    × (300 < 2 ^ 32)
    × (remaining (ctxt_of three_hundred)
        ≡ digit_bytes ds ++ remaining (advance (ctxt_of three_hundred) 2))
read_base128-IsMinimal_example =
    read_base128-IsMinimal 300 (ctxt_of three_hundred) (advance (ctxt_of three_hundred) 2)
      three_hundred-IsValid reads_three_hundred

abbrev five_hundred : List ℕ
five_hundred = 255 ∷ 247 ∷ 9 ∷ []

read_packed_u16-packed_bytes_example :
    read_packed_u16 (ctxt_of five_hundred)
    ≡ ok (500, advance (ctxt_of five_hundred) (length (packed_bytes 500)))
read_packed_u16-packed_bytes_example =
    read_packed_u16-packed_bytes 500 (ctxt_of five_hundred) (9 ∷ []) (omega arith)
      (ctxt_of-IsValid five_hundred refl (omega arith)) refl

-- The flag 0xa3 is off the curve and names the row 35.
decode_coordinates-be_bytes_example :
    decode_coordinates 0xa3
      (be_bytes (triplet_of (0xa3 % 128)).byte_count (5 * 2 ^ (triplet_of (0xa3 % 128)).y_bits + 9))
    ≡ ok (
      by_sign (triplet_of (0xa3 % 128)).x_is_negative (5 + (triplet_of (0xa3 % 128)).delta_x),
      by_sign (triplet_of (0xa3 % 128)).y_is_negative (9 + (triplet_of (0xa3 % 128)).delta_y),
    )
decode_coordinates-be_bytes_example =
    decode_coordinates-be_bytes 0xa3 5 9 (omega arith) (omega arith) (omega arith) (omega arith)
      (omega arith)

-- A `cmap` table that is not transformed, and a `glyf` table that is.
abbrev two_tables : List StoredEntry
two_tables =
    record { flags = 0; tag = cmap; orig_length = 100; transform_length = none }
    ∷ record { flags = 10; tag = glyf; orig_length = 90; transform_length = some 80 }
    ∷ []

abbrev two_tables_bytes : List ℕ
two_tables_bytes = 0 ∷ 100 ∷ 10 ∷ 90 ∷ 80 ∷ 1 ∷ []

two_tables-IsStored : All IsStored two_tables
unfolding known_table_tags
two_tables-IsStored = (
  record { is_byte = omega arith; is_tag = refl; is_length = omega arith; is_transform = tt },
  (
    record {
      is_byte = omega arith;
      is_tag = refl;
      is_length = omega arith;
      is_transform = omega arith;
    },
    tt,
  ),
)

read_table_directory-directory_bytes_example :
    read_table_directory 2 (ctxt_of two_tables_bytes)
    ≡ ok (
      entries_from 0 two_tables,
      advance (ctxt_of two_tables_bytes) (length (directory_bytes two_tables)),
    )
unfolding to_digits
read_table_directory-directory_bytes_example =
    read_table_directory-directory_bytes two_tables (ctxt_of two_tables_bytes) (1 ∷ [])
      two_tables-IsStored (ctxt_of-IsValid two_tables_bytes refl (omega arith)) refl

abbrev two_contours : List ℕ
two_contours = 4 ∷ 3 ∷ 9 ∷ []

compute_end_pts_of_contours-counts_bytes_example :
    compute_end_pts_of_contours (pos 2) (ctxt_of two_contours)
    ≡ ok (
      (last_points 0 (4 ∷ 3 ∷ []), total (4 ∷ 3 ∷ [])),
      advance (ctxt_of two_contours) (length (counts_bytes (4 ∷ 3 ∷ []))),
    )
compute_end_pts_of_contours-counts_bytes_example =
    compute_end_pts_of_contours-counts_bytes (4 ∷ 3 ∷ []) (ctxt_of two_contours) (9 ∷ [])
      (omega arith, (omega arith, tt)) (omega arith)
      (ctxt_of-IsValid two_contours refl (omega arith)) refl

-- A glyf table whose version bits are both set, the null transform.
read_transform_length-has_transform_length_example :
    read_transform_length (bit_and 0xca 0xc0) glyf
    ≡ (if has_transform_length 0xca glyf then read_some else pure none)
read_transform_length-has_transform_length_example =
    read_transform_length-has_transform_length 0xca glyf (omega arith)

abbrev small_header : Woff2Header
small_header = record {
  flavor = 0x00010000;
  length = 100;
  num_tables = 2;
  total_sfnt_size = 300;
  total_compressed_size = 40;
  major_version = 1;
  minor_version = 0;
  meta_offset = 0;
  meta_length = 0;
  meta_orig_length = 0;
  priv_offset = 0;
  priv_length = 0;
}

small_header-IsHeader : IsHeader small_header
small_header-IsHeader = record {
  flavor_fits = omega arith;
  length_fits = omega arith;
  num_tables_fits = omega arith;
  total_sfnt_size_fits = omega arith;
  total_compressed_size_fits = omega arith;
  major_version_fits = omega arith;
  minor_version_fits = omega arith;
  meta_offset_fits = omega arith;
  meta_length_fits = omega arith;
  meta_orig_length_fits = omega arith;
  priv_offset_fits = omega arith;
  priv_length_fits = omega arith;
}
