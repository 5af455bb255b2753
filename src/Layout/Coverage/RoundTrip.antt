-- ===== src/Layout/Coverage/RoundTrip.antt =====
-- src/layout.rs: reading a coverage from its stored bytes.
use allsorts.Base.{ℕ, ◌^◌, ◌≤◌, ◌<◌, ◌≡◌, refl, arith, List, [], ◌∷◌, ◌++◌, length, All, le→leb}
use allsorts.Binary.Read.{ReadCtxt, IsValid, remaining, advance, read_u16be, check}
use allsorts.Binary.Read.Remaining.{
  Reads, Reads->>=, Reads-map, Reads-pure, Reads-check, Reads-then,
}
use allsorts.Binary.Unchecked.{u16be}
use allsorts.Binary.Vector.{read_vec}
use allsorts.Binary.Write.{be_bytes}
use allsorts.Error.{ok}
use allsorts.Layout.Words.{
  words_bytes, records_bytes, word_Reads, words_Reads, records_Reads, IsTriple,
}
use allsorts.Layout.Coverage.{
  CoverageRangeRecord, Coverage, format1, format2, coverage_range_of, coverage_range_record,
  check_ranges, read_format, read_coverage,
}

abbrev pub words_of : CoverageRangeRecord → ℕ × ℕ × ℕ
words_of r = (r.start_glyph, r.end_glyph, r.start_coverage_index)

abbrev pub same : (r : CoverageRangeRecord) → coverage_range_of (words_of r) ≡ r
same r = refl

-- The stored form of a coverage.
abbrev pub coverage_bytes : Coverage → List ℕ
coverage_bytes (format1 glyphs) = be_bytes 2 1 ++ (be_bytes 2 (length glyphs) ++ words_bytes glyphs)
coverage_bytes (format2 rs) =
    be_bytes 2 2 ++ (be_bytes 2 (length rs) ++ records_bytes coverage_range_of words_of same rs)

-- A coverage that can be stored and that the reader takes: fields and counts of 16 bits, and no
-- range that ends before it starts.
abbrev pub IsCoverage : Coverage → Type 0
IsCoverage (format1 glyphs) = (length glyphs < 2 ^ 16) × All (λ g. g < 2 ^ 16) glyphs
IsCoverage (format2 rs) =
    (length rs < 2 ^ 16)
    × All (λ r. IsTriple (words_of r)) rs
    × All (λ r. r.start_glyph ≤ r.end_glyph) rs

check_ranges-Reads :
    (rs : List CoverageRangeRecord)
    → All (λ r. r.start_glyph ≤ r.end_glyph) rs
    → Reads (check_ranges rs) [] tt
unfolding check_ranges
check_ranges-Reads [] h = Reads-pure tt
check_ranges-Reads (r ∷ rs) (h, hs) =
    Reads->>= (check _) _ [] [] tt tt (Reads-check _ (le→leb r.start_glyph r.end_glyph h))
      (check_ranges-Reads rs hs)

coverage_Reads : (d : Coverage) → IsCoverage d → Reads read_coverage (coverage_bytes d) d
unfolding read_coverage read_format
coverage_Reads (format1 glyphs) (l, h) =
    Reads->>= read_u16be _ (be_bytes 2 1) (be_bytes 2 (length glyphs) ++ words_bytes glyphs) 1
      (format1 glyphs) (word_Reads 1 (omega arith))
      (Reads->>= read_u16be _ (be_bytes 2 (length glyphs)) (words_bytes glyphs) (length glyphs)
        (format1 glyphs) (word_Reads (length glyphs) l)
        (Reads-map (read_vec u16be (length glyphs)) format1 (words_bytes glyphs) glyphs
          (words_Reads glyphs h l)))
coverage_Reads (format2 rs) (l, h, o) =
    let bytes = records_bytes coverage_range_of words_of same rs in
    let n = length rs in
    Reads->>= read_u16be _ (be_bytes 2 2) (be_bytes 2 n ++ bytes) 2 (format2 rs)
      (word_Reads 2 (omega arith))
      (Reads->>= read_u16be _ (be_bytes 2 n) bytes n (format2 rs) (word_Reads n l) (
        Reads-then (read_vec coverage_range_record n) _ bytes rs (format2 rs)
          (records_Reads coverage_range_of words_of same rs h l)
          (Reads-map (check_ranges rs) (λ u. format2 rs) [] tt (check_ranges-Reads rs o))))

-- On a valid context that begins with a stored coverage of either format, with fields and counts of
-- 16 bits and no range that ends before it starts, `read_coverage` gives the coverage and stops
-- behind it.
pub read_coverage-coverage_bytes :
    (d : Coverage) (c : ReadCtxt) (rest : List ℕ)
    → IsCoverage d
    → IsValid c
    → remaining c ≡ coverage_bytes d ++ rest
    → read_coverage c ≡ ok (d, advance c (length (coverage_bytes d)))
read_coverage-coverage_bytes d c rest h v e = coverage_Reads d h c rest v e
