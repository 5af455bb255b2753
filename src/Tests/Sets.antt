-- ===== src/Tests/Sets.antt =====
-- src/layout.rs and src/gdef.rs, coverages and glyph definitions, on concrete inputs.
use allsorts.Base.{ℕ, ◌≡◌, refl, arith, List, [], ◌∷◌, some, length}
use allsorts.Binary.Read.{IsValid, advance}
use allsorts.Binary.Read.Safety.{Follows}
use allsorts.Error.{ok, Ends}
use allsorts.Layout.Coverage.{
  CoverageRangeRecord, format1, format2, read_coverage, glyph_coverage_value, glyph_count,
  binary_search,
}
use allsorts.Layout.Coverage.Search.{index_of, glyph_coverage_value-index_of}
use allsorts.Layout.Coverage.Expand.{expand, glyph_coverage_value-expand, glyph_count-expand}
use allsorts.Layout.Coverage.RoundTrip.{coverage_bytes, read_coverage-coverage_bytes}
use allsorts.Layout.Coverage.Safety.{IsChecked, read_coverage-IsChecked}
use allsorts.Gdef.Read.{read_gdef, read_gdef-Ends}
use allsorts.Tests.{ctxt_of, ctxt_of-IsValid}

abbrev three_glyphs : List ℕ
three_glyphs = 3 ∷ 5 ∷ 9 ∷ []

glyph_coverage_value-index_of_example :
    glyph_coverage_value (format1 three_glyphs) 9 ≡ index_of three_glyphs 9
glyph_coverage_value-index_of_example =
    glyph_coverage_value-index_of three_glyphs 9
      ((omega arith, (omega arith, tt)), ((omega arith, tt), (tt, tt))) (omega arith)

-- The search finds the last of three.
nine_found : binary_search three_glyphs 9 ≡ some 2
unfolding binary_search
nine_found = refl

abbrev two_ranges : List CoverageRangeRecord
two_ranges =
    record { start_glyph = 3; end_glyph = 4; start_coverage_index = 0 }
    ∷ record { start_glyph = 7; end_glyph = 7; start_coverage_index = 2 }
    ∷ []

glyph_coverage_value-expand_example :
    glyph_coverage_value (format2 two_ranges) 7
    ≡ glyph_coverage_value (format1 (expand two_ranges)) 7
glyph_coverage_value-expand_example =
    glyph_coverage_value-expand two_ranges 7 (omega arith, refl, (omega arith, refl, tt))
      ((omega arith, (omega arith, tt)), ((omega arith, tt), (tt, tt))) (omega arith)

glyph_count-expand_example : glyph_count (format2 two_ranges) ≡ length (expand two_ranges)
glyph_count-expand_example =
    glyph_count-expand two_ranges (omega arith, refl, (omega arith, refl, tt)) (omega arith)
      (omega arith, (omega arith, tt))

abbrev coverage_table : List ℕ
coverage_table = 0 ∷ 2 ∷ 0 ∷ 2 ∷ 0 ∷ 3 ∷ 0 ∷ 4 ∷ 0 ∷ 0 ∷ 0 ∷ 7 ∷ 0 ∷ 7 ∷ 0 ∷ 2 ∷ 8 ∷ []

coverage_table-IsValid : IsValid (ctxt_of coverage_table)
coverage_table-IsValid = ctxt_of-IsValid coverage_table refl (omega arith)

read_coverage-coverage_bytes_example :
    read_coverage (ctxt_of coverage_table)
    ≡ ok (
      format2 two_ranges,
      advance (ctxt_of coverage_table) (length (coverage_bytes (format2 two_ranges))),
    )
read_coverage-coverage_bytes_example =
    read_coverage-coverage_bytes (format2 two_ranges) (ctxt_of coverage_table) (8 ∷ [])
      (
        omega arith,
        ((omega arith, omega arith, omega arith), ((omega arith, omega arith, omega arith), tt)),
        (omega arith, (omega arith, tt)),
      )
      coverage_table-IsValid refl

read_coverage-IsChecked_example :
    Ends
      (λ r. Follows (ctxt_of coverage_table) r.1 × IsChecked r.0)
      (read_coverage (ctxt_of coverage_table))
read_coverage-IsChecked_example =
    read_coverage-IsChecked (ctxt_of coverage_table) coverage_table-IsValid

-- A header whose first offset points behind it and whose last is zero.
abbrev gdef_table : List ℕ
gdef_table = 0 ∷ 1 ∷ 0 ∷ 2 ∷ 0 ∷ 12 ∷ 0 ∷ 0 ∷ 0 ∷ 0 ∷ 0 ∷ 0 ∷ 0 ∷ 1 ∷ 0 ∷ 9 ∷ 0 ∷ 1 ∷ 0 ∷ 3 ∷ []

read_gdef-Ends_example :
    Ends (λ r. Follows (ctxt_of gdef_table) r.1) (read_gdef (ctxt_of gdef_table))
read_gdef-Ends_example =
    read_gdef-Ends (ctxt_of gdef_table) (ctxt_of-IsValid gdef_table refl (omega arith))
