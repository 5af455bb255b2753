-- ===== src/Layout/Coverage/Safety.antt =====
-- What reading a coverage can end in, and what the reader checks.
use allsorts.Base.{ℕ, ◌≤◌, arith, List, [], ◌∷◌, All, ◌==◌, leb, leb→le, Bool-cases, inl, inr}
use allsorts.Binary.Read.{ReadCtxt, Reader, IsValid, read_u16be, pure, check, ◌>>◌}
use allsorts.Binary.Read.Values.{be_value, read_unchecked_u16be-Exact}
use allsorts.Binary.Read.Fixed.{read_u16be-Fixed}
use allsorts.Binary.Read.Safety.{Follows, Fixed-IsSafe}
use allsorts.Binary.Read.Gives.{Gives, Gives-pure, Gives-fail, Gives->>=, Gives-u16be}
use allsorts.Binary.Unchecked.{u16be}
use allsorts.Binary.Vector.{read_vec, read_vec-IsSafe, three_words}
use allsorts.Error.{bad_version, Ends}
use allsorts.Layout.Words.{record-Exact}
use allsorts.Layout.Coverage.{
  CoverageRangeRecord, Coverage, format1, format2, coverage_range_of, coverage_range_record,
  check_ranges, read_format, read_coverage,
}
use allsorts.Layout.Coverage.RoundTrip.{words_of, same}

abbrev pub IsRange : CoverageRangeRecord → Type 0
IsRange r = r.start_glyph ≤ r.end_glyph

-- No range of the coverage ends before it starts.
abbrev pub IsChecked : Coverage → Type 0
IsChecked (format1 glyphs) = Unit {0}
IsChecked (format2 rs) = All IsRange rs

check_ranges-Gives :
    (rs : List CoverageRangeRecord) (k : Reader Coverage)
    → (All IsRange rs → Gives IsChecked k)
    → Gives IsChecked (check_ranges rs >> k)
unfolding check_ranges check
check_ranges-Gives [] k h c v = h tt c v
check_ranges-Gives (r ∷ rs) k h c v = elim (Bool-cases (leb r.start_glyph r.end_glyph)) [
  | inl le ↦ rw le (check_ranges-Gives rs k (λ hs. h (leb→le r.start_glyph r.end_glyph le, hs)) c v)
  | inr gt ↦ rw gt tt
]

format_Gives : (format : ℕ) → Gives IsChecked (read_format format)
unfolding read_format
format_Gives format = elim (Bool-cases (format == 1)) [
  | inl a ↦ rw a (
      Gives-u16be IsChecked _ (λ n h.
        Gives->>= IsChecked (read_vec u16be n) _
          (read_vec-IsSafe u16be be_value read_unchecked_u16be-Exact n (omega arith))
          (λ glyphs. Gives-pure IsChecked (format1 glyphs) tt)))
  | inr a ↦ rw a (elim (Bool-cases (format == 2)) [
    | inl b ↦ rw b (
        Gives-u16be IsChecked _ (λ n h.
          Gives->>= IsChecked (read_vec coverage_range_record n) _
            (read_vec-IsSafe coverage_range_record (λ bs. coverage_range_of (three_words bs))
              (record-Exact coverage_range_of words_of same) n (omega arith))
            (λ rs. check_ranges-Gives rs (pure (format2 rs)) (Gives-pure IsChecked (format2 rs)))))
    | inr b ↦ rw b (Gives-fail IsChecked bad_version)
  ])
]

-- On every valid context `read_coverage` ends in an error or in a coverage none of whose ranges
-- ends before it starts, with a valid context in the same scope, no further back; it neither panics
-- nor reads out of bounds.
pub read_coverage-IsChecked :
    (c : ReadCtxt) → IsValid c → Ends (λ r. Follows c r.1 × IsChecked r.0) (read_coverage c)
unfolding read_coverage
read_coverage-IsChecked =
    Gives->>= IsChecked read_u16be read_format (Fixed-IsSafe read_u16be 2 be_value read_u16be-Fixed)
      format_Gives
