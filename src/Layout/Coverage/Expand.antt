-- ===== src/Layout/Coverage/Expand.antt =====
-- The ranges of a coverage of format 2 against the list of the glyphs that they stand for.
use allsorts.Base.{
  ℕ, zero, suc, ◌+◌, ◌-◌, ◌^◌, ◌≤◌, ◌<◌, ◌≡◌, refl, ap, sym, ◌∙◌, arith, ◌&&◌, leb, ltb,
  if◌then◌else◌, List, [], ◌∷◌, ◌++◌, Option, none, some, length, length-append, All,
}
use allsorts.Layout.Coverage.{
  CoverageRangeRecord, format1, format2, range_coverage_value, glyph_coverage_value, glyph_count,
  count_ranges, add_range,
}
use allsorts.Layout.Coverage.Search.{index_of, IsAscending, glyph_coverage_value-index_of}

-- `n` glyphs from `start` on
abbrev pub run : ℕ → ℕ → List ℕ
run start zero = []
run start (suc n) = start ∷ run (start + 1) n

abbrev pub glyphs_of : CoverageRangeRecord → List ℕ
glyphs_of r = run r.start_glyph (r.end_glyph + 1 - r.start_glyph)

abbrev pub expand : List CoverageRangeRecord → List ℕ
expand [] = []
expand (r ∷ rs) = glyphs_of r ++ expand rs

-- Each range is not empty and starts with the number of the glyphs before it.
abbrev pub IsCounted : ℕ → List CoverageRangeRecord → Type 0
IsCounted n [] = Unit {0}
IsCounted n (r ∷ rs) =
    (r.start_glyph ≤ r.end_glyph)
    × (r.start_coverage_index ≡ n)
    × IsCounted (n + (r.end_glyph + 1 - r.start_glyph)) rs

length-run : (start n : ℕ) → length (run start n) ≡ n
length-run start zero = refl
length-run start (suc n) = ap suc (length-run (start + 1) n)

abbrev plus : ℕ → Option ℕ → Option ℕ
plus n none = none
plus n (some i) = some (n + i)

plus-zero : (o : Option ℕ) → o ≡ plus 0 o
plus-zero none = refl
plus-zero (some i) = ap some (omega arith)

plus-plus : (m n : ℕ) (o : Option ℕ) → plus (m + n) o ≡ plus m (plus n o)
plus-plus m n none = refl
plus-plus m n (some i) = ap some (omega arith)

index_of-run :
    (start n : ℕ) (ys : List ℕ) (g : ℕ)
    → index_of (run start n ++ ys) g
      ≡ (if leb start g && ltb g (start + n) then some (g - start) else plus n (index_of ys g))
index_of-run start zero ys g = ground (arith, plus-zero (index_of ys g))
index_of-run start (suc n) ys g = ground (arith, index_of-run (start + 1) n ys g)

ranges_lem :
    (rs : List CoverageRangeRecord) (g n : ℕ)
    → IsCounted n rs
    → n + length (expand rs) ≤ 2 ^ 16
    → range_coverage_value rs g ≡ plus n (index_of (expand rs) g)
unfolding range_coverage_value
ranges_lem [] g n h fits = refl
ranges_lem (r ∷ rs) g n (le, e, h) fits =
    let k = r.end_glyph + 1 - r.start_glyph in
    let size = length-append (glyphs_of r) (expand rs) in
    let rest = ranges_lem rs g (n + k) h (omega (arith, size, length-run r.start_glyph k)) in
    rw (index_of-run r.start_glyph k (expand rs) g, rest, plus-plus n k (index_of (expand rs) g))
      (ground (arith, size, length-run r.start_glyph k))

-- Where every range of a coverage of format 2 is not empty and starts with the number of the glyphs
-- before it, at most 2 ^ 16 glyphs are covered, and these are in strictly ascending order, the
-- coverage gives for every glyph what the coverage of format 1 of the same glyphs gives.
pub glyph_coverage_value-expand :
    (rs : List CoverageRangeRecord) (glyph : ℕ)
    → IsCounted 0 rs
    → IsAscending (expand rs)
    → length (expand rs) ≤ 2 ^ 16
    → glyph_coverage_value (format2 rs) glyph ≡ glyph_coverage_value (format1 (expand rs)) glyph
unfolding glyph_coverage_value
glyph_coverage_value-expand rs glyph h asc fits =
    ranges_lem rs glyph 0 h (omega arith)
    ∙ sym (plus-zero (index_of (expand rs) glyph))
    ∙ sym (glyph_coverage_value-index_of (expand rs) glyph asc fits)

count_ranges_lem :
    (rs : List CoverageRangeRecord) (n : ℕ)
    → IsCounted n rs
    → n + length (expand rs) ≤ 2 ^ 16
    → All (λ r. r.end_glyph < 2 ^ 16) rs
    → count_ranges n rs ≡ n + length (expand rs)
count_ranges_lem [] n h fits b = omega arith
count_ranges_lem (r ∷ rs) n (le, e, h) fits (b, bs) =
    let k = r.end_glyph + 1 - r.start_glyph in
    let size = length-append (glyphs_of r) (expand rs) in
    let sum : add_range n r ≡ n + k = omega (arith, size, length-run r.start_glyph k) in
    let rest = count_ranges_lem rs (n + k) h (omega (arith, size, length-run r.start_glyph k)) bs in
    rw (sum, rest) (omega (arith, size, length-run r.start_glyph k))

-- Where every range of a coverage of format 2 is not empty and starts with the number of the glyphs
-- before it, at most 2 ^ 16 glyphs are covered, and their numbers have 16 bits, `glyph_count` is
-- the number of the covered glyphs: its `usize` fold does not wrap.
pub glyph_count-expand :
    (rs : List CoverageRangeRecord)
    → IsCounted 0 rs
    → length (expand rs) ≤ 2 ^ 16
    → All (λ r. r.end_glyph < 2 ^ 16) rs
    → glyph_count (format2 rs) ≡ length (expand rs)
unfolding glyph_count
glyph_count-expand rs h fits b = let e = count_ranges_lem rs 0 h (omega arith) b in omega (arith, e)
