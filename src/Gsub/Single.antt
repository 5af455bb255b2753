-- ===== src/Gsub/Single.antt =====
-- src/layout.rs: what the single substitutions give for a glyph.
use allsorts.Base.{
  ℕ, ◌+◌, ◌-◌, ◌%◌, ◌^◌, ◌<◌, ◌≡◌, refl, ap, arith, Option, none, some, Option-cases, inl, inr,
}
use allsorts.Base.Int.{ℤ, pos, negsuc}
use allsorts.Error.{ok}
use allsorts.Layout.Coverage.{Coverage, glyph_coverage_value}
use allsorts.Gsub.{format1, single_apply_glyph, add_delta}

-- A delta of 16 bits: from -2 ^ 15 to 2 ^ 15 - 1.
abbrev pub IsDelta : ℤ → Type 0
IsDelta (pos n) = n < 2 ^ 15
IsDelta (negsuc n) = n < 2 ^ 15

-- The sum of a glyph and a delta, modulo 2 ^ 16, as a number of 16 bits.
abbrev pub shifted : ℕ → ℤ → ℕ
shifted glyph (pos n) = (glyph + n) % 2 ^ 16
shifted glyph (negsuc n) = (glyph + (2 ^ 16 - 1 - n)) % 2 ^ 16

add_delta_lem :
    (glyph : ℕ) (delta : ℤ)
    → glyph < 2 ^ 16
    → IsDelta delta
    → add_delta glyph delta ≡ shifted glyph delta
add_delta_lem glyph (pos n) g d = omega arith
add_delta_lem glyph (negsuc n) g d = omega arith

abbrev moved : ℕ → ℤ → Option ℕ → Option ℕ
moved glyph delta none = none
moved glyph delta (some i) = some (shifted glyph delta)

-- For every coverage, a glyph of 16 bits and a delta of 16 bits with a sign, `single_apply_glyph`
-- on format 1 gives the glyph plus the delta modulo 2 ^ 16 where the glyph is covered, and no
-- substitute where it is not.
single_apply_glyph-delta :
    (coverage : Coverage) (delta : ℤ) (glyph : ℕ)
    → glyph < 2 ^ 16
    → IsDelta delta
    → single_apply_glyph (format1 coverage delta) glyph
      ≡ ok (moved glyph delta (glyph_coverage_value coverage glyph))
unfolding single_apply_glyph
single_apply_glyph-delta coverage delta glyph g d =
    elim (Option-cases (glyph_coverage_value coverage glyph)) [
      | inl e ↦ rw (single_apply_glyph, e) refl
      | inr (i, e) ↦
          rw (single_apply_glyph, e) (ap (λ x. ok (some x)) (add_delta_lem glyph delta g d))
    ]
