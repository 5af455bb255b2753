-- ===== src/Layout/ClassDef/Lookup.antt =====
-- The class of a glyph, against a description of the table.
use allsorts.Base.{ℕ, zero, suc, ◌+◌, ◌-◌, ◌≤◌, ◌<◌, ◌≡◌, refl, ap, ◌∙◌, arith, inl, inr}
use allsorts.Base.{
  List, [], ◌∷◌, ◌++◌, Option, none, some, length, get_elem?, leb, ltb, ◌&&◌, Bool-cases, false,
  leb→le, if◌then◌else◌, sym,
}
use allsorts.Layout.ClassDef.{
  ClassRangeRecord, format1, format2, class_of_ranges, class_at, glyph_class_value,
}
use allsorts.Error.{ok}

-- One range for each glyph of an array.
abbrev ranges_of : ℕ → List ℕ → List ClassRangeRecord
ranges_of start [] = []
ranges_of start (v ∷ vs) =
    record { start_glyph = start; end_glyph = start; class_value = v } ∷ ranges_of (start + 1) vs

below_ranges :
    (vs : List ℕ) (start glyph : ℕ) → glyph < start → class_of_ranges (ranges_of start vs) glyph ≡ 0
unfolding class_of_ranges
below_ranges [] start glyph h = refl
below_ranges (v ∷ vs) start glyph h = ground (arith, below_ranges vs (start + 1) glyph)

abbrev pub or_zero : Option ℕ → ℕ
or_zero none = 0
or_zero (some v) = v

in_ranges :
    (vs : List ℕ) (start k : ℕ)
    → class_of_ranges (ranges_of start vs) (start + k) ≡ or_zero (get_elem? vs k)
unfolding class_of_ranges
in_ranges [] start k = refl
in_ranges (v ∷ vs) start zero = ground arith
in_ranges (v ∷ vs) start (suc k) =
    let e : start + suc k ≡ start + 1 + k = omega arith in
    rw (e, past_first start k) (in_ranges vs (start + 1) k)
  where
    past_first : (start k : ℕ) → (leb start (start + 1 + k) && leb (start + 1 + k) start) ≡ false
    past_first start k = ground arith

pub array_class :
    (vs : List ℕ) (k : ℕ)
    → (if ltb k (length vs) then class_at vs k else ok 0) ≡ ok (or_zero (get_elem? vs k))
array_class [] k = ground arith
array_class (v ∷ vs) zero = ground arith
array_class (v ∷ vs) (suc k) = ground (arith, array_class vs k)

-- For every start glyph, list of classes and glyph, the lookup in format 1 ends as the lookup in
-- format 2 does where each glyph of the array is a range of its own.
glyph_class_value-ranges_of :
    (start_glyph : ℕ) (class_values : List ℕ) (glyph : ℕ)
    → glyph_class_value (format1 start_glyph class_values) glyph
      ≡ glyph_class_value (format2 (ranges_of start_glyph class_values)) glyph
unfolding glyph_class_value
glyph_class_value-ranges_of start vs glyph = elim (Bool-cases (leb start glyph)) [
  | inl above ↦
      let e : start + (glyph - start) ≡ glyph = omega (arith, leb→le start glyph above) in
      rw above (array_class vs (glyph - start))
      ∙ ap ok
          (sym (in_ranges vs start (glyph - start)) ∙ ap (class_of_ranges (ranges_of start vs)) e)
  | inr below ↦ rw below (ap ok (sym (below_ranges vs start glyph (ground arith))))
]

-- Ranges in order, none of which overlaps the one before it.
abbrev pub IsOrdered : ℕ → List ClassRangeRecord → Type 0
IsOrdered least [] = Unit {0}
IsOrdered least (r ∷ rs) =
    (least ≤ r.start_glyph) × (r.start_glyph ≤ r.end_glyph) × IsOrdered (r.end_glyph + 1) rs

ordered_from :
    (before after : List ClassRangeRecord) (r : ClassRangeRecord) (least : ℕ)
    → IsOrdered least (before ++ r ∷ after)
    → least ≤ r.start_glyph
ordered_from [] after r least h = h.0
ordered_from (s ∷ before) after r least (a, b, h) =
    omega (arith, ordered_from before after r (s.end_glyph + 1) h)

decisive :
    (before after : List ClassRangeRecord) (r : ClassRangeRecord) (glyph least : ℕ)
    → IsOrdered least (before ++ r ∷ after)
    → r.start_glyph ≤ glyph
    → glyph ≤ r.end_glyph
    → class_of_ranges (before ++ r ∷ after) glyph ≡ r.class_value
unfolding class_of_ranges
decisive [] after r glyph least o h k = ground arith
decisive (s ∷ before) after r glyph least (a, b, o) h k =
    rw
      (past s.start_glyph s.end_glyph glyph
        (omega (arith, ordered_from before after r (s.end_glyph + 1) o)))
      (decisive before after r glyph (s.end_glyph + 1) o h k)
  where
    past : (start end g : ℕ) → end < g → (leb start g && leb g end) ≡ false
    past start end g h = ground arith

-- In a list of ranges that are in order and do not overlap, the range that holds a glyph decides
-- its class, wherever in the list it stands.
pub class_of_ranges-IsOrdered :
    (before after : List ClassRangeRecord) (r : ClassRangeRecord) (glyph : ℕ)
    → IsOrdered 0 (before ++ r ∷ after)
    → r.start_glyph ≤ glyph
    → glyph ≤ r.end_glyph
    → glyph_class_value (format2 (before ++ r ∷ after)) glyph ≡ ok r.class_value
unfolding glyph_class_value
class_of_ranges-IsOrdered before after r glyph o h k = ap ok (decisive before after r glyph 0 o h k)
