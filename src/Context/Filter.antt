-- ===== src/Context/Filter.antt =====
-- The glyphs that a lookup does not pass over, as a total test.
use allsorts.Base.{
  arith, ℕ, ◌≡◌, ap, ◌==◌, ◌&&◌, ◌||◌, not, Bool, true, false, if◌then◌else◌, List, [], ◌∷◌, Option,
}
use allsorts.Error.{Outcome, ParseError, ok}
use allsorts.Gdef.{GdefTable}
use allsorts.Gdef.Classes.{class_in, mark_class_in, glyph_class_lem, mark_attach_class_lem}
use allsorts.Context.{
  MatchType, IgnoreMarks, no_ignore_marks, ignore_all_marks, ignore_marks_except,
  is_no_ignore_marks, match_marks, match_glyph,
}

-- A mark is passed over where the lookup ignores its attachment class.
abbrev pub ignores_mark : IgnoreMarks → ℕ → Bool
ignores_mark no_ignore_marks mark_class = false
ignores_mark ignore_all_marks mark_class = true
ignores_mark (ignore_marks_except keep_class) mark_class = not (mark_class == keep_class)

-- Class 1 is a base, 2 a ligature, 3 a mark.
abbrev pub ignores : MatchType → Option GdefTable → ℕ → Bool
ignores m t g =
    (m.ignore_bases && (class_in t g == 1))
    || ((m.ignore_ligatures && (class_in t g == 2))
        || ((class_in t g == 3) && ignores_mark m.ignore_marks (mark_class_in t g)))

abbrev pub keeps : MatchType → Option GdefTable → ℕ → Bool
keeps m t g = not (ignores m t g)

match_marks_lem :
    (k : IgnoreMarks) (t : Option GdefTable) (g class : ℕ)
    → match_marks k t g class ≡ ok (not ((class == 3) && ignores_mark k (mark_class_in t g)))
unfolding match_marks
match_marks_lem no_ignore_marks t g class = ap ok (ground arith)
match_marks_lem ignore_all_marks t g class = ap ok (ground arith)
match_marks_lem (ignore_marks_except c) t g class =
    rw (mark_attach_class_lem t g) (ap ok (ground arith))

abbrev answer : Bool → Outcome ParseError Bool
answer b = ok b

tests :
    (b l : Bool) (k : IgnoreMarks) (class mark : ℕ)
    → (if not b && (not l && is_no_ignore_marks k)
        then ok true
        else if b && (class == 1)
        then ok false
        else if l && (class == 2)
        then ok false
        else ok (not ((class == 3) && ignores_mark k mark)))
      ≡ answer (
          not
            ((b && (class == 1)) || ((l && (class == 2)) || ((class == 3) && ignores_mark k mark))))
tests b l no_ignore_marks class mark = ground arith
tests b l ignore_all_marks class mark = ground arith
tests b l (ignore_marks_except c) class mark = ground arith

-- For every lookup, table and glyph, `match_glyph` ends, without a panic, in whether the lookup
-- keeps the glyph: it keeps all but the bases, the ligatures and the marks that it ignores, by the
-- classes that the table gives.
pub match_glyph_lem :
    (m : MatchType) (t : Option GdefTable) (g : ℕ) → match_glyph m t g ≡ ok (keeps m t g)
unfolding match_glyph
match_glyph_lem m t g =
    rw (match_glyph, glyph_class_lem t g, match_marks_lem m.ignore_marks t g (class_in t g))
      (tests m.ignore_bases m.ignore_ligatures m.ignore_marks (class_in t g) (mark_class_in t g))

-- The elements that pass a test, in their order.
abbrev pub kept {ℓ} : {A : Type ℓ} → (A → Bool) → List A → List A
kept p [] = []
kept p (x ∷ xs) = if p x then x ∷ kept p xs else kept p xs
